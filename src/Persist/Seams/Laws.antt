-- ===== src/Persist/Seams/Laws.antt =====
-- What the separators keep apart, and what the runs of line ends are.
use mathlib.Core.List.{reverse, reverse-append, reverse-reverse}
use burlmd.Prelude.{
  ℕ, zero, suc, ◌+◌, ◌-◌, ◌≤◌, max, ◌≡◌, refl, sym, ap, ◌∙◌, ◌≢◌, ◌⊎◌, inl, inr, true, ◌||◌, some,
  [], ◌∷◌, ◌++◌, append_assoc, append-nil, ◌==◌, if◌then◌else◌, Bool-cases, Option-cases, All,
  All-append, subst, arith,
}
use burlmd.Prelude.Text.{Text, ends_with, text_eq}
use burlmd.Prelude.Split.{rsplit_once}
use burlmd.Prelude.Bytes.{byte_len, byte_len-append, len_utf8, get, get-at}
use burlmd.Persist.Seams.{
  newline_run, trailing_newlines, newline_style, repeat, separator_before, separator_across,
  is_line_end, newline_run_len, drop_line_end, drop_line_ends, cut_to_one_trailing_newline,
}

pub newline_style-cases :
    (text : Text) → (newline_style text ≡ b'\n' ∷ []) ⊎ (newline_style text ≡ b'\r' ∷ b'\n' ∷ [])
unfolding newline_style
newline_style-cases text = elim (Option-cases (rsplit_once b'\n' text)) [
  | inl e ↦ inl (rw (e, newline_style) refl)
  | inr ((before, last), e) ↦ elim (Bool-cases (ends_with (b'\r' ∷ []) before)) [
    | inl f ↦ inr (rw (e, f, newline_style) refl)
    | inr f ↦ inl (rw (e, f, newline_style) refl)
  ]
]

trailing_newlines-newline :
    (s text : Text) → trailing_newlines (s ++ newline_style text) ≡ suc (trailing_newlines s)
unfolding trailing_newlines newline_run
trailing_newlines-newline s text = elim (newline_style-cases text) [
  | inl e ↦ rw (e, reverse-append s (b'\n' ∷ [])) refl
  | inr e ↦ rw (e, reverse-append s (b'\r' ∷ b'\n' ∷ [])) refl
]

-- Each line end of a Note's own style is one more.
pub trailing_newlines-repeat :
    (s text : Text) (k : ℕ)
    → trailing_newlines (s ++ repeat (newline_style text) k) ≡ k + trailing_newlines s
unfolding repeat
trailing_newlines-repeat s text zero = ap trailing_newlines (append-nil s) ∙ omega arith
trailing_newlines-repeat s text (suc k) =
    ap trailing_newlines (sym (append_assoc s (newline_style text) (repeat (newline_style text) k)))
    ∙ (trailing_newlines-repeat (s ++ newline_style text) text k
        ∙ omega (arith, trailing_newlines-newline s text))

-- A separator makes up what a text lacks, and no more.
pub trailing_newlines-separator_before :
    (before : Text) (required : ℕ)
    → before ≢ []
    → trailing_newlines (before ++ separator_before before required)
      ≡ max required (trailing_newlines before)
unfolding separator_before
trailing_newlines-separator_before [] required h = absurd (h refl)
trailing_newlines-separator_before (c ∷ s) required h =
    trailing_newlines-repeat (c ∷ s) (c ∷ s) (required - trailing_newlines (c ∷ s)) ∙ omega arith

line_end_width : (c : ℕ) → is_line_end c ≡ true → len_utf8 c ≡ 1
line_end_width c h = ground arith

abbrev pub IsLineEnds : Text → Type 0
IsLineEnds run = All (λ c. is_line_end c ≡ true) run

-- The run of line ends that a text begins with.
pub newline_run_len-split :
    (text : Text)
    → (run : Text) × (rest : Text) × (text ≡ run ++ rest)
      × (byte_len run ≡ newline_run_len text)
      × IsLineEnds run
unfolding newline_run_len byte_len
newline_run_len-split [] = ([], [], refl, refl, tt)
newline_run_len-split (c ∷ s) = elim (Bool-cases (is_line_end c)) [
  | inl e ↦
      let (run, rest, text, len, ends) = newline_run_len-split s in
      let width = line_end_width c e in
      (c ∷ run, rest, ap (λ t. c ∷ t) text, rw e (omega (arith, len, width)), (e, ends))
  | inr e ↦ ([], c ∷ s, refl, rw e refl, tt)
]

pub All-reverse : (Q : ℕ → Type 0) (xs : Text) → All Q xs → All Q (reverse xs)
All-reverse Q [] h = tt
All-reverse Q (x ∷ xs) h =
    subst (All Q) (sym (reverse-append (x ∷ []) xs))
      (All-append Q (reverse xs) (x ∷ []) (All-reverse Q xs h.1) (h.0, tt))

-- One round takes one or two line ends and at most one newline.
drop_line_end-split :
    (text : Text) (n : ℕ)
    → suc (suc n) ≤ newline_run text
    → (dropped : Text) × (text ≡ dropped ++ drop_line_end text)
      × IsLineEnds dropped
      × (suc n ≤ newline_run (drop_line_end text))
unfolding newline_run
drop_line_end-split [] n h = absurd (omega arith)
drop_line_end-split (c ∷ []) n h = absurd (ground arith)
drop_line_end-split (c ∷ d ∷ s) n h = elim (Bool-cases (d == b'\r')) [
  | inl e ↦ (c ∷ d ∷ [], rw e refl, (ground arith, (ground arith, tt)), rw e (ground arith))
  | inr e ↦ (c ∷ [], rw e refl, (ground arith, tt), rw e (ground arith))
]

drop_line_ends-split :
    (n : ℕ) (text : Text)
    → suc n ≤ newline_run text
    → (dropped : Text) × (text ≡ dropped ++ drop_line_ends n text) × IsLineEnds dropped
unfolding drop_line_ends
drop_line_ends-split zero text h = ([], refl, tt)
drop_line_ends-split (suc n) text h =
    let (first, e, ends, more) = drop_line_end-split text n h in
    let (dropped, f, ends') = drop_line_ends-split n (drop_line_end text) more in
    (
      first ++ dropped,
      e ∙ (ap (λ t. first ++ t) f ∙ sym (append_assoc first dropped _)),
      All-append (λ c. is_line_end c ≡ true) first dropped ends ends',
    )

-- What is cut off at the end of a text is line ends.
pub cut_to_one_trailing_newline-split :
    (text : Text)
    → (kept : Text) × (cut : Text) × (text ≡ kept ++ cut)
      × (byte_len kept ≡ cut_to_one_trailing_newline text)
      × IsLineEnds cut
unfolding cut_to_one_trailing_newline drop_line_ends trailing_newlines
cut_to_one_trailing_newline-split text = by_count (trailing_newlines text) refl
  where
    by_count :
        (n : ℕ)
        → n ≡ newline_run (reverse text)
        → (kept : Text) × (cut : Text) × (text ≡ kept ++ cut)
          × (byte_len kept ≡ byte_len (reverse (drop_line_ends (n - 1) (reverse text))))
          × IsLineEnds cut
    by_count zero h =
        (text, [], sym (append-nil text), ap byte_len (sym (reverse-reverse text)), tt)
    by_count (suc n) h =
        let (dropped, e, ends) = drop_line_ends-split n (reverse text) (omega (arith, h)) in
        let rest = drop_line_ends n (reverse text) in
        let one : suc n - 1 ≡ n = omega arith in
        (
          reverse rest,
          reverse dropped,
          sym (reverse-reverse text) ∙ (ap reverse e ∙ reverse-append dropped rest),
          ap (λ k. byte_len (reverse (drop_line_ends k (reverse text)))) (sym one),
          All-reverse (λ c. is_line_end c ≡ true) dropped ends,
        )

-- The separator between what is before and after a removed region.
pub separator_across-at :
    (a r c : Text) {source : Text} {start stop : ℕ}
    → source ≡ a ++ (r ++ c)
    → byte_len a ≡ start
    → byte_len a + byte_len r ≡ stop
    → separator_across source start stop
      ≡ (if text_eq a [] || text_eq c [] then [] else separator_before a (trailing_newlines r))
unfolding separator_across
separator_across-at a r c {source} {start} {stop} text starts stops =
    let whole : byte_len source ≡ byte_len a + (byte_len r + byte_len c) =
      ap byte_len text ∙ (byte_len-append a (r ++ c) ∙ omega (arith, byte_len-append r c)) in
    let none_before : byte_len [] ≡ 0 = unfold byte_len in refl in
    let first : get source (record { start = 0; stop = start }) ≡ some a =
      get-at [] a (r ++ c) text none_before (omega (arith, none_before, starts)) in
    let middle : get source (record { start = start; stop = stop }) ≡ some r =
      get-at a r c text starts stops in
    let last : get source (record { start = stop; stop = byte_len source }) ≡ some c =
      get-at (a ++ r) c []
        (text ∙ (sym (append_assoc a r c) ∙ ap (λ t. (a ++ r) ++ t) (sym (append-nil c))))
        (byte_len-append a r ∙ stops) (omega (arith, byte_len-append a r, whole)) in
    rw (first, middle, last, separator_across) refl

pub IsLineEnds-repeat : (text : Text) (k : ℕ) → IsLineEnds (repeat (newline_style text) k)
unfolding repeat
IsLineEnds-repeat text zero = tt
IsLineEnds-repeat text (suc k) =
    All-append (λ c. is_line_end c ≡ true) (newline_style text) (repeat (newline_style text) k) one
      (IsLineEnds-repeat text k)
  where
    one : IsLineEnds (newline_style text)
    one = elim (newline_style-cases text) [
      | inl e ↦ subst IsLineEnds (sym e) (refl, tt)
      | inr e ↦ subst IsLineEnds (sym e) (refl, (refl, tt))
    ]

pub separator_before-IsLineEnds : (before : Text) (k : ℕ) → IsLineEnds (separator_before before k)
unfolding separator_before
separator_before-IsLineEnds [] k = tt
separator_before-IsLineEnds (c ∷ s) k = IsLineEnds-repeat (c ∷ s) (k - trailing_newlines (c ∷ s))
