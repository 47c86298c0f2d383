-- ===== src/Persist/Seams/Ends.antt =====
-- Line ends at the end of a text, described apart from how the code counts them.
use mathlib.Core.List.{reverse, reverse-append, reverse-reverse}
use burlmd.Prelude.{
  ℕ, suc, ◌+◌, ◌≤◌, ◌≡◌, refl, sym, ap, ◌∙◌, inl, inr, Bool-cases, [], ◌∷◌, ◌++◌, ◌==◌,
  if◌then◌else◌, arith, true,
}
use burlmd.Prelude.Text.{Text}
use burlmd.Persist.Seams.{is_line_end, newline_run, trailing_newlines}
use burlmd.Persist.Seams.Laws.{IsLineEnds, All-reverse}

abbrev pub newline_count : Text → ℕ
newline_count [] = 0
newline_count (c ∷ s) = let rest = newline_count s in if c == b'\n' then suc rest else rest

-- A text ends in so many newlines, with nothing but carriage returns between and around them.
abbrev pub EndsIn : ℕ → Text → Type 0
EndsIn n text =
    (head : Text) × (run : Text) × (text ≡ head ++ run) × IsLineEnds run × (n ≤ newline_count run)

newline_count-append : (s t : Text) → newline_count (s ++ t) ≡ newline_count s + newline_count t
newline_count-append [] t = omega arith
newline_count-append (c ∷ s) t =
    let ih = newline_count-append s t in
    elim (Bool-cases (c == b'\n')) [ inl e ↦ rw e (omega (arith, ih)) | inr e ↦ rw e ih ]

newline_count-reverse : (s : Text) → newline_count (reverse s) ≡ newline_count s
newline_count-reverse [] = refl
newline_count-reverse (c ∷ s) =
    let ih = newline_count-reverse s in
    ap newline_count (reverse-append (c ∷ []) s)
    ∙ newline_count-append (reverse s) (c ∷ [])
    ∙ (elim (Bool-cases (c == b'\n')) [
      | inl e ↦ rw e (omega (arith, ih))
      | inr e ↦ rw e (omega (arith, ih))
    ])

newline_run-split :
    (text : Text)
    → (run : Text) × (rest : Text) × (text ≡ run ++ rest)
      × IsLineEnds run
      × (newline_count run ≡ newline_run text)
unfolding newline_run
newline_run-split [] = ([], [], refl, tt, refl)
newline_run-split (c ∷ s) =
    let (run, rest, e, ends, count) = newline_run-split s in
    elim (Bool-cases (c == b'\r')) [
      | inl r ↦ (c ∷ run, rest, ap (λ t. c ∷ t) e, (ground arith, ends), ground arith)
      | inr r ↦ elim (Bool-cases (c == b'\n')) [
        | inl n ↦ (c ∷ run, rest, ap (λ t. c ∷ t) e, (ground arith, ends), ground arith)
        | inr n ↦ ([], c ∷ s, refl, tt, rw (r, n) refl)
      ]
    ]

-- What the code counts is there.
pub trailing_newlines-EndsIn : (n : ℕ) (text : Text) → n ≤ trailing_newlines text → EndsIn n text
unfolding trailing_newlines
trailing_newlines-EndsIn n text h =
    let (run, rest, e, ends, count) = newline_run-split (reverse text) in
    (
      reverse rest,
      reverse run,
      sym (reverse-reverse text) ∙ (ap reverse e ∙ reverse-append run rest),
      All-reverse (λ c. is_line_end c ≡ true) run ends,
      omega (arith, h, count, newline_count-reverse run),
    )
