-- ===== src/Workspace/Scratch/Laws.antt =====
-- Which names are burlmd's own, and that git is told to ignore them all.
use burlmd.Prelude.{
  ℕ, ◌≡◌, refl, ap, ◌∙◌, ◌≢◌, ◌↔◌, inl, inr, true, false, not, ◌&&◌, &&-true, ◌==◌, ==_iff, [], ◌∷◌,
  ◌++◌, all, Bool-cases, Option-cases, arith,
}
use burlmd.Prelude.Text.{Text, text_eq, starts_with, strip_prefix, strip_suffix}
use burlmd.Prelude.Affixes.{
  strip_prefix-eq-some, strip_prefix-append, strip_suffix-eq-some, strip_suffix-append,
  ends_with-append, starts_with-append,
}
use burlmd.Prelude.Split.{rsplit_once, rsplit_once-append, rsplit_once-eq-some, Free}
use burlmd.Okf.Links.{is_ascii_digit}
use burlmd.Workspace.Scratch.{
  trash_prefix, tmp, is_decimal, is_temporary, is_ignored_scratch_name, is_burlmd_scratch_name,
}

-- The two names that burlmd gives to files of its own, `.burlmd-trash.{name}` with whatever follows
-- and `.{stem}.{pid}.{n}.tmp`.
pub data IsScratch (name : Text) : Type 0 where
  trashed : (rest : Text) → name ≡ trash_prefix ++ rest → IsScratch name
  temporary :
      (stem pid counter : Text)
      → stem ≢ []
      → is_decimal pid ≡ true
      → is_decimal counter ≡ true
      → name ≡ b'.' ∷ ((stem ++ b'.' ∷ pid) ++ b'.' ∷ counter) ++ tmp
      → IsScratch name

digit_not_dot : (c : ℕ) → is_ascii_digit c ≡ true → (c == b'.') ≡ false
digit_not_dot c h = ground arith

digits_Free : (s : Text) → all is_ascii_digit s ≡ true → Free b'.' s
digits_Free [] h = refl
digits_Free (c ∷ s) h =
    let (p, q) = &&-true (is_ascii_digit c) (all is_ascii_digit s) h in
    rw (digit_not_dot c p, digits_Free s q)

decimal_Free : (s : Text) → is_decimal s ≡ true → Free b'.' s
unfolding is_decimal
decimal_Free s h = digits_Free s (&&-true (not (text_eq s [])) (all is_ascii_digit s) h).1

not_empty_text : (t : Text) → not (text_eq t []) ≡ true → t ≢ []
unfolding text_eq
not_empty_text [] h = cc
not_empty_text (c ∷ t) h = λ e. cc

empty_text : (t : Text) → t ≢ [] → not (text_eq t []) ≡ true
unfolding text_eq
empty_text [] n = absurd (n refl)
empty_text (c ∷ t) n = refl

-- The three parts of a temporary file's name.
record Parts (inside : Text) : Type 0 where
  stem : Text
  pid : Text
  counter : Text
  has_stem : stem ≢ []
  pid_decimal : is_decimal pid ≡ true
  counter_decimal : is_decimal counter ≡ true
  parts : inside ≡ (stem ++ b'.' ∷ pid) ++ b'.' ∷ counter

is_temporary-Parts : (inside : Text) → is_temporary inside ≡ true → Parts inside
unfolding is_temporary
is_temporary-Parts inside h = elim (Option-cases (rsplit_once b'.' inside)) [
  | inl e ↦ cc (rw (e, is_temporary) at h)
  | inr (rc, e) ↦ elim (Option-cases (rsplit_once b'.' rc.0)) [
    | inl f ↦ cc (rw (e, is_temporary, f) at h)
    | inr (sp, f) ↦
        let all_true : (not (text_eq sp.0 []) && (is_decimal sp.1 && is_decimal rc.1)) ≡ true =
          (rw (e, is_temporary, f) at h) in
        let (a, bc) = &&-true (not (text_eq sp.0 [])) _ all_true in
        let (b, c) = &&-true (is_decimal sp.1) (is_decimal rc.1) bc in
        record {
          stem = sp.0;
          pid = sp.1;
          counter = rc.1;
          has_stem = not_empty_text sp.0 a;
          pid_decimal = b;
          counter_decimal = c;
          parts =
              (rsplit_once-eq-some b'.' inside {l = rc.0} {r = rc.1} e).0
              ∙ ap (λ t. t ++ b'.' ∷ rc.1)
                  (rsplit_once-eq-some b'.' rc.0 {l = sp.0} {r = sp.1} f).0;
        }
  ]
]

Parts-is_temporary : (inside : Text) → Parts inside → is_temporary inside ≡ true
unfolding is_temporary
Parts-is_temporary inside p = rw (
  p.parts,
  rsplit_once-append b'.' (p.stem ++ b'.' ∷ p.pid) p.counter
      (decimal_Free p.counter p.counter_decimal),
  is_temporary,
  rsplit_once-append b'.' p.stem p.pid (decimal_Free p.pid p.pid_decimal),
  empty_text p.stem p.has_stem,
  p.pid_decimal,
  p.counter_decimal,
)

starts_with-prefix : (p s : Text) → starts_with p s ≡ true → (r : Text) × (s ≡ p ++ r)
unfolding starts_with
starts_with-prefix [] s h = (s, refl)
starts_with-prefix (a ∷ p) [] h = cc
starts_with-prefix (a ∷ p) (c ∷ s) h =
    let (same, rest) = &&-true (a == c) (starts_with p s) h in
    let (r, e) = starts_with-prefix p s rest in (r, cc ((==_iff a c).0 same, e))

is_burlmd_scratch_name-IsScratch :
    (name : Text) → is_burlmd_scratch_name name ≡ true → IsScratch name
unfolding is_burlmd_scratch_name
is_burlmd_scratch_name-IsScratch name h = elim (Bool-cases (starts_with trash_prefix name)) [
  | inl e ↦ let (r, same) = starts_with-prefix trash_prefix name e in IsScratch.trashed r same
  | inr e ↦ elim (Option-cases (strip_prefix (b'.' ∷ []) name)) [
    | inl f ↦ cc (rw (e, f) at h)
    | inr (dotless, f) ↦ elim (Option-cases (strip_suffix tmp dotless)) [
      | inl g ↦ cc (rw (e, f, g) at h)
      | inr (inside, g) ↦
          let p = is_temporary-Parts inside (rw (e, f, g) at h) in
          IsScratch.temporary p.stem p.pid p.counter p.has_stem p.pid_decimal p.counter_decimal (
            strip_prefix-eq-some (b'.' ∷ []) name {r = dotless} f
            ∙ ap (λ t. b'.' ∷ t)
                (strip_suffix-eq-some tmp dotless {r = inside} g ∙ ap (λ t. t ++ tmp) p.parts))
    ]
  ]
]

inside_temporary :
    (name inside : Text)
    → name ≡ b'.' ∷ (inside ++ tmp)
    → is_temporary inside ≡ true
    → is_burlmd_scratch_name name ≡ true
unfolding is_burlmd_scratch_name
inside_temporary name inside e h = elim (Bool-cases (starts_with trash_prefix name)) [
  | inl f ↦ rw f
  | inr f ↦
      rw (f, e, strip_prefix-append (b'.' ∷ []) (inside ++ tmp), strip_suffix-append inside tmp) h
]

IsScratch-is_burlmd_scratch_name :
    (name : Text) → IsScratch name → is_burlmd_scratch_name name ≡ true
unfolding is_burlmd_scratch_name
IsScratch-is_burlmd_scratch_name name (IsScratch.trashed rest e) =
    rw (e, starts_with-append trash_prefix rest)
IsScratch-is_burlmd_scratch_name name (IsScratch.temporary stem pid counter s p c e) =
    inside_temporary name ((stem ++ b'.' ∷ pid) ++ b'.' ∷ counter) e (
      Parts-is_temporary _ (record {
        stem = stem;
        pid = pid;
        counter = counter;
        has_stem = s;
        pid_decimal = p;
        counter_decimal = c;
        parts = refl;
      }))

-- A name is judged to be burlmd's own, and may be removed, exactly if it is a trash entry's or has
-- the form of a temporary file's: a dot, a stem that is not empty, a decimal process id, a decimal
-- counter and `.tmp`.
pub is_burlmd_scratch_name_iff :
    (name : Text) → (is_burlmd_scratch_name name ≡ true) ↔ IsScratch name
is_burlmd_scratch_name_iff name =
    (is_burlmd_scratch_name-IsScratch name, IsScratch-is_burlmd_scratch_name name)

IsScratch-ignored : (name : Text) → IsScratch name → is_ignored_scratch_name name ≡ true
unfolding is_ignored_scratch_name starts_with
IsScratch-ignored name (IsScratch.trashed rest e) = rw (e, starts_with-append trash_prefix rest)
IsScratch-ignored name (IsScratch.temporary stem pid counter s p c e) =
    rw (e, ends_with-append (b'.' ∷ ((stem ++ b'.' ∷ pid) ++ b'.' ∷ counter)) tmp) (ground arith)

-- Whatever is judged to be burlmd's own is covered by the patterns that git is told to ignore.
pub is_burlmd_scratch_name-ignored :
    (name : Text) → is_burlmd_scratch_name name ≡ true → is_ignored_scratch_name name ≡ true
is_burlmd_scratch_name-ignored name h =
    IsScratch-ignored name (is_burlmd_scratch_name-IsScratch name h)
