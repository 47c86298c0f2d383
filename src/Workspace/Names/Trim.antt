-- ===== src/Workspace/Names/Trim.antt =====
-- `trim_matches`: what it leaves has the character at neither end, and is a part of the text.
use mathlib.Core.List.{reverse, reverse-reverse, reverse-append}
use burlmd.Prelude.{
  ℕ, ◌≡◌, refl, sym, ap, ◌∙◌, inl, inr, Bool, false, ◌==◌, List, [], ◌∷◌, ◌++◌, any, Bool-cases,
  arith,
}
use burlmd.Prelude.Text.{Text, starts_with, contains}
use burlmd.Workspace.Names.{trim_start, trim_matches}

module _ (c : ℕ) where
  starts_with-trim_start : (s : Text) → starts_with (c ∷ []) (trim_start c s) ≡ false
  unfolding starts_with trim_start
  starts_with-trim_start [] = refl
  starts_with-trim_start (a ∷ s) = elim (Bool-cases (a == c)) [
    | inl e ↦ rw e (starts_with-trim_start s)
    | inr e ↦ let other : (c == a) ≡ false = ground arith in rw (e, other)
  ]

  trim_start_clean : (s : Text) → starts_with (c ∷ []) s ≡ false → trim_start c s ≡ s
  unfolding starts_with trim_start
  trim_start_clean [] h = refl
  trim_start_clean (a ∷ s) h = let other : (a == c) ≡ false = ground arith in rw other

  starts_with_prefix :
      (s t : Text) → starts_with (c ∷ []) (s ++ t) ≡ false → starts_with (c ∷ []) s ≡ false
  unfolding starts_with
  starts_with_prefix [] t h = refl
  starts_with_prefix (a ∷ s) t h = h

  trim_start_suffix : (s : Text) → (pre : Text) × (s ≡ pre ++ trim_start c s)
  unfolding trim_start
  trim_start_suffix [] = ([], refl)
  trim_start_suffix (a ∷ s) = elim (Bool-cases (a == c)) [
    | inl e ↦ let (pre, eq) = trim_start_suffix s in (a ∷ pre, rw e (ap (λ t. a ∷ t) eq))
    | inr e ↦ ([], rw e)
  ]

  -- What is trimmed stands in the text.
  pub trim_matches_inside :
      (s : Text) → (pre : Text) × (post : Text) × (s ≡ pre ++ (trim_matches c s ++ post))
  unfolding trim_matches
  trim_matches_inside s =
      let (pre, e) = trim_start_suffix s in
      let (end, f) = trim_start_suffix (reverse (trim_start c s)) in
      (
        pre,
        reverse end,
        e
            ∙ ap (λ t. pre ++ t)
                (sym (reverse-reverse (trim_start c s)) ∙ ap reverse f ∙ reverse-append end _),
      )

  pub trim_matches_twice : (s : Text) → trim_matches c (trim_matches c s) ≡ trim_matches c s
  unfolding trim_matches
  trim_matches_twice s =
      let (end, f) = trim_start_suffix (reverse (trim_start c s)) in
      let u = trim_start c (reverse (trim_start c s)) in
      let whole : trim_start c s ≡ reverse u ++ reverse end =
        sym (reverse-reverse (trim_start c s)) ∙ ap reverse f ∙ reverse-append end u in
      let front : starts_with (c ∷ []) (reverse u) ≡ false =
        starts_with_prefix (reverse u) (reverse end) (rw (← whole) (starts_with-trim_start s)) in
      let back : starts_with (c ∷ []) u ≡ false =
        starts_with-trim_start (reverse (trim_start c s)) in
      rw (trim_start_clean (reverse u) front, reverse-reverse u, trim_start_clean u back)

any_part :
    {A : Type 0} (p : A → Bool) (xs ys zs : List A)
    → any p (xs ++ (ys ++ zs)) ≡ false
    → any p ys ≡ false
any_part p [] [] zs h = refl
any_part p [] (y ∷ ys) zs h = elim (Bool-cases (p y)) [
  | inl e ↦ cc (rw e at h)
  | inr e ↦ rw e (any_part p [] ys zs (rw e at h))
]
any_part p (x ∷ xs) ys zs h = elim (Bool-cases (p x)) [
  | inl e ↦ cc (rw e at h)
  | inr e ↦ any_part p xs ys zs (rw e at h)
]

pub contains-trim_matches :
    (k c : ℕ) (s : Text) → contains k s ≡ false → contains k (trim_matches c s) ≡ false
contains-trim_matches k c s h =
    let (pre, post, e) = trim_matches_inside c s in
    any_part (λ a. a == k) pre (trim_matches c s) post (rw (← e) h)
