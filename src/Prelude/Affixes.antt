-- ===== src/Prelude/Affixes.antt =====
-- Laws of `strip_prefix`, `strip_suffix`, `starts_with` and `ends_with`.
use Prim.Native.Nat.{ℕ}
use mathlib.Core.Path.{◌≡◌, refl, ap}
use mathlib.Core.Logic.{◌≢◌, inl, inr}
use mathlib.Core.List.{[], ◌∷◌, ◌++◌}
use mathlib.Core.Option
use mathlib.Core.Option.{Option, none, some}
use mathlib.Core.Bool.{true, false}
use native.Mathlib.Omega.{arith}
use burlmd.Prelude.Tests.{Bool-cases}
use burlmd.Prelude.Lists.{length, length-append}
use burlmd.Prelude.Text.{
  Text, text_eq, text_eq→eq, text_eq_refl, strip_prefix, starts_with, strip_suffix, ends_with,
}

pub strip_prefix-append : (p s : Text) → strip_prefix p (p ++ s) ≡ some s
unfolding strip_prefix
strip_prefix-append [] s = refl
strip_prefix-append (a ∷ p) s = ground (arith, strip_prefix-append p s)

pub strip_prefix-eq-some : (p s : Text) {r : Text} → strip_prefix p s ≡ some r → s ≡ p ++ r
unfolding strip_prefix
strip_prefix-eq-some [] s h = cc
strip_prefix-eq-some (a ∷ p) [] h = cc
strip_prefix-eq-some (a ∷ p) (c ∷ s) {r} h = ground (arith, strip_prefix-eq-some p s {r = r})

pub starts_with-append : (p s : Text) → starts_with p (p ++ s) ≡ true
unfolding starts_with
starts_with-append [] s = refl
starts_with-append (a ∷ p) s = ground (arith, starts_with-append p s)

-- `starts_with` and `strip_prefix` make one decision.
pub strip_prefix-eq-none : (p s : Text) → starts_with p s ≡ false → strip_prefix p s ≡ none
unfolding strip_prefix starts_with
strip_prefix-eq-none [] s h = cc
strip_prefix-eq-none (a ∷ p) [] h = refl
strip_prefix-eq-none (a ∷ p) (c ∷ s) h = ground (arith, strip_prefix-eq-none p s)

-- A text is not its own proper extension.
ne-cons-append : (c : ℕ) (r s : Text) → c ∷ (r ++ s) ≢ s
ne-cons-append c r s e = omega (arith, ap length e, length-append r s)

text_eq-cons-append : (c : ℕ) (r s : Text) → text_eq (c ∷ (r ++ s)) s ≡ false
text_eq-cons-append c r s = elim (Bool-cases (text_eq (c ∷ (r ++ s)) s)) [
  | inl h ↦ absurd (ne-cons-append c r s (text_eq→eq _ s h))
  | inr h ↦ h
]

strip_suffix_self : (s : Text) → strip_suffix s s ≡ some []
unfolding strip_suffix
strip_suffix_self [] = rw (text_eq_refl [])
strip_suffix_self (c ∷ s) = rw (text_eq_refl (c ∷ s))

pub strip_suffix-append : (r s : Text) → strip_suffix s (r ++ s) ≡ some r
unfolding strip_suffix
strip_suffix-append [] s = strip_suffix_self s
strip_suffix-append (c ∷ r) s = rw (text_eq-cons-append c r s) (rw (strip_suffix-append r s))

map-cons-some :
    (c : ℕ) (o : Option Text) {r : Text}
    → Option.map (λ t. c ∷ t) o ≡ some r
    → (t : Text) × (o ≡ some t) × (r ≡ c ∷ t)
map-cons-some c none h = cc
map-cons-some c (some t) h = (t, refl, ground arith)

pub strip_suffix-eq-some : (s t : Text) {r : Text} → strip_suffix s t ≡ some r → t ≡ r ++ s
unfolding strip_suffix
strip_suffix-eq-some s [] h = elim (Bool-cases (text_eq [] s)) [
  | inl e ↦ cc (text_eq→eq [] s e, (rw e at h))
  | inr e ↦ cc (rw e at h)
]
strip_suffix-eq-some s (c ∷ t) h = elim (Bool-cases (text_eq (c ∷ t) s)) [
  | inl e ↦ cc (text_eq→eq (c ∷ t) s e, (rw e at h))
  | inr e ↦
      let (u, eu, er) = map-cons-some c (strip_suffix s t) (rw e at h) in
      cc (strip_suffix-eq-some s t eu, er)
]

-- `ends_with` and `strip_suffix` make one decision.
pub ends_with-append : (r s : Text) → ends_with s (r ++ s) ≡ true
unfolding ends_with
ends_with-append [] [] = text_eq_refl []
ends_with-append [] (c ∷ s) = rw (text_eq_refl (c ∷ s))
ends_with-append (c ∷ r) s = rw (text_eq-cons-append c r s, ends_with-append r s)

pub strip_suffix-eq-none : (s t : Text) → ends_with s t ≡ false → strip_suffix s t ≡ none
unfolding strip_suffix ends_with
strip_suffix-eq-none s [] h = rw h
strip_suffix-eq-none s (c ∷ t) h = ground (arith, strip_suffix-eq-none s t)

pub strip_suffix_total :
    (s t : Text) → ends_with s t ≡ true → (r : Text) × (strip_suffix s t ≡ some r)
unfolding strip_suffix ends_with
strip_suffix_total s [] h = ([], rw h)
strip_suffix_total s (c ∷ t) h = elim (Bool-cases (text_eq (c ∷ t) s)) [
  | inl e ↦ ([], rw e)
  | inr e ↦ let (r, er) = strip_suffix_total s t (rw e at h) in (c ∷ r, rw (e, er))
]
