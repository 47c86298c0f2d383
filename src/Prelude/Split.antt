-- ===== src/Prelude/Split.antt =====
-- `str::split`, `rsplit_once` and `join` at one character, and how they undo one another.
use Prim.Native.Nat.{ℕ}
use mathlib.Core.Path.{◌≡◌, refl, ap, ◌∙◌, subst}
use mathlib.Core.Logic.{inl, inr}
use mathlib.Core.List.{List, [], ◌∷◌, ◌++◌}
use mathlib.Core.Option.{Option, none, some}
use mathlib.Core.Bool.{false}
use burlmd.Prelude.Tests.{◌==◌, ==_iff, ==_refl, if◌then◌else◌, Bool-cases, Option-cases}
use burlmd.Prelude.Lists.{All}
use burlmd.Prelude.Text.{Text, contains}

push_head : ℕ → List Text → List Text
push_head a [] = (a ∷ []) ∷ []
push_head a (w ∷ ws) = (a ∷ w) ∷ ws

-- `s.split(c)`: at least one piece, possibly empty ones.
unfoldable pub split : ℕ → Text → List Text
unfolding push_head
split c [] = [] ∷ []
split c (a ∷ s) = let rest = split c s in if a == c then [] ∷ rest else push_head a rest

-- `pieces.join(c)`.
unfoldable pub join : ℕ → List Text → Text
join c [] = []
join c (w ∷ []) = w
join c (w ∷ v ∷ ws) = w ++ c ∷ join c (v ∷ ws)

-- `s.rsplit_once(c)`: the texts before and after the last `c`.
unfoldable pub rsplit_once : ℕ → Text → Option (Text × Text)
rsplit_once c [] = none
rsplit_once c (a ∷ s) = elim (rsplit_once c s) [
  | none ↦ if a == c then some ([], s) else none
  | some (l, r) ↦ some (a ∷ l, r)
]

-- No piece holds the separator.
abbrev pub Free : ℕ → Text → Type 0
Free c s = contains c s ≡ false

split_nonempty : (c : ℕ) (s : Text) → (w : Text) × (ws : List Text) × (split c s ≡ w ∷ ws)
unfolding split
split_nonempty c [] = ([], [], refl)
split_nonempty c (a ∷ s) =
    let (w, ws, e) = split_nonempty c s in
    elim (Bool-cases (a == c)) [ inl h ↦ ([], split c s, rw h) | inr h ↦ (a ∷ w, ws, rw (h, e)) ]

pub split-Free : (c : ℕ) (s : Text) → All (Free c) (split c s)
unfolding split
split-Free c [] = (refl, tt)
split-Free c (a ∷ s) =
    let (w, ws, e) = split_nonempty c s in
    let f : All (Free c) (w ∷ ws) = (rw e at (split-Free c s)) in
    elim (Bool-cases (a == c)) [
      | inl h ↦ rw h (refl, split-Free c s)
      | inr h ↦ rw (h, e) (rw (h, f.0), f.1)
    ]

pub split_whole : (c : ℕ) (w : Text) → Free c w → split c w ≡ w ∷ []
unfolding split
split_whole c [] h = refl
split_whole c (a ∷ w) h = elim (Bool-cases (a == c)) [
  | inl e ↦ cc (rw e at h)
  | inr e ↦ rw (e, split_whole c w (rw e at h))
]

pub split-append : (c : ℕ) (w s : Text) → Free c w → split c (w ++ c ∷ s) ≡ w ∷ split c s
unfolding split
split-append c [] s h = rw (==_refl c)
split-append c (a ∷ w) s h = elim (Bool-cases (a == c)) [
  | inl e ↦ cc (rw e at h)
  | inr e ↦ rw (e, split-append c w s (rw e at h))
]

-- Splitting at a separator anywhere concatenates the pieces.
pub split-append-cons : (c : ℕ) (s t : Text) → split c (s ++ c ∷ t) ≡ split c s ++ split c t
unfolding split
split-append-cons c [] t = rw (==_refl c)
split-append-cons c (a ∷ s) t =
    let (w, ws, e) = split_nonempty c s in
    elim (Bool-cases (a == c)) [
      | inl h ↦ rw (h, split-append-cons c s t)
      | inr h ↦ rw (h, split-append-cons c s t, e)
    ]

-- Joined pieces that hold no separator split into the same pieces.
pub split-join :
    (c : ℕ) (w : Text) (ws : List Text) → All (Free c) (w ∷ ws) → split c (join c (w ∷ ws)) ≡ w ∷ ws
unfolding join
split-join c w [] h = split_whole c w h.0
split-join c w (v ∷ ws) h =
    split-append c w (join c (v ∷ ws)) h.0 ∙ ap (λ r. w ∷ r) (split-join c v ws h.1)

pub join-split : (c : ℕ) (s : Text) → join c (split c s) ≡ s
unfolding split join
join-split c [] = refl
join-split c (a ∷ s) =
    let (w, ws, e) = split_nonempty c s in
    let ih : join c (w ∷ ws) ≡ s = (rw e at (join-split c s)) in
    elim (Bool-cases (a == c)) [
      | inl h ↦ rw (h, e) (cc (ih, (==_iff a c).0 h))
      | inr h ↦ rw (h, e) (join-cons a w ws ih)
    ]
  where
    join-cons :
        (a : ℕ) (w : Text) (ws : List Text) {t : Text}
        → join c (w ∷ ws) ≡ t
        → join c ((a ∷ w) ∷ ws) ≡ a ∷ t
    join-cons a w [] p = ap (λ r. a ∷ r) p
    join-cons a w (v ∷ ws) p = ap (λ r. a ∷ r) p

pub rsplit_once-eq-none : (c : ℕ) (s : Text) → rsplit_once c s ≡ none → Free c s
unfolding rsplit_once
rsplit_once-eq-none c [] h = refl
rsplit_once-eq-none c (a ∷ s) h = elim (Option-cases (rsplit_once c s)) [
  | inl e ↦ elim (Bool-cases (a == c)) [
    | inl p ↦ cc (rw (e, p) at h)
    | inr p ↦ rw (p, rsplit_once-eq-none c s e)
  ]
  | inr (lr, e) ↦ cc (rw e at h)
]

pub rsplit_once-Free : (c : ℕ) (s : Text) → Free c s → rsplit_once c s ≡ none
unfolding rsplit_once
rsplit_once-Free c [] f = refl
rsplit_once-Free c (a ∷ s) f = elim (Bool-cases (a == c)) [
  | inl p ↦ cc (rw p at f)
  | inr p ↦ rw (rsplit_once-Free c s (rw p at f), p)
]

pub rsplit_once-append : (c : ℕ) (l r : Text) → Free c r → rsplit_once c (l ++ c ∷ r) ≡ some (l, r)
unfolding rsplit_once
rsplit_once-append c [] r f = rw (rsplit_once-Free c r f, ==_refl c)
rsplit_once-append c (a ∷ l) r f = rw (rsplit_once-append c l r f)

pub rsplit_once-eq-some :
    (c : ℕ) (s : Text) {l r : Text} → rsplit_once c s ≡ some (l, r) → (s ≡ l ++ c ∷ r) × Free c r
unfolding rsplit_once
rsplit_once-eq-some c [] h = cc
rsplit_once-eq-some c (a ∷ s) {l} {r} h = elim (Option-cases (rsplit_once c s)) [
  | inl e ↦ elim (Bool-cases (a == c)) [
    | inl p ↦
        let q : some ([], s) ≡ some (l, r) = (rw (e, p) at h) in
        (cc (q, (==_iff a c).0 p), subst (Free c) (cc q) (rsplit_once-eq-none c s e))
    | inr p ↦ cc (rw (e, p) at h)
  ]
  | inr (lr, e) ↦
      let q : some (a ∷ lr.0, lr.1) ≡ some (l, r) = (rw e at h) in
      let (ih, f) = rsplit_once-eq-some c s {l = lr.0} {r = lr.1} e in
      (cc (q, ih), subst (Free c) (cc q) f)
]
