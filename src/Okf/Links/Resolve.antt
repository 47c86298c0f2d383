-- ===== src/Okf/Links/Resolve.antt =====
-- `resolve_path`: what it returns is normalized, and it goes along a path one part at a time.
use mathlib.Core.List.{reverse, reverse-append, reverse-reverse}
use mathlib.Core.Option
use burlmd.Prelude.{
  ◌≡◌, refl, ap, subst, ◌≢◌, inl, inr, false, some, List, [], ◌∷◌, ◌++◌, append_assoc, append-nil,
  arith, ◌>>=◌, >>=-eq-some, Bool-cases, Option-cases, All, All-append, All-map,
}
use burlmd.Prelude.Text.{Text, text_eq, text_eq→eq, text_eq_iff}
use burlmd.Prelude.Split.{split, join, Free, split-Free, split-join, split-append-cons}
use burlmd.Okf.ConceptId.{slash}
use burlmd.Okf.Links.{non_empty, dot, dot_dot, pop, apply_segment, apply_segments, resolve_path}

-- A piece between two slashes that is not empty.
pub record IsSegment (w : Text) : Type 0 where
  pub not_empty : w ≢ []
  pub no_slash : Free slash w

-- A piece that names a file or a directory, and is not a step to here or to the parent.
pub record IsName (w : Text) : Type 0 where
  pub segment : IsSegment w
  pub not_dot : w ≢ dot
  pub not_dot_dot : w ≢ dot_dot

pub IsName-IsSegment : (w : Text) → IsName w → IsSegment w
IsName-IsSegment w h = h.segment

All-reverse {κ} : (P : Text → Type κ) (ws : List Text) → All P ws → All P (reverse ws)
All-reverse P [] h = h
All-reverse P (w ∷ ws) h =
    rw (reverse-append (w ∷ []) ws)
      (All-append P (reverse ws) (w ∷ []) (All-reverse P ws h.1) (h.0, tt))

pub non_empty-IsSegment : (ws : List Text) → All (Free slash) ws → All IsSegment (non_empty ws)
unfolding non_empty
non_empty-IsSegment [] h = tt
non_empty-IsSegment ([] ∷ ws) h = non_empty-IsSegment ws h.1
non_empty-IsSegment ((c ∷ w) ∷ ws) h =
    (record { not_empty = λ e. cc; no_slash = h.0 }, non_empty-IsSegment ws h.1)

non_empty_segments : (ws : List Text) → All IsSegment ws → non_empty ws ≡ ws
unfolding non_empty
non_empty_segments [] h = refl
non_empty_segments ([] ∷ ws) h = absurd (h.0.not_empty refl)
non_empty_segments ((c ∷ w) ∷ ws) h = ap (λ r. (c ∷ w) ∷ r) (non_empty_segments ws h.1)

-- The segments of a path that is a join of segments.
pub non_empty-split-join :
    (ws : List Text) → All IsSegment ws → non_empty (split slash (join slash ws)) ≡ ws
unfolding non_empty join split
non_empty-split-join [] h = refl
non_empty-split-join (w ∷ ws) h =
    rw (split-join slash w ws (All-map IsSegment (Free slash) (w ∷ ws) (λ v s. s.no_slash) h))
      (non_empty_segments (w ∷ ws) h)

apply_segments-append :
    (xs ys stack : List Text)
    → apply_segments (xs ++ ys) stack ≡ (apply_segments xs stack >>= apply_segments ys)
unfolding apply_segments
apply_segments-append [] ys stack = refl
apply_segments-append (x ∷ xs) ys stack = elim (Option-cases (apply_segment x stack)) [
  | inl e ↦ rw e
  | inr (s, e) ↦ rw e (apply_segments-append xs ys s)
]

module _ (P : Text → Type 0)
    (keep : (w : Text) → Free slash w → w ≢ [] → w ≢ dot → w ≢ dot_dot → P w) where
  apply_segment-All :
      (w : Text) (stack : List Text) {out : List Text}
      → Free slash w
      → All P stack
      → apply_segment w stack ≡ some out
      → All P out
  unfolding apply_segment
  apply_segment-All w stack {out} f h e = elim (Bool-cases (text_eq w [])) [
    | inl p ↦ subst (All P) (ground arith) h
    | inr p ↦ elim (Bool-cases (text_eq w dot)) [
      | inl q ↦ subst (All P) (ground arith) h
      | inr q ↦ elim (Bool-cases (text_eq w dot_dot)) [
        | inl r ↦ popped stack h (rw (p, q, r) at e)
        | inr r ↦
            subst (All P) (pushed (rw (p, q, r) at e))
              (keep w f (ne w [] p) (ne w dot q) (ne w dot_dot r), h)
      ]
    ]
  ]
    where
      ne : (w v : Text) → text_eq w v ≡ false → w ≢ v
      ne w v p eq = cc ((text_eq_iff w v).1 eq)

      pushed : {t : List Text} → some (w ∷ stack) ≡ some t → w ∷ stack ≡ t
      pushed eq = cc

      popped : (s : List Text) {t : List Text} → All P s → pop s ≡ some t → All P t
      popped [] hs eq = cc
      popped (v ∷ vs) hs eq = subst (All P) (cc) hs.1

  apply_segments-All :
      (ws stack : List Text) {out : List Text}
      → All (Free slash) ws
      → All P stack
      → apply_segments ws stack ≡ some out
      → All P out
  unfolding apply_segments
  apply_segments-All [] stack f h e = subst (All P) (cc) h
  apply_segments-All (w ∷ ws) stack f h e =
      let (s, es, rest) = >>=-eq-some (apply_segment w stack) (apply_segments ws) e in
      apply_segments-All ws s f.1 (apply_segment-All w stack f.0 h es) rest

base_stack : Text → List Text
base_stack dir = reverse (non_empty (split slash dir))

base_stack-IsSegment : (dir : Text) → All IsSegment (base_stack dir)
unfolding base_stack
base_stack-IsSegment dir =
    All-reverse IsSegment _ (non_empty-IsSegment (split slash dir) (split-Free slash dir))

-- Resolving `a/b` is resolving `a` and then `b` from there; a climb above the root in either part
-- makes the whole unresolvable.
pub resolve_path-append :
    (dir a b : Text)
    → resolve_path dir (a ++ slash ∷ b) ≡ (resolve_path dir a >>= λ p. resolve_path p b)
unfolding resolve_path
resolve_path-append dir a b =
    rw (split-append-cons slash a b, apply_segments-append (split slash a) (split slash b))
      (elim (Option-cases (apply_segments (split slash a) (base_stack dir))) [
        | inl e ↦ unfold base_stack in rw e
        | inr (st, e) ↦
            let segments =
              apply_segments-All IsSegment (λ w f n _ _. record { not_empty = n; no_slash = f })
                (split slash a) (base_stack dir) (split-Free slash a) (base_stack-IsSegment dir)
                e in
            unfold base_stack in
            rw e (
              rw (
                non_empty-split-join (reverse st) (All-reverse IsSegment st segments),
                reverse-reverse st,
              ))
      ])

-- A bundle-relative path in the one form that the index stores.
pub record IsPath (p : Text) : Type 0 where
  pub names : List Text
  pub all_names : All IsName names
  pub joined : p ≡ join slash names

apply_segment-IsName :
    (w : Text) (stack : List Text) → IsName w → apply_segment w stack ≡ some (w ∷ stack)
unfolding apply_segment
apply_segment-IsName w stack h = elim (Bool-cases (text_eq w [])) [
  | inl p ↦ absurd (h.segment.not_empty (text_eq→eq w [] p))
  | inr p ↦ elim (Bool-cases (text_eq w dot)) [
    | inl q ↦ absurd (h.not_dot (text_eq→eq w dot q))
    | inr q ↦ elim (Bool-cases (text_eq w dot_dot)) [
      | inl r ↦ absurd (h.not_dot_dot (text_eq→eq w dot_dot r))
      | inr r ↦ rw (p, q, r)
    ]
  ]
]

apply_segments-names :
    (ws stack : List Text) → All IsName ws → apply_segments ws stack ≡ some (reverse ws ++ stack)
unfolding apply_segments
apply_segments-names [] stack h = refl
apply_segments-names (w ∷ ws) stack h = rw (
  apply_segment-IsName w stack h.0,
  apply_segments-names ws (w ∷ stack) h.1,
  reverse-append (w ∷ []) ws,
  append_assoc,
)

-- A path in that form resolves to itself from the bundle root.
pub resolve_path-IsPath : (p : Text) → IsPath p → resolve_path [] p ≡ some p
unfolding resolve_path text_eq
resolve_path-IsPath p h = rw h.joined (from_root h.names h.all_names)
  where
    from_root :
        (ws : List Text)
        → All IsName ws
        → Option.map
            (λ stack. join slash (reverse stack))
            (apply_segments (split slash (join slash ws)) (reverse (non_empty (split slash []))))
          ≡ some (join slash ws)
    from_root [] all = unfold apply_segments apply_segment split join non_empty in refl
    from_root (w ∷ ws) all =
        rw
          (
            split-join slash w ws
                (All-map IsName (Free slash) (w ∷ ws) (λ v s. s.segment.no_slash) all),
            apply_segments-names (w ∷ ws) _ all,
          )
          (unfold split non_empty in rw (append-nil, reverse-reverse (w ∷ ws)))

-- From a directory whose segments are names, whatever is written, what resolves is a path in normal
-- form.
pub resolve_path-normalized :
    (dir dest : Text) {p : Text}
    → All IsName (non_empty (split slash dir))
    → resolve_path dir dest ≡ some p
    → IsPath p
unfolding resolve_path base_stack
resolve_path-normalized dir dest {p} h e =
    elim (Option-cases (apply_segments (split slash dest) (base_stack dir))) [
      | inl n ↦ cc (rw n at e)
      | inr (st, s) ↦ record {
        names = reverse st;
        all_names = All-reverse IsName st (
            apply_segments-All IsName
              (λ w f n d dd. record {
                segment = record { not_empty = n; no_slash = f };
                not_dot = d;
                not_dot_dot = dd;
              })
              (split slash dest) (base_stack dir) (split-Free slash dest) (All-reverse IsName _ h)
              s);
        joined = cc (rw s at e);
      }
    ]
