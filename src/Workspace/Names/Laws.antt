-- ===== src/Workspace/Names/Laws.antt =====
-- What the validation of names grants: the concept ids made of them are in normal form.
use burlmd.Prelude.{
  ◌≡◌, refl, sym, ap, ◌∙◌, ◌⊎◌, inl, inr, Bool, true, false, not, ◌||◌, List, [], ◌∷◌, any, All,
  Bool-cases,
}
use burlmd.Prelude.Text.{Text, text_eq, text_eq→eq, text_eq_refl, starts_with, contains}
use burlmd.Prelude.Split.{split, join, join-split, Free, split-Free}
use burlmd.Error.{ok, ok_inj}
use burlmd.Okf.ConceptId.{slash}
use burlmd.Okf.Links.{backslash, dot}
use burlmd.Okf.Links.Resolve.{IsName, IsPath}
use burlmd.Workspace.Names.Trim.{contains-trim_matches, trim_matches_twice}
use burlmd.Workspace.Names.{
  trim_matches, components, is_normal, normalize_trimmed, normalize_directory,
}

any-All : {A : Type 0} (p : A → Bool) (xs : List A) → any p xs ≡ false → All (λ x. p x ≡ false) xs
any-All p [] h = tt
any-All p (x ∷ xs) h = elim (Bool-cases (p x)) [
  | inl e ↦ cc (rw e at h)
  | inr e ↦ (e, any-All p xs (rw e at h))
]

pub dotless_IsName :
    (w : Text) → text_eq w [] ≡ false → starts_with dot w ≡ false → Free slash w → IsName w
unfolding text_eq starts_with
dotless_IsName w nonempty dotless free = record {
  segment = record { not_empty = λ e. cc (rw e at nonempty); no_slash = free };
  not_dot = λ e. cc (rw e at dotless);
  not_dot_dot = λ e. cc (rw e at dotless);
}

-- What the tests of `normalize_directory` have passed.
pub record Normalized (path d : Text) : Type 0 where
  pub no_backslash : contains backslash path ≡ false
  pub no_nul : contains 0 path ≡ false
  pub no_feed : contains 10 path ≡ false
  pub no_return : contains 13 path ≡ false
  pub trimmed : d ≡ trim_matches slash path
  pub segments :
      (d ≡ [])
      ⊎ ((text_eq d [] ≡ false)
          × (any (λ w. text_eq w []) (split slash d) ≡ false)
          × (any (λ c. not (is_normal c)) (components d) ≡ false)
          × (any (starts_with dot) (split slash d) ≡ false))

pub or_false : (a b : Bool) → (a || b) ≡ false → (a ≡ false) × (b ≡ false)
or_false true b h = cc
or_false false b h = (refl, h)

module _ (debug : Text → Text) where
  normalize_trimmed_cases :
      (path t : Text) {d : Text}
      → normalize_trimmed debug path t ≡ ok d
      → (d ≡ t)
        × ((t ≡ [])
            ⊎ ((text_eq t [] ≡ false)
                × (any (λ w. text_eq w []) (split slash t) ≡ false)
                × (any (λ c. not (is_normal c)) (components t) ≡ false)
                × (any (starts_with dot) (split slash t) ≡ false)))
  unfolding normalize_trimmed
  normalize_trimmed_cases path t {d} h = elim (Bool-cases (text_eq t [])) [
    | inl e ↦ let empty = text_eq→eq t [] e in (sym (ok_inj (rw e at h)) ∙ sym empty, inl empty)
    | inr e ↦ elim (Bool-cases (any (λ w. text_eq w []) (split slash t))) [
      | inl f ↦ cc (rw (e, f) at h)
      | inr f ↦ elim (Bool-cases (any (λ c. not (is_normal c)) (components t))) [
        | inl g ↦ cc (rw (e, f, g) at h)
        | inr g ↦ elim (Bool-cases (any (starts_with dot) (split slash t))) [
          | inl k ↦ cc (rw (e, f, g, k) at h)
          | inr k ↦ (sym (ok_inj (rw (e, f, g, k) at h)), inr (e, f, g, k))
        ]
      ]
    ]
  ]

  pub normalize_directory-Normalized :
      (path : Text) {d : Text} → normalize_directory debug path ≡ ok d → Normalized path d
  unfolding normalize_directory
  normalize_directory-Normalized path {d} h = elim (Bool-cases (contains backslash path)) [
    | inl e ↦ cc (rw e at h)
    | inr e ↦ elim (Bool-cases (contains 0 path)) [
      | inl f ↦ cc (rw (e, f) at h)
      | inr f ↦ elim (Bool-cases (contains 10 path || contains 13 path)) [
        | inl g ↦ cc (rw (e, f, g) at h)
        | inr g ↦
            let (same, cases) =
              normalize_trimmed_cases path (trim_matches slash path) {d = d} (rw (e, f, g) at h) in
            record {
              no_backslash = e;
              no_nul = f;
              no_feed = (or_false _ _ g).0;
              no_return = (or_false _ _ g).1;
              trimmed = same;
              segments = rw same cases;
            }
      ]
    ]
  ]

  Normalized-normalize_directory :
      (path : Text) {d : Text} → Normalized path d → normalize_directory debug path ≡ ok d
  unfolding normalize_directory normalize_trimmed
  Normalized-normalize_directory path {d} n =
      rw (n.no_backslash, n.no_nul, n.no_feed, n.no_return, ← n.trimmed)
        (elim n.segments [ inl e ↦ rw (text_eq_empty d e, e) | inr (e, f, g, k) ↦ rw (e, f, g, k) ])
    where
      text_eq_empty : (t : Text) → t ≡ [] → text_eq t [] ≡ true
      text_eq_empty t e = rw e (text_eq_refl [])

-- The segments of a Directory that is not the root are names.
pub Normalized-All : (path d : Text) → Normalized path d → (d ≡ []) ⊎ All IsName (split slash d)
Normalized-All path d n = elim n.segments [
  | inl e ↦ inl e
  | inr (e, f, g, k) ↦
      inr (names (split slash d) (any-All _ _ f) (any-All _ _ k) (split-Free slash d))
]
  where
    names :
        (ws : List Text)
        → All (λ w. text_eq w [] ≡ false) ws
        → All (λ w. starts_with dot w ≡ false) ws
        → All (Free slash) ws
        → All IsName ws
    names [] a b c = tt
    names (w ∷ ws) a b c = (dotless_IsName w a.0 b.0 c.0, names ws a.1 b.1 c.1)

pub split-IsPath : (p : Text) → All IsName (split slash p) → IsPath p
split-IsPath p h = record {
  names = split slash p;
  all_names = h;
  joined = sym (join-split slash p);
}

pub root_IsPath : IsPath []
unfolding join
root_IsPath = record { names = []; all_names = tt; joined = refl }

-- A Directory path that is accepted comes out as a bundle-relative path in normal form, which is
-- accepted unchanged.
pub normalize_directory-IsPath :
    (debug : Text → Text) (path : Text) {d : Text}
    → normalize_directory debug path ≡ ok d
    → IsPath d × (normalize_directory debug d ≡ ok d)
normalize_directory-IsPath debug path {d} h =
    let n = normalize_directory-Normalized debug path {d = d} h in
    (
      elim (Normalized-All path d n) [
        | inl e ↦ rw e root_IsPath
        | inr names ↦ split-IsPath d names
      ],
      Normalized-normalize_directory debug d {d = d} (record {
        no_backslash = rw n.trimmed (contains-trim_matches backslash slash path n.no_backslash);
        no_nul = rw n.trimmed (contains-trim_matches 0 slash path n.no_nul);
        no_feed = rw n.trimmed (contains-trim_matches 10 slash path n.no_feed);
        no_return = rw n.trimmed (contains-trim_matches 13 slash path n.no_return);
        trimmed =
            n.trimmed ∙ sym (ap (trim_matches slash) n.trimmed ∙ trim_matches_twice slash path);
        segments = n.segments;
      }),
    )
