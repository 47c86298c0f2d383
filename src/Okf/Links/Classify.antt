-- ===== src/Okf/Links/Classify.antt =====
-- `classify`: the concept ids it reports, and the spellings of one destination.
use burlmd.Prelude.{
  unwrap_or, ◌≡◌, refl, sym, ap, ◌∙◌, subst, ◌≢◌, ◌↔◌, inl, inr, true, false, Option, none, some,
  List, [], ◌∷◌, ◌++◌, arith, Bool-cases, Option-cases, All, All-append_right, All-map,
}
use burlmd.Prelude.Text.{
  Text, text_eq, text_eq→eq, starts_with, ends_with, strip_prefix, strip_suffix,
}
use burlmd.Prelude.Affixes.{strip_prefix-eq-none, strip_suffix-append, ends_with-append}
use burlmd.Prelude.Split.{
  split, join, Free, split-join, split-append-cons, rsplit_once, rsplit_once-eq-some,
}
use burlmd.Okf.ConceptId.{slash, md, concept_id_to_path}
use burlmd.Okf.Links.{
  internal, has_url_scheme, non_empty, resolve_relative, last_segment, resolved, base_and_relative,
  classify,
}
use burlmd.Okf.Links.Resolve.{IsName, IsPath, resolve_path-IsPath, resolve_path-normalized}

-- Every segment of a directory is a name; so of the directories that hold Notes.
abbrev pub IsDirectory : Text → Type 0
IsDirectory dir = All IsName (non_empty (split slash dir))

resolve_relative-normalized :
    (dir dest : Text) {id : Text}
    → IsDirectory dir
    → resolve_relative dir dest ≡ some id
    → IsPath id
unfolding resolve_relative
resolve_relative-normalized dir dest {id} h e =
    let stem = unwrap_or (strip_suffix md dest) dest in
    elim (Bool-cases (text_eq (last_segment stem) [])) [
      | inl p ↦ cc (rw p at e)
      | inr p ↦ resolve_path-normalized dir stem h (rw p at e)
    ]

root_IsDirectory : IsDirectory []
unfolding split non_empty
root_IsDirectory = tt

-- What a destination classified as internal was resolved from.
record Internal (dest dir id : Text) : Type 0 where
  no_scheme : has_url_scheme dest ≡ false
  note : ends_with md dest ≡ true
  from : resolve_relative (base_and_relative dest dir).0 (base_and_relative dest dir).1 ≡ some id

classify-Internal :
    (dest dir : Text) {id : Text} → classify dest dir ≡ internal id → Internal dest dir id
unfolding classify
classify-Internal dest dir {id} e = elim (Bool-cases (has_url_scheme dest)) [
  | inl s ↦ cc (rw s at e)
  | inr s ↦ elim (Bool-cases (ends_with md dest)) [
    | inl m ↦ record {
      no_scheme = s;
      note = m;
      from =
          let (base, relative) = base_and_relative dest dir in
          is_resolved (resolve_relative base relative) (rw (s, m) at e);
    }
    | inr m ↦ cc (rw (s, m) at e)
  ]
]
  where
    is_resolved : (o : Option Text) → resolved dest o ≡ internal id → o ≡ some id
    is_resolved none p = cc
    is_resolved (some q) p = cc

Internal-classify :
    (dest dir : Text) {id : Text} → Internal dest dir id → classify dest dir ≡ internal id
unfolding classify
Internal-classify dest dir h = rw (h.no_scheme, h.note, h.from)

-- From a well-formed directory, every concept id that `classify` reports is a bundle-relative path
-- in normal form: no empty segment, no `.`, no `..`, no slash at either end.
pub classify-IsPath :
    (dest dir : Text) {id : Text} → IsDirectory dir → classify dest dir ≡ internal id → IsPath id
unfolding base_and_relative
classify-IsPath dest dir h e =
    let i = classify-Internal dest dir e in
    elim (Option-cases (strip_prefix (slash ∷ []) dest)) [
      | inl n ↦ resolve_relative-normalized dir dest h (rw (n, base_and_relative) at i.from)
      | inr (r, s) ↦
          resolve_relative-normalized [] r root_IsDirectory (rw (s, base_and_relative) at i.from)
    ]

no_scheme-slash : (d : Text) → has_url_scheme (slash ∷ d) ≡ false
unfolding has_url_scheme
no_scheme-slash d = ground arith

-- The bundle-absolute and the root-relative spelling of one destination, which has neither a leading
-- slash nor a scheme, agree, wherever the first is read.
pub classify_absolute_iff :
    (d dir : Text) (id : Text)
    → starts_with (slash ∷ []) d ≡ false
    → has_url_scheme d ≡ false
    → (classify (slash ∷ d) dir ≡ internal id) ↔ (classify d [] ≡ internal id)
unfolding base_and_relative strip_prefix
classify_absolute_iff d dir id rel plain =
    let here = strip_prefix-eq-none (slash ∷ []) d rel in
    (
      λ e.
          let i = classify-Internal (slash ∷ d) dir e in
          Internal-classify d [] (record {
            no_scheme = plain;
            note = unfold ends_with text_eq in i.note;
            from = rw (here, base_and_relative) i.from;
          }),
      λ e.
          let i = classify-Internal d [] e in
          Internal-classify (slash ∷ d) dir (record {
            no_scheme = no_scheme-slash d;
            note = unfold ends_with text_eq in i.note;
            from = (rw (here, base_and_relative) at i.from);
          }),
    )

path_without_trailing_slash : (p : Text) → IsPath p → p ≢ [] → last_segment p ≢ []
unfolding last_segment
path_without_trailing_slash p h ne e = elim (Option-cases (rsplit_once slash p)) [
  | inl n ↦ ne (rw (n, last_segment) at e)
  | inr (lr, s) ↦
      let empty : lr.1 ≡ [] = (rw (s, last_segment) at e) in
      let ends : p ≡ lr.0 ++ slash ∷ [] =
        (rsplit_once-eq-some slash p {l = lr.0} {r = lr.1} s).0
        ∙ ap (λ r. lr.0 ++ slash ∷ r) empty in
      trailing lr.0 h.names h.all_names (ap (split slash) (sym h.joined ∙ ends))
        (λ n. ne (h.joined ∙ n))
]
  where
    trailing :
        (l : Text) (ws : List Text)
        → All IsName ws
        → split slash (join slash ws) ≡ split slash (l ++ slash ∷ [])
        → join slash ws ≢ []
        → ⊥
    trailing l [] all q n = n (unfold join in refl)
    trailing l (w ∷ ws) all q n =
        let pieces : w ∷ ws ≡ split slash l ++ [] ∷ [] =
          sym (
            split-join slash w ws
              (All-map IsName (Free slash) (w ∷ ws) (λ v s. s.segment.no_slash) all))
          ∙ q
          ∙ split-append-cons slash l []
          ∙ unfold split in refl in
        (All-append_right IsName (split slash l) ([] ∷ [])
            (subst (All IsName) pieces all)).0.segment.not_empty
          refl

resolve_relative-IsPath :
    (id : Text) → IsPath id → id ≢ [] → resolve_relative [] (id ++ md) ≡ some id
unfolding resolve_relative
resolve_relative-IsPath id h ne =
    rw (strip_suffix-append id md) (elim (Bool-cases (text_eq (last_segment id) [])) [
      | inl p ↦ absurd (path_without_trailing_slash id h ne (text_eq→eq _ _ p))
      | inr p ↦ rw p (resolve_path-IsPath id h)
    ])

-- A concept id in normal form is what its bundle-absolute destination classifies to, from any
-- directory.
pub classify-concept_id :
    (id dir : Text)
    → IsPath id
    → id ≢ []
    → classify (slash ∷ concept_id_to_path id) dir ≡ internal id
unfolding concept_id_to_path
classify-concept_id id dir h ne = Internal-classify _ dir (record {
  no_scheme = no_scheme-slash (id ++ md);
  note = ends_with-append (slash ∷ id) md;
  from = unfold base_and_relative strip_prefix in (resolve_relative-IsPath id h ne);
})
