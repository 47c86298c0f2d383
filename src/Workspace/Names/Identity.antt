-- ===== src/Workspace/Names/Identity.antt =====
-- The concept id made of an accepted Directory and an accepted title.
use burlmd.Prelude.{
  ◌≡◌, refl, sym, ap, ◌∙◌, ◌≢◌, ◌↔◌, ◌⊎◌, inl, inr, Bool, true, false, not, ◌||◌, [], ◌∷◌, ◌++◌,
  all, All, All-append, if◌then◌else◌, Bool-cases, Option-cases, subst,
}
use burlmd.Prelude.Text.{Text, codes, text_eq, text_eq→eq, text_eq_refl, starts_with, contains}
use burlmd.Prelude.Split.{
  split, rsplit_once, rsplit_once-append, rsplit_once-Free, split-append-cons, split_whole,
}
use burlmd.Error.{path_unavailable, Result, ok, err, ◌>>=◌, >>=-eq-ok, ok_inj}
use burlmd.Okf.ConceptId.{slash, concept_id_to_path}
use burlmd.Okf.Links.{backslash, dot, classify, internal}
use burlmd.Okf.Links.Resolve.{IsName, IsPath}
use burlmd.Okf.Links.Classify.{classify-concept_id}
use burlmd.Workspace.Names.{
  join_id, LinkTargetIdentity, is_whitespace, validate_segment, validate_title, trim_matches,
  normalize_directory, link_target_identity, validate_persisted_directory_id,
}
use burlmd.Workspace.Names.Laws.{
  Normalized-All, split-IsPath, dotless_IsName, or_false, normalize_directory-Normalized,
  normalize_directory-IsPath,
}

not_blank : (s : Text) → all is_whitespace s ≡ false → text_eq s [] ≡ false
unfolding text_eq
not_blank [] h = cc
not_blank (c ∷ s) h = refl

unless_ok :
    {A : Type 0} (test : Bool) {e : Result A} {a b : A}
    → (if test then e else ok a) ≡ ok b
    → ((x : A) → e ≢ ok x)
    → (test ≡ false) × (a ≡ b)
unless_ok true h n = absurd (n _ h)
unless_ok false h n = (refl, ok_inj h)

join_id-IsPath :
    (d t : Text)
    → (d ≡ []) ⊎ All IsName (split slash d)
    → IsName t
    → IsPath (join_id d t) × (join_id d t ≢ [])
unfolding join_id text_eq
join_id-IsPath [] t h name = (
  split-IsPath t (rw (split_whole slash t name.segment.no_slash) (name, tt)),
  name.segment.not_empty,
)
join_id-IsPath (c ∷ d) t (inl e) name = cc
join_id-IsPath (c ∷ d) t (inr names) name =
    let pieces : split slash ((c ∷ d) ++ slash ∷ t) ≡ split slash (c ∷ d) ++ t ∷ [] =
      split-append-cons slash (c ∷ d) t
      ∙ ap (λ ws. split slash (c ∷ d) ++ ws) (split_whole slash t name.segment.no_slash) in
    (
      split-IsPath _
          (rw pieces (All-append IsName (split slash (c ∷ d)) (t ∷ []) names (name, tt))),
      λ e. cc,
    )

module _ (debug : Text → Text) where
  validate_segment-IsName : (s : Text) {u : Unit {0}} → validate_segment debug s ≡ ok u → IsName s
  unfolding validate_segment
  validate_segment-IsName s {u} h = elim (Bool-cases (all is_whitespace s)) [
    | inl e ↦ cc (rw e at h)
    | inr e ↦ elim (Bool-cases (starts_with dot s)) [
      | inl f ↦ cc (rw (e, f) at h)
      | inr f ↦ elim (Bool-cases (contains slash s || (contains backslash s || contains 0 s))) [
        | inl g ↦ cc (rw (e, f, g) at h)
        | inr g ↦ dotless_IsName s (not_blank s e) f (or_false _ _ g).0
      ]
    ]
  ]

  validate_title-IsName : (t : Text) {u : Unit {0}} → validate_title debug t ≡ ok u → IsName t
  unfolding validate_title
  validate_title-IsName t {u} h =
      let (a, f, e) = >>=-eq-ok _ (validate_segment debug t) h in
      validate_segment-IsName t {u = a} e

  at_root :
      (t : Text)
      → validate_title debug t ≡ ok tt
      → link_target_identity debug t ≡ ok (record { target_id = t; directory_path = []; title = t })
  unfolding link_target_identity
  at_root t valid = rw (
    rsplit_once-Free slash t (validate_title-IsName t {u = tt} valid).segment.no_slash,
    link_target_identity,
    valid,
  )

  below :
      (d t : Text)
      → normalize_directory debug d ≡ ok d
      → validate_title debug t ≡ ok tt
      → join_id d t ≡ d ++ slash ∷ t
      → link_target_identity debug (d ++ slash ∷ t)
        ≡ ok (record { target_id = d ++ slash ∷ t; directory_path = d; title = t })
  unfolding link_target_identity
  below d t normal valid joined = rw (
    rsplit_once-append slash d t (validate_title-IsName t {u = tt} valid).segment.no_slash,
    link_target_identity,
    normal,
    valid,
    joined,
    text_eq_refl (d ++ slash ∷ t),
  )

  made_of :
      (d t : Text)
      → normalize_directory debug d ≡ ok d
      → validate_title debug t ≡ ok tt
      → link_target_identity debug (join_id d t)
        ≡ ok (record { target_id = join_id d t; directory_path = d; title = t })
  unfolding join_id text_eq
  made_of [] t normal valid = at_root t valid
  made_of (c ∷ d) t normal valid = below (c ∷ d) t normal valid (unfold join_id in refl)

  -- A Note made under an accepted title in an accepted Directory has an identity that is exact: its
  -- concept id is read as that very Directory and title, and the bundle-absolute link written for it
  -- is classified, from any directory, as internal under that concept id.
  pub join_id-identity :
      (path title from : Text) {d : Text}
      → normalize_directory debug path ≡ ok d
      → validate_title debug title ≡ ok tt
      → (link_target_identity debug (join_id d title)
          ≡ ok (record { target_id = join_id d title; directory_path = d; title = title }))
        × (classify (slash ∷ concept_id_to_path (join_id d title)) from
            ≡ internal (join_id d title))
  join_id-identity path title from {d} normal valid =
      let (path_form, again) = normalize_directory-IsPath debug path {d = d} normal in
      let (id_form, nonempty) =
        join_id-IsPath d title
          (Normalized-All path d (normalize_directory-Normalized debug path {d = d} normal))
          (validate_title-IsName title {u = tt} valid) in
      (made_of d title again valid, classify-concept_id (join_id d title) from id_form nonempty)

  abbrev pub IsIdentity : Text → LinkTargetIdentity → Type 0
  IsIdentity target_id r =
      (r.target_id ≡ target_id)
      × (join_id r.directory_path r.title ≡ target_id)
      × (normalize_directory debug r.directory_path ≡ ok r.directory_path)
      × (validate_title debug r.title ≡ ok tt)

  root_normal : normalize_directory debug [] ≡ ok []
  unfolding normalize_directory trim_matches text_eq
  root_normal = refl

  from_root :
      (id : Text) {r : LinkTargetIdentity}
      → (validate_title debug id >>= λ _.
          ok (record { target_id = id; directory_path = []; title = id }))
        ≡ ok r
      → IsIdentity id r
  unfolding join_id text_eq
  from_root id {r} h =
      let (u, same, valid) = >>=-eq-ok _ (validate_title debug id) h in
      subst (IsIdentity id) (ok_inj same) (refl, refl, root_normal, valid)

  from_directory :
      (id l t : Text) {r : LinkTargetIdentity}
      → (normalize_directory debug l >>= λ d. validate_title debug t >>= λ _.
          if not (text_eq (join_id d t) id)
          then err
              (path_unavailable (id ++ codes " is not an exact, bundle-relative Link target id"))
          else ok (record { target_id = id; directory_path = d; title = t }))
        ≡ ok r
      → IsIdentity id r
  from_directory id l t {r} h =
      let (d, h', normal) = >>=-eq-ok _ (normalize_directory debug l) h in
      let (u, h'', valid) = >>=-eq-ok _ (validate_title debug t) h' in
      let (exact, same) = unless_ok (not (text_eq (join_id d t) id)) h'' (λ x e. cc) in
      subst (IsIdentity id) same (
        refl,
        text_eq→eq _ _ (not_false _ exact),
        (normalize_directory-IsPath debug l {d = d} normal).1,
        valid,
      )
    where
      not_false : (b : Bool) → not b ≡ false → b ≡ true
      not_false true e = refl
      not_false false e = cc

  IsIdentity-made_of :
      (id : Text) (r : LinkTargetIdentity) → IsIdentity id r → link_target_identity debug id ≡ ok r
  IsIdentity-made_of id r (same, joined, normal, valid) =
      rw (← joined) (made_of r.directory_path r.title normal valid)
      ∙ ap ok (λ i. record {
        target_id = (joined ∙ sym same) i;
        directory_path = r.directory_path;
        title = r.title;
      })

  -- A stored link's target is accepted exactly if it is exact: it is the concept id of an accepted
  -- title in a Directory path that is accepted unchanged, and these are what comes back.
  pub link_target_identity_iff :
      (id : Text) (r : LinkTargetIdentity)
      → (link_target_identity debug id ≡ ok r) ↔ IsIdentity id r
  unfolding link_target_identity
  link_target_identity_iff id r = (
    λ h. elim (Option-cases (rsplit_once slash id)) [
      | inl e ↦ from_root id {r = r} (rw (e, link_target_identity) at h)
      | inr (lt, e) ↦ from_directory id lt.0 lt.1 {r = r} (rw (e, link_target_identity) at h)
    ],
    IsIdentity-made_of id r,
  )

  -- An identity of a Directory is accepted from a saved session exactly if it is not the root's and
  -- is accepted unchanged.
  pub validate_persisted_directory_id_iff :
      (path : Text)
      → (validate_persisted_directory_id debug path ≡ ok tt)
        ↔ ((path ≢ []) × (normalize_directory debug path ≡ ok path))
  unfolding validate_persisted_directory_id
  validate_persisted_directory_id_iff path = (
    λ h. elim (Bool-cases (text_eq path [])) [
      | inl e ↦ cc (rw e at h)
      | inr e ↦
          let (d, h', normal) = >>=-eq-ok _ (normalize_directory debug path) (rw e at h) in
          let (exact, _) = unless_ok (not (text_eq d path)) {a = tt} h' (λ x e. cc) in
          let same : d ≡ path = text_eq→eq d path (not_false _ exact) in
          (λ empty. cc (rw (empty, text_eq) at e), rw same at normal)
    ],
    λ (some_text, normal). rw (not_empty path some_text, normal, text_eq_refl path),
  )
    where
      not_false : (b : Bool) → not b ≡ false → b ≡ true
      not_false true e = refl
      not_false false e = cc

      not_empty : (t : Text) → t ≢ [] → text_eq t [] ≡ false
      not_empty [] n = absurd (n refl)
      not_empty (c ∷ t) n = unfold text_eq in refl
