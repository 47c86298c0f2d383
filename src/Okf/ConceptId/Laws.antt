-- ===== src/Okf/ConceptId/Laws.antt =====
-- The round trip between paths and concept ids, and which titles are reserved.
use burlmd.Prelude.{
  unwrap_or, ◌≡◌, refl, sym, ap, ◌∙◌, ◌↔◌, ◌⊎◌, inl, inr, true, false, [], ◌∷◌, ◌++◌, append-nil,
  subst, arith, Bool-cases, Option-cases, any,
}
use burlmd.Prelude.Text.{Text, codes, text_eq, text_eq→eq, strip_prefix, strip_suffix, starts_with}
use burlmd.Prelude.Affixes.{
  strip_prefix-eq-some, strip_prefix-eq-none, strip_suffix-append, strip_suffix-eq-some,
}
use burlmd.Okf.ConceptId.{
  slash, md, reserved_titles, path_to_concept_id, concept_id_to_path, is_reserved_title,
  without_slash,
}

without_slash-relative : (p : Text) → starts_with (slash ∷ []) p ≡ false → without_slash p ≡ p
unfolding without_slash
without_slash-relative p h = rw (strip_prefix-eq-none (slash ∷ []) p h)

starts_with-append_md :
    (id : Text) → starts_with (slash ∷ []) id ≡ false → starts_with (slash ∷ []) (id ++ md) ≡ false
unfolding starts_with
starts_with-append_md [] h = refl
starts_with-append_md (c ∷ id) h = ground arith

-- A concept id without a leading slash comes back from its path, and from the bundle-absolute
-- spelling of that path.
pub concept_id_round_trip :
    (id : Text)
    → starts_with (slash ∷ []) id ≡ false
    → (path_to_concept_id (concept_id_to_path id) ≡ id)
      × (path_to_concept_id (slash ∷ concept_id_to_path id) ≡ id)
unfolding path_to_concept_id concept_id_to_path strip_prefix
concept_id_round_trip id h = (
  rw (without_slash-relative (id ++ md) (starts_with-append_md id h))
      (rw (strip_suffix-append id md)),
  rw (strip_suffix-append id md),
)

-- The four spellings of a name that the reservation reads alike.
pub record Spells (name title : Text) : Type 0 where
  pub before : Text
  pub after : Text
  pub optional_slash : (before ≡ []) ⊎ (before ≡ slash ∷ [])
  pub optional_md : (after ≡ []) ⊎ (after ≡ md)
  pub spelled : title ≡ before ++ (name ++ after)

unwrap_suffix :
    (p : Text)
    → (after : Text) × ((after ≡ []) ⊎ (after ≡ md))
      × (p ≡ unwrap_or (strip_suffix md p) p ++ after)
unwrap_suffix p = elim (Option-cases (strip_suffix md p)) [
  | inl e ↦ ([], inl refl, rw e (sym (append-nil p)))
  | inr (q, e) ↦ (md, inr refl, rw e (strip_suffix-eq-some md p e))
]

unwrap_prefix :
    (p : Text)
    → (before : Text) × ((before ≡ []) ⊎ (before ≡ slash ∷ [])) × (p ≡ before ++ without_slash p)
unfolding without_slash
unwrap_prefix p = elim (Option-cases (strip_prefix (slash ∷ []) p)) [
  | inl e ↦ ([], inl refl, rw e refl)
  | inr (q, e) ↦ (slash ∷ [], inr refl, rw e (strip_prefix-eq-some (slash ∷ []) p e))
]

path_to_concept_id-Spells : (title : Text) → Spells (path_to_concept_id title) title
unfolding path_to_concept_id
path_to_concept_id-Spells title =
    let (before, slashed, e) = unwrap_prefix title in
    let (after, suffixed, f) = unwrap_suffix (without_slash title) in
    record {
      before = before;
      after = after;
      optional_slash = slashed;
      optional_md = suffixed;
      spelled = e ∙ ap (λ r. before ++ r) f;
    }

reserved_cases :
    (id : Text)
    → any (λ t. text_eq t id) reserved_titles ≡ true
    → (id ≡ codes "index") ⊎ (id ≡ codes "log")
reserved_cases id h = elim (Bool-cases (text_eq (codes "index") id)) [
  | inl e ↦ inl (sym (text_eq→eq _ id e))
  | inr e ↦ elim (Bool-cases (text_eq (codes "log") id)) [
    | inl f ↦ inr (sym (text_eq→eq _ id f))
    | inr f ↦ cc (rw (e, f) at h)
  ]
]

spelling_reserved :
    (before name after : Text)
    → (before ≡ []) ⊎ (before ≡ slash ∷ [])
    → (name ≡ codes "index") ⊎ (name ≡ codes "log")
    → (after ≡ []) ⊎ (after ≡ md)
    → is_reserved_title (before ++ (name ++ after)) ≡ true
unfolding is_reserved_title path_to_concept_id strip_prefix strip_suffix text_eq
spelling_reserved before name after (inl b) (inl n) (inl a) = rw (b, n, a)
spelling_reserved before name after (inl b) (inl n) (inr a) = rw (b, n, a)
spelling_reserved before name after (inl b) (inr n) (inl a) = rw (b, n, a)
spelling_reserved before name after (inl b) (inr n) (inr a) = rw (b, n, a)
spelling_reserved before name after (inr b) (inl n) (inl a) = rw (b, n, a)
spelling_reserved before name after (inr b) (inl n) (inr a) = rw (b, n, a)
spelling_reserved before name after (inr b) (inr n) (inl a) = rw (b, n, a)
spelling_reserved before name after (inr b) (inr n) (inr a) = rw (b, n, a)

Spells-reserved :
    (title name : Text)
    → (name ≡ codes "index") ⊎ (name ≡ codes "log")
    → Spells name title
    → is_reserved_title title ≡ true
Spells-reserved title name n s =
    rw s.spelled (spelling_reserved s.before name s.after s.optional_slash n s.optional_md)

-- A title is reserved exactly when it is `index` or `log`, with or without one leading slash and
-- with or without `.md`, in that very case.
pub is_reserved_title_iff :
    (title : Text)
    → (is_reserved_title title ≡ true) ↔ (Spells (codes "index") title ⊎ Spells (codes "log") title)
unfolding is_reserved_title
is_reserved_title_iff title = (
  λ h. elim (reserved_cases (path_to_concept_id title) h) [
    | inl e ↦ inl (subst (λ n. Spells n title) e (path_to_concept_id-Spells title))
    | inr e ↦ inr (subst (λ n. Spells n title) e (path_to_concept_id-Spells title))
  ],
  elim [
    | inl s ↦ Spells-reserved title _ (inl refl) s
    | inr s ↦ Spells-reserved title _ (inr refl) s
  ],
)
