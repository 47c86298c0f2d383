-- ===== src/Workspace/LinksRewrite/Targets.antt =====
-- What the rewriting does to a link's target, and that no matched link is passed over.
use mathlib.Core.Option
use burlmd.Prelude.{
  ℕ, ◌≡◌, refl, ap, ◌∙◌, ◌≢◌, ◌↔◌, inl, inr, Option, none, some, List, [], ◌∷◌, ◌++◌, Bool-cases,
  Option-cases,
}
use burlmd.Prelude.Text.{Text, starts_with}
use burlmd.Prelude.Bytes.{Range}
use burlmd.Error.{Result, ok, err}
use burlmd.Okf.ConceptId.{slash, concept_id_to_path}
use burlmd.Okf.Links.{
  LinkTarget, internal, external, classify, resolve_bundle_path, escape_destination,
  serialize_destination,
}
use burlmd.Okf.Links.Classify.{IsDirectory, classify-IsPath}
use burlmd.Okf.Links.Escape.{destination_syntax, Reader, classify-written_destination}
use burlmd.Workspace.Destinations.{destination_span}
use burlmd.Workspace.LinksRewrite.{
  Replacement, note, bundle_path, destination_text, Scan, Event, MatchedLink, matching_links,
  collect_rewrites, rewrite_collected, apply_rewrites, sort_rewrites, rewrite_destinations,
  absolute_target,
}

absolute_target-internal :
    (dir dest id : Text)
    → absolute_target dir dest ≡ some (note id)
    → classify dest dir ≡ internal id
unfolding absolute_target
absolute_target-internal dir dest id h = elim (Bool-cases (starts_with (slash ∷ []) dest)) [
  | inl e ↦ cc (rw e at h)
  | inr e ↦ by_target (classify dest dir) refl (rw (e, absolute_target) at h)
]
  where
    by_target :
        (t : LinkTarget)
        → classify dest dir ≡ t
        → (elim t [
          | internal id ↦ some (note id)
          | external d ↦ Option.map bundle_path (resolve_bundle_path dest dir)
        ])
          ≡ some (note id)
        → classify dest dir ≡ internal id
    by_target (internal i) e k = cc
    by_target (external d) e k = elim (Option-cases (resolve_bundle_path dest dir)) [
      | inl n ↦ cc (rw n at k)
      | inr (p, n) ↦ cc (rw n at k)
    ]

-- When a Note moves, a relative link of it to another Note is written as an angle-bracketed
-- destination that a reader of backslash escapes reads as a link to the same Note as before, from
-- whatever directory the Note has moved to; that Note is not the bundle's root.
pub absolute_target_kept :
    (r : Reader destination_syntax) (dir dest id moved : Text)
    → IsDirectory dir
    → absolute_target dir dest ≡ some (note id)
    → id ≢ []
    → (classify dest dir ≡ internal id)
      × ((inside : Text) × (destination_text (note id) ≡ b'<' ∷ (inside ++ b'>' ∷ []))
          × (classify (r.unescape inside) moved ≡ internal id))
unfolding destination_text serialize_destination
absolute_target_kept r dir dest id moved h e ne =
    let same = absolute_target-internal dir dest id e in
    (
      same,
      (
        escape_destination (slash ∷ concept_id_to_path id),
        refl,
        classify-written_destination r id moved (classify-IsPath dest dir {id = id} h same) ne,
      ),
    )

module _ (decimal : ℕ → Text) where
  collect_rewrites-nil :
      (source : Text) (links : List MatchedLink)
      → collect_rewrites decimal source links ≡ ok []
      → links ≡ []
  unfolding collect_rewrites
  collect_rewrites-nil source [] h = refl
  collect_rewrites-nil source (link ∷ links) h =
      elim (Option-cases (destination_span source link.span link.text_end)) [
        | inl e ↦ cc (rw (e, collect_rewrites) at h)
        | inr (d, e) ↦
            by_rest (d, destination_text link.new_target) (collect_rewrites decimal source links)
              (rw (e, collect_rewrites) at h)
      ]
    where
      by_rest :
          (y : Range × Text) (x : Result (List (Range × Text)))
          → (elim x [ err e ↦ err e | ok rest ↦ ok (y ∷ rest) ]) ≡ ok []
          → link ∷ links ≡ []
      by_rest y (ok rest) k = cc
      by_rest y (err e) k = cc

  rewrite_collected-none :
      (source : Text) (rewrites : List (Range × Text))
      → rewrite_collected decimal source rewrites ≡ ok none
      → rewrites ≡ []
  unfolding rewrite_collected
  rewrite_collected-none source [] h = refl
  rewrite_collected-none source (x ∷ xs) h =
      by_result (apply_rewrites decimal source (sort_rewrites (x ∷ xs))) h
    where
      by_result :
          (a : Result Text)
          → (elim a [ err e ↦ err e | ok out ↦ ok (some out) ]) ≡ ok none
          → x ∷ xs ≡ []
      by_result (ok out) k = cc
      by_result (err e) k = cc

  -- The rewriting leaves a Note alone exactly if no link of it matches: with a link that matches, it
  -- rewrites or it fails.
  pub rewrite_destinations-none_iff :
      (source : Text) (scan : Scan) (select : Text → Option Replacement)
      (events : List (Event × Range))
      → (rewrite_destinations decimal source scan select events ≡ ok none)
        ↔ (matching_links scan select events ≡ [])
  unfolding rewrite_destinations collect_rewrites rewrite_collected
  rewrite_destinations-none_iff source scan select events = (
    λ h.
        by_collected (matching_links scan select events)
          (collect_rewrites decimal source (matching_links scan select events)) refl h,
    λ e. ap by_links e,
  )
    where
      by_links : List MatchedLink → Result (Option Text)
      by_links links = elim (collect_rewrites decimal source links) [
        | err e ↦ err e
        | ok rewrites ↦ rewrite_collected decimal source rewrites
      ]

      by_collected :
          (links : List MatchedLink) (x : Result (List (Range × Text)))
          → collect_rewrites decimal source links ≡ x
          → (elim x [ err e ↦ err e | ok rewrites ↦ rewrite_collected decimal source rewrites ])
            ≡ ok none
          → links ≡ []
      by_collected links (err e) c k = cc
      by_collected links (ok rewrites) c k =
          collect_rewrites-nil source links (c ∙ ap ok (rewrite_collected-none source rewrites k))
