-- ===== src/Workspace/LinksRewrite.antt =====
-- rust/src/workspace/links_rewrite.rs: the destinations of a Note's links when Notes move. The events of
-- the parser (pulldown-cmark, a third-party crate) on the source are an argument, and `decimal` is the
-- `Display` form of a number.
pub mod Targets
pub mod Examples
use mathlib.Core.Option
use burlmd.Prelude.{
  ℕ, zero, suc, ◌+◌, ◌-◌, ◌/◌, ◌%◌, max, Bool, true, false, not, ◌||◌, ◌&&◌, ◌==◌, leb, ltb, Option,
  none, some, is_some, List, [], ◌∷◌, ◌++◌, get_elem?, if◌then◌else◌, ◌>>=◌, unwrap_or,
}
use burlmd.Prelude.Text.{Text, codes, text_eq, starts_with}
use burlmd.Prelude.Bytes.{Range, byte_len, is_char_boundary, slice_to, slice_from}
use burlmd.Error.{AppError, parse_error, Result, ok, err}
use burlmd.Workspace.Destinations.{destination_span}
use burlmd.Okf.ConceptId.{slash, concept_id_to_path}
use burlmd.Okf.Links.{
  LinkTarget, internal, external, classify, resolve_bundle_path, serialize_destination, backslash,
}

pub data Replacement : Type 0 where
  note bundle_path : Text → Replacement

unfoldable pub destination_text : Replacement → Text
destination_text (note concept_id) = serialize_destination (slash ∷ concept_id_to_path concept_id)
destination_text (bundle_path path) = serialize_destination (slash ∷ path)

-- `Display`.
display : Replacement → Text
display (note concept_id) = concept_id
display (bundle_path path) = path

pub data Scan : Type 0 where
  links_only links_and_images : Scan

-- What the parser says at a range of the source.
pub data Event : Type 0 where
  start_link start_image : Text → Event
  end_link end_image other : Event

pub record MatchedLink : Type 0 where
  pub span : Range
  pub text_end : ℕ
  pub new_target : Replacement

pub record OpenLink : Type 0 where
  pub opened : MatchedLink
  pub matches : Bool

-- The top of the stack is the head of the list.
fold_inner : Range → List OpenLink → List OpenLink
fold_inner range [] = []
fold_inner range (top ∷ open_links) =
    if leb top.opened.span.start range.start && leb range.stop top.opened.span.stop
    then record top { opened = record top.opened { text_end = max top.opened.text_end range.stop } }
      ∷ open_links
    else top ∷ open_links

opened_by : Scan → Event → Option Text
opened_by scan (start_link dest) = some dest
opened_by links_and_images (start_image dest) = some dest
opened_by scan event = none

closes : Scan → Event → Bool
closes scan end_link = true
closes links_and_images end_image = true
closes scan event = false

-- The links that have been closed, and those that are open.
pub record Matching : Type 0 where
  pub matched : List MatchedLink
  pub open_links : List OpenLink

close : Matching → Matching
unfolding fold_inner
close m = elim m.open_links [
  | [] ↦ m
  | top ∷ rest ↦ record {
    matched = if top.matches then m.matched ++ top.opened ∷ [] else m.matched;
    open_links = fold_inner top.opened.span rest;
  }
]

module _ (scan : Scan) (select : Text → Option Replacement) where
  unfoldable pub match_event : Event × Range → Matching → Matching
  unfolding opened_by closes close fold_inner
  match_event (event, range) m = elim (opened_by scan event) [
    | some dest ↦
        let new_target = select dest in
        record m {
          open_links =
              record {
                opened = record {
                  span = range;
                  text_end = range.start + 1;
                  new_target = unwrap_or new_target (note []);
                };
                matches = is_some new_target;
              }
              ∷ m.open_links;
        }
    | none ↦
        if closes scan event
        then close m
        else record m { open_links = fold_inner range m.open_links }
  ]

  unfoldable pub match_events : List (Event × Range) → Matching → Matching
  match_events [] m = m
  match_events (e ∷ es) m = match_events es (match_event e m)

  unfoldable pub matching_links : List (Event × Range) → List MatchedLink
  matching_links events = (match_events events (record { matched = []; open_links = [] })).matched

-- A stable sort, with the largest start first.
insert_rewrite : Range × Text → List (Range × Text) → List (Range × Text)
insert_rewrite x [] = x ∷ []
insert_rewrite x (y ∷ ys) =
    let rest = insert_rewrite x ys in if leb y.0.start x.0.start then x ∷ y ∷ ys else y ∷ rest

sort_rewrites : List (Range × Text) → List (Range × Text)
unfolding insert_rewrite
sort_rewrites [] = []
sort_rewrites (x ∷ xs) = insert_rewrite x (sort_rewrites xs)

-- The concept ids that have changed, with what each has become.
abbrev pub Remap : Type 0
Remap = List (Text × Text)

unfoldable pub lookup_remap : Text → Remap → Option Text
lookup_remap id [] = none
lookup_remap id ((old, new) ∷ rest) = if text_eq old id then some new else lookup_remap id rest

unfoldable pub remap_target : Text → Remap → Text → Option Replacement
remap_target containing_dir remap dest = elim (classify dest containing_dir) [
  | internal id ↦ Option.map note (lookup_remap id remap)
  | external d ↦ none
]

unfoldable pub absolute_target : Text → Text → Option Replacement
absolute_target containing_dir dest =
    if starts_with (slash ∷ []) dest then none else (elim (classify dest containing_dir) [
      | internal id ↦ some (note id)
      | external d ↦ Option.map bundle_path (resolve_bundle_path dest containing_dir)
    ])

module _ (decimal : ℕ → Text) where
  not_inline : MatchedLink → AppError
  unfolding display
  not_inline link = parse_error (
      codes "the Link at bytes "
      ++ (decimal link.span.start
          ++ (codes ".."
              ++ (decimal link.span.stop
                  ++ (codes " targets "
                      ++ (display link.new_target
                          ++ codes
                              " but its destination is not written inline, so this operation cannot rewrite it; rewriting the rest would leave the graph partially updated (architecture/risks.md risk 8)"))))))

  unfoldable pub collect_rewrites : Text → List MatchedLink → Result (List (Range × Text))
  unfolding not_inline
  collect_rewrites source [] = ok []
  collect_rewrites source (link ∷ links) = elim (destination_span source link.span link.text_end) [
    | none ↦ err (not_inline link)
    | some destination ↦ elim (collect_rewrites source links) [
      | err e ↦ err e
      | ok rest ↦ ok ((destination, destination_text link.new_target) ∷ rest)
    ]
  ]

  unfoldable pub apply_rewrites : Text → List (Range × Text) → Result Text
  apply_rewrites out [] = ok out
  apply_rewrites out ((span, replacement) ∷ rest) =
      let next =
        apply_rewrites (slice_to out span.start ++ (replacement ++ slice_from out span.stop))
          rest in
      if ltb (byte_len out) span.stop
        || (not (is_char_boundary out span.start) || not (is_char_boundary out span.stop))
      then err (
          parse_error (
            codes "link destination span "
            ++ (decimal span.start
                ++ (codes ".."
                    ++ (decimal span.stop ++ codes " is not addressable in this Note")))))
      else next

  rewrite_collected : Text → List (Range × Text) → Result (Option Text)
  unfolding sort_rewrites
  rewrite_collected source [] = ok none
  rewrite_collected source (x ∷ xs) = elim (apply_rewrites source (sort_rewrites (x ∷ xs))) [
    | err e ↦ err e
    | ok out ↦ ok (some out)
  ]

  unfoldable pub rewrite_destinations :
      Text → Scan → (Text → Option Replacement) → List (Event × Range) → Result (Option Text)
  unfolding rewrite_collected
  rewrite_destinations source scan select events =
      elim (collect_rewrites source (matching_links scan select events)) [
        | err e ↦ err e
        | ok rewrites ↦ rewrite_collected source rewrites
      ]

  unfoldable pub rewrite_link_targets :
      Text → Text → Remap → List (Event × Range) → Result (Option Text)
  rewrite_link_targets source containing_dir [] events = ok none
  rewrite_link_targets source containing_dir (x ∷ xs) events =
      rewrite_destinations source links_only (remap_target containing_dir (x ∷ xs)) events

  unfoldable pub absolutize_relative_links :
      Text → Text → List (Event × Range) → Result (Option Text)
  absolutize_relative_links source containing_dir events =
      rewrite_destinations source links_and_images (absolute_target containing_dir) events
