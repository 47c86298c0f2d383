-- ===== src/Workspace/LinksRewrite/Examples.antt =====
-- The model of rust/src/workspace/links_rewrite.rs run on examples.
use burlmd.Prelude.{ℕ, ◌+◌, ◌≤◌, ◌<◌, ◌≡◌, refl, some, List, [], ◌∷◌, ◌++◌}
use burlmd.Prelude.Text.{Text, codes, text_eq, starts_with, ends_with, strip_prefix, strip_suffix}
use burlmd.Prelude.Split.{split, join, rsplit_once}
use burlmd.Prelude.Bytes.{Range, byte_len, is_char_boundary, slice_to, slice_from, split_at}
use burlmd.Error.{ok}
use burlmd.Okf.ConceptId.{concept_id_to_path}
use burlmd.Okf.Links.{
  internal, classify, has_url_scheme, resolve_relative, resolve_path, apply_segments, apply_segment,
  non_empty, last_segment, is_destination_special, serialize_destination, escape_destination,
}
use burlmd.Okf.Examples.{destination_reader, notes_IsDirectory}
use burlmd.Workspace.Destinations.{
  as_bytes, is_escaped, skip_whitespace, plain_end, parse_destination, find_destination,
  destination_span,
}
use burlmd.Workspace.LinksRewrite.{
  Event, start_link, end_link, other, note, destination_text, match_event, match_events,
  matching_links, collect_rewrites, apply_rewrites, rewrite_destinations, absolute_target,
  absolutize_relative_links,
}
use burlmd.Workspace.Destinations.Bounds.{destination_span_bounds}
use burlmd.Workspace.LinksRewrite.Targets.{absolute_target_kept}

abbrev source : Text
source = codes "see [b](b.md)."

-- What the parser says of it.
abbrev events : List (Event × Range)
events =
    (other, record { start = 0; stop = 4 })
    ∷ (start_link (codes "b.md"), record { start = 4; stop = 13 })
    ∷ (other, record { start = 5; stop = 6 })
    ∷ (end_link, record { start = 4; stop = 13 })
    ∷ (other, record { start = 13; stop = 14 })
    ∷ []

abbrev digit : ℕ → Text
digit n = (48 + n) ∷ []

found :
    destination_span source (record { start = 4; stop = 13 }) 6
    ≡ some (record { start = 8; stop = 12 })
unfolding destination_span find_destination parse_destination skip_whitespace plain_end as_bytes
    is_escaped
found = refl

absolutized :
    absolutize_relative_links digit source (codes "notes") events
    ≡ ok (some (codes "see [b](</notes/b.md>)."))
unfolding absolutize_relative_links rewrite_destinations matching_links match_events match_event
    collect_rewrites apply_rewrites destination_text serialize_destination escape_destination
    is_destination_special concept_id_to_path absolute_target classify has_url_scheme
    resolve_relative resolve_path apply_segments apply_segment non_empty last_segment split join
    rsplit_once text_eq strip_prefix strip_suffix starts_with ends_with destination_span
    find_destination parse_destination skip_whitespace plain_end as_bytes is_escaped byte_len
    is_char_boundary slice_to slice_from split_at
absolutized = refl

destination_span_bounds_example : (6 + 2 ≤ 8) × (4 + 3 ≤ 8) × (8 < 12) × (12 ≤ 13 + 1)
destination_span_bounds_example =
    destination_span_bounds source (record { start = 4; stop = 13 }) 6
      {r = record { start = 8; stop = 12 }} found

target : absolute_target (codes "notes") (codes "b.md") ≡ some (note (codes "notes/b"))
unfolding absolute_target classify has_url_scheme resolve_relative resolve_path apply_segments
    apply_segment non_empty last_segment split join rsplit_once text_eq strip_prefix strip_suffix
    starts_with ends_with
target = refl

absolute_target_kept_example :
    (classify (codes "b.md") (codes "notes") ≡ internal (codes "notes/b"))
    × ((inside : Text) × (destination_text (note (codes "notes/b")) ≡ b'<' ∷ (inside ++ b'>' ∷ []))
        × (classify (destination_reader.unescape inside) (codes "archive")
            ≡ internal (codes "notes/b")))
absolute_target_kept_example =
    absolute_target_kept destination_reader (codes "notes") (codes "b.md") (codes "notes/b")
      (codes "archive") notes_IsDirectory target (λ e. cc)
