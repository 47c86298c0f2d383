-- ===== src/Persist/Leaves.antt =====
-- rust/src/workspace/persist.rs: the editable leaves of a span map, and the carets in them.
use burlmd.Prelude.{
  ℕ, suc, min, max, Bool, not, ◌||◌, ◌&&◌, Option, none, some, List, [], ◌∷◌, ◌++◌, ltb, leb, ◌==◌,
  if◌then◌else◌, length,
}
use burlmd.Prelude.Text.{Text, codes}
use burlmd.Prelude.Split.{rsplit_once}
use burlmd.Prelude.Bytes.{Range, byte_len, utf16_len, get, is_char_boundary}
use burlmd.Error.{AppError, parse_error, Result, ok, err}
use burlmd.Markdown.Spans.{BlockPath, BlockSpan, SpanMap, block, is_leaf, path_starts_with}
use burlmd.Persist.{Core}
use burlmd.Persist.Session.{ok_or, no_block}

-- `.filter(keep)`.
unfoldable pub filter : (BlockSpan → Bool) → List BlockSpan → List BlockSpan
filter keep [] = []
filter keep (b ∷ blocks) = let rest = filter keep blocks in if keep b then b ∷ rest else rest

best_from : (BlockSpan → BlockSpan → Bool) → BlockSpan → List BlockSpan → BlockSpan
best_from better best [] = best
best_from better best (b ∷ blocks) = best_from better (if better best b then b else best) blocks

-- The Block that no later one is better than.
unfoldable pub best_of : (BlockSpan → BlockSpan → Bool) → List BlockSpan → Option BlockSpan
unfolding best_from
best_of better [] = none
best_of better (b ∷ blocks) = some (best_from better b blocks)

-- `max_by_key` takes the last of the greatest, `min_by_key` the first of the least.
unfoldable pub max_by_key : (BlockSpan → ℕ) → List BlockSpan → Option BlockSpan
max_by_key key blocks = best_of (λ best b. leb (key best) (key b)) blocks

unfoldable pub min_by_key : (BlockSpan → ℕ) → List BlockSpan → Option BlockSpan
min_by_key key blocks = best_of (λ best b. ltb (key b) (key best)) blocks

abbrev start_of : BlockSpan → ℕ
start_of b = b.source.start

abbrev stop_of : BlockSpan → ℕ
stop_of b = b.source.stop

-- The first fallback that is there: `Option::first_of`.
abbrev pub first_of {ℓ} : {A : Type ℓ} → Option A → Option A → Option A
first_of none other = other
first_of (some a) other = some a

unfoldable pub previous_block_end : SpanMap → Range → Option ℕ
previous_block_end spans span =
    elim (max_by_key stop_of (filter (λ b. leb b.source.stop span.start) spans.blocks)) [
      | none ↦ none
      | some b ↦ some b.source.stop
    ]

unfoldable pub first_editable_leaf : SpanMap → BlockPath → Option BlockSpan
first_editable_leaf spans parent =
    min_by_key start_of (filter (λ b. is_leaf b && path_starts_with parent b.path) spans.blocks)

unfoldable pub last_editable_leaf : SpanMap → BlockPath → Option BlockSpan
last_editable_leaf spans parent =
    max_by_key stop_of (filter (λ b. is_leaf b && path_starts_with parent b.path) spans.blocks)

unfoldable pub previous_editable_leaf : SpanMap → Range → Option BlockSpan
previous_editable_leaf spans span =
    max_by_key stop_of (filter (λ b. is_leaf b && leb b.source.stop span.start) spans.blocks)

pub data RangeEditLocation : Type 0 where
  block_location : BlockPath → ℕ → RangeEditLocation
  phantom : ℕ → RangeEditLocation

-- `join.clamp(start, end)`.
abbrev pub clamp : ℕ → Range → ℕ
clamp n r = min (max n r.start) r.stop

-- The leaf for a join: the last that it lies in, else the next, else the one before.
unfoldable pub leaf_for_join : List BlockSpan → ℕ → Option BlockSpan
leaf_for_join leaves join =
    first_of
      (max_by_key start_of (filter (λ b. leb b.source.start join && leb join b.source.stop) leaves))
      (first_of (min_by_key start_of (filter (λ b. leb join b.source.start) leaves))
        (max_by_key stop_of (filter (λ b. leb b.source.stop join) leaves)))

module _ (core : Core) where
  caret_error : Text → ℕ → Text → AppError
  caret_error before offset after = parse_error (before ++ (core.decimal offset ++ after))

  unfoldable pub range_edit_caret : Text → SpanMap → ℕ → Result RangeEditLocation
  unfolding caret_error
  range_edit_caret source spans join =
      if ltb (byte_len source) join || not (is_char_boundary source join)
      then err (
          caret_error (codes "range replacement join ") join
            (codes " is not a source character boundary"))
      else (elim (leaf_for_join (filter is_leaf spans.blocks) join) [
        | none ↦ ok (
            phantom
              (length (filter (λ b. length b.path == 1 && leb b.source.stop join) spans.blocks)))
        | some leaf ↦
            let caret = clamp join leaf.source in
            elim (get source (record { start = leaf.source.start; stop = caret })) [
              | none ↦ err (
                  caret_error (codes "range replacement join ") caret
                    (codes " is not addressable in resulting leaf " ++ core.debug_path leaf.path))
              | some prefix ↦ ok (block_location leaf.path (utf16_len prefix))
            ]
      ])

  unfoldable pub editable_leaf_at_or_after_source_offset :
      Text → SpanMap → ℕ → Result (BlockPath × ℕ)
  unfolding caret_error
  editable_leaf_at_or_after_source_offset source spans offset =
      let candidates =
        filter
          (λ b.
            (leb b.source.start offset && ltb offset b.source.stop) || leb offset b.source.start)
          (filter is_leaf spans.blocks) in
      elim (min_by_key start_of candidates) [
        | none ↦ err (
            caret_error (codes "no editable leaf follows source offset ") offset
              (codes " after structural edit"))
        | some leaf ↦
            let caret = max offset leaf.source.start in
            elim (get source (record { start = leaf.source.start; stop = caret })) [
              | none ↦ err (
                  caret_error (codes "source offset ") caret
                    (codes " is not addressable in the resulting leaf"))
              | some prefix ↦ ok (leaf.path, utf16_len prefix)
            ]
      ]

  unfoldable pub block_span : SpanMap → BlockPath → Result Range
  block_span spans path = elim (block spans path) [
    | none ↦ err (no_block core path)
    | some b ↦ ok b.source
  ]

  pub path_error : Text → BlockPath → Text → AppError
  path_error before path after = parse_error (before ++ (core.debug_path path ++ after))

  -- The unique live leaf within what was edited.
  only_leaf : BlockPath → List BlockSpan → Result BlockPath
  unfolding path_error
  only_leaf path [] = err (
      path_error (codes "block_path ") path
        (codes " no longer names an editable leaf after its buffered edit"))
  only_leaf path (b ∷ []) = ok b.path
  only_leaf path (b ∷ c ∷ more) = err (
      path_error (codes "block_path ") path (
        codes
          " became multiple editable leaves after its buffered edit; commit it before a structural edit"))

  retained_leaf : SpanMap → SpanMap → BlockPath → Result BlockPath
  unfolding path_error only_leaf
  retained_leaf live retained path = elim (block retained path) [
    | none ↦ err (no_block core path)
    | some r ↦
        if not (is_leaf r)
        then err (path_error (codes "no live Block at block_path ") path [])
        else only_leaf path (
            filter
              (λ b.
                is_leaf b && (leb r.source.start b.source.start && leb b.source.stop r.source.stop))
              live.blocks)
  ]

  unfoldable pub editable_live_path : SpanMap → SpanMap → BlockPath → Result BlockPath
  unfolding retained_leaf
  editable_live_path live retained path = elim (block live path) [
    | none ↦ retained_leaf live retained path
    | some b ↦ if is_leaf b then ok b.path else retained_leaf live retained path
  ]

  unfoldable pub live_path : SpanMap → SpanMap → BlockPath → Result BlockPath
  live_path live retained path = elim (block live path) [
    | none ↦ editable_live_path live retained path
    | some b ↦ ok b.path
  ]

  unfoldable pub line_prefix_before : Text → ℕ → Result Text
  line_prefix_before source content_start =
      elim (get source (record { start = 0; stop = content_start })) [
        | none ↦ err (
            parse_error (
              codes "source offset "
              ++ (core.decimal content_start ++ codes " is not addressable")))
        | some before ↦
            let line_start : ℕ = elim (rsplit_once b'\n' before) [
              | none ↦ 0
              | some (lines, _) ↦ suc (byte_len lines)
            ] in
            ok_or (get source (record { start = line_start; stop = content_start })) (
              parse_error (
                codes "source line prefix "
                ++ (core.decimal line_start
                    ++ (codes ".."
                        ++ (core.decimal content_start ++ codes " is not addressable")))))
      ]
