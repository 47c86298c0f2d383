-- ===== src/Markdown/Spans.antt =====
-- rust/src/markdown/spans.rs: the span map of a parsed Note. An offset into the source counts bytes,
-- one into rendered text counts characters. The hash map from paths is an association list, and a
-- `Vec` of Blocks is a list.
pub mod Utf16
pub mod Runs
pub mod Descent
pub mod Resolve
pub mod Edit
pub mod Builder
use mathlib.Core.Option
use burlmd.Prelude.{
  ℕ, zero, suc, ◌+◌, ◌-◌, ◌^◌, min, Bool, true, false, not, ◌&&◌, Option, none, some, List, [], ◌∷◌,
  ltb, leb, ◌==◌, if◌then◌else◌, ◌>>=◌, unwrap_or, length, get_elem?, map,
}
use burlmd.Prelude.Text.{Text, text_eq}
use burlmd.Prelude.Bytes.{Range, get, len_utf8, len_utf16, utf16_len, byte_len, slice_to, split_at}

abbrev pub BlockPath : Type 0
BlockPath = List ℕ

pub record InlineRun : Type 0 where
  pub rendered : Range
  pub source : Range
  pub interpolable : Bool

pub record BlockSpan : Type 0 where
  pub path : BlockPath
  pub source : Range
  pub runs : List InlineRun
  pub rendered_len : ℕ
  pub children : List ℕ

unfoldable pub is_leaf : BlockSpan → Bool
is_leaf b = elim b.children [ [] ↦ true | c ∷ cs ↦ false ]

pub record RenderedRange : Type 0 where
  pub start_path : BlockPath
  pub start_offset : ℕ
  pub end_path : BlockPath
  pub end_offset : ℕ

pub data SourceResolution : Type 0 where
  exact : ℕ → SourceResolution
  boundary : ℕ → ℕ → SourceResolution
  atomic : Range → SourceResolution

abbrev pub res_start : SourceResolution → ℕ
res_start (exact offset) = offset
res_start (boundary before after) = after
res_start (atomic range) = range.start

abbrev pub res_end : SourceResolution → ℕ
res_end (exact offset) = offset
res_end (boundary before after) = before
res_end (atomic range) = range.stop

pub record SpanMap : Type 0 where
  pub blocks : List BlockSpan
  pub by_path : List (BlockPath × ℕ)
  pub frontmatter : Option Range

-- `self.by_path.get(path)`; paths are compared as lists of numbers.
unfoldable pub lookup_path : BlockPath → List (BlockPath × ℕ) → Option ℕ
lookup_path path [] = none
lookup_path path ((p, i) ∷ m) = if text_eq p path then some i else lookup_path path m

unfoldable pub block : SpanMap → BlockPath → Option BlockSpan
block m path = lookup_path path m.by_path >>= get_elem? m.blocks

unfoldable pub block_source : SpanMap → Text → BlockPath → Option Text
block_source m source path = block m path >>= λ span. get source span.source

-- The byte offset of the nth character: `text.char_indices().nth(n)`.
unfoldable pub nth_offset : Text → ℕ → Option ℕ
nth_offset [] n = none
nth_offset (c ∷ s) zero = some 0
nth_offset (c ∷ s) (suc n) = Option.map (λ b. len_utf8 c + b) (nth_offset s n)

interpolate : Text → InlineRun → ℕ → Option SourceResolution
interpolate source run rendered_offset = get source run.source >>= λ text.
    Option.map (λ byte. exact (run.source.start + byte))
      (nth_offset text (rendered_offset - run.rendered.start))

-- The loop over a leaf's runs. `stop` is where the last run's source ends.
unfoldable pub resolve_runs : Text → ℕ → Option ℕ → List InlineRun → ℕ → Option SourceResolution
unfolding interpolate
resolve_runs source stop previous_end [] rendered_offset = some (boundary stop stop)
resolve_runs source stop previous_end (run ∷ runs) rendered_offset =
    let rest = resolve_runs source stop (some run.source.stop) runs rendered_offset in
    if rendered_offset == run.rendered.start
    then some (boundary (unwrap_or previous_end run.source.start) run.source.start)
    else if ltb rendered_offset run.rendered.stop
    then (if run.interpolable
        then interpolate source run rendered_offset
        else some (atomic run.source))
    else rest

-- `runs.last().map_or(block.source.start, |run| run.source.end)`
unfoldable pub runs_end : ℕ → List InlineRun → ℕ
runs_end d [] = d
runs_end d (run ∷ runs) = runs_end run.source.stop runs

unfoldable pub child_len : List BlockSpan → ℕ → ℕ
child_len blocks child = unwrap_or (Option.map (λ b. b.rendered_len) (get_elem? blocks child)) 0

-- Which child an offset into a container's rendered text falls to, and the offset within it.
unfoldable pub find_child : List BlockSpan → ℕ → ℕ → List ℕ → Option (ℕ × ℕ)
unfolding child_len
find_child blocks rendered_offset consumed [] = none
find_child blocks rendered_offset consumed (child ∷ rest) =
    if leb rendered_offset (consumed + child_len blocks child)
    then some (child, rendered_offset - consumed)
    else find_child blocks rendered_offset (consumed + (child_len blocks child + 1)) rest

-- The recursion into child Blocks, on fuel: the number of Blocks is fuel enough, since children come
-- before their parents. An index out of bounds, where the code would panic, is `none`.
unfoldable pub resolve_leaf_at : ℕ → Text → List BlockSpan → ℕ → ℕ → Option (ℕ × SourceResolution)
resolve_leaf_at zero source blocks index rendered_offset = none
resolve_leaf_at (suc fuel) source blocks index rendered_offset = get_elem? blocks index >>= λ block.
    if ltb block.rendered_len rendered_offset
    then none
    else if is_leaf block
    then Option.map (λ r. (index, r))
        (resolve_runs source (runs_end block.source.start block.runs) none block.runs
          rendered_offset)
    else (find_child blocks rendered_offset 0 block.children >>= λ (found : ℕ × ℕ).
        resolve_leaf_at fuel source blocks found.0 found.1)

-- `resolve_at` goes down the same way and returns the resolution alone.
unfoldable pub resolve_at : ℕ → Text → List BlockSpan → ℕ → ℕ → Option SourceResolution
resolve_at zero source blocks index rendered_offset = none
resolve_at (suc fuel) source blocks index rendered_offset = get_elem? blocks index >>= λ block.
    if ltb block.rendered_len rendered_offset
    then none
    else if is_leaf block
    then resolve_runs source (runs_end block.source.start block.runs) none block.runs
        rendered_offset
    else (find_child blocks rendered_offset 0 block.children >>= λ (found : ℕ × ℕ).
        resolve_at fuel source blocks found.0 found.1)

unfoldable pub resolve_offset : SpanMap → Text → BlockPath → ℕ → Option SourceResolution
resolve_offset m source path rendered_offset = lookup_path path m.by_path >>= λ index.
    resolve_at (length m.blocks) source m.blocks index rendered_offset

unfoldable pub resolve_range : SpanMap → Text → RenderedRange → Option Range
resolve_range m source range = resolve_offset m source range.start_path range.start_offset >>= λ s.
    resolve_offset m source range.end_path range.end_offset >>= λ e.
    if ltb (res_end e) (res_start s)
    then none
    else some (record { start = res_start s; stop = res_end e })

-- The loops of `utf16_to_scalar_offset` and `utf16_to_byte_offset`, with the units and the
-- characters or bytes passed so far.
scalar_loop : ℕ → ℕ → ℕ → Text → Option ℕ
scalar_loop target units scalar [] = if target == units then some scalar else none
scalar_loop target units scalar (c ∷ s) =
    let rest = scalar_loop target (units + len_utf16 c) (scalar + 1) s in
    if target == units then some scalar else if ltb target (units + len_utf16 c) then none else rest

unfoldable pub utf16_to_scalar_offset : Text → ℕ → Option ℕ
unfolding scalar_loop
utf16_to_scalar_offset text utf16_offset = scalar_loop utf16_offset 0 0 text

byte_loop : ℕ → ℕ → ℕ → Text → Option ℕ
byte_loop target units byte [] = if target == units then some byte else none
byte_loop target units byte (c ∷ s) =
    let rest = byte_loop target (units + len_utf16 c) (byte + len_utf8 c) s in
    if target == units then some byte else if ltb target (units + len_utf16 c) then none else rest

unfoldable pub utf16_to_byte_offset : Text → ℕ → Option ℕ
unfolding byte_loop
utf16_to_byte_offset text utf16_offset = byte_loop utf16_offset 0 0 text

-- The caret in a top-level Block: the editable leaf that owns it, and the UTF-16 offset there.
unfoldable pub resolve_utf16_caret : SpanMap → Text → BlockPath → Text → ℕ → Option (BlockPath × ℕ)
resolve_utf16_caret m source (top ∷ []) rendered rendered_utf16_offset =
    lookup_path (top ∷ []) m.by_path >>= λ index. get_elem? m.blocks index >>= λ block.
    if not (length rendered == block.rendered_len)
    then none
    else (utf16_to_scalar_offset rendered rendered_utf16_offset >>= λ rendered_offset.
        resolve_leaf_at (length m.blocks) source m.blocks index rendered_offset
        >>= λ (found : ℕ × SourceResolution). get_elem? m.blocks found.0 >>= λ leaf.
            get source leaf.source >>= λ leaf_source.
            if ltb (res_start found.1) leaf.source.start
            then none
            else (get leaf_source
                  (record { start = 0; stop = res_start found.1 - leaf.source.start })
                >>= λ prefix. some (leaf.path, utf16_len prefix)))
resolve_utf16_caret m source path rendered rendered_utf16_offset = none

abbrev pub usize_max : ℕ
usize_max = 2 ^ 64 - 1

-- `offset.saturating_add_signed(new_len - old_len)`, by the sign of the difference.
unfoldable pub shift : ℕ → ℕ → ℕ → ℕ
shift old_len new_len offset =
    if ltb new_len old_len
    then offset - (old_len - new_len)
    else min (offset + (new_len - old_len)) usize_max

-- `path.starts_with(prefix)`.
unfoldable pub path_starts_with : BlockPath → BlockPath → Bool
path_starts_with [] path = true
path_starts_with (a ∷ prefix) [] = false
path_starts_with (a ∷ prefix) (b ∷ path) = a == b && path_starts_with prefix path

shift_range : ℕ → ℕ → Range → Range
shift_range old_len new_len r = record {
  start = shift old_len new_len r.start;
  stop = shift old_len new_len r.stop;
}

shift_run : ℕ → ℕ → InlineRun → InlineRun
shift_run old_len new_len run = record run { source = shift_range old_len new_len run.source }

stretch : ℕ → ℕ → BlockSpan → BlockSpan
stretch old_len new_len b = record b {
  source = record { start = b.source.start; stop = shift old_len new_len b.source.stop };
}

-- What a buffered edit of the Block at `path` (number `index`, source `old`) does to one Block.
unfoldable pub edit_block : BlockPath → ℕ → Range → ℕ → ℕ → BlockSpan → BlockSpan
unfolding shift_range shift_run stretch
edit_block path index old new_len position b =
    if position == index
    then stretch (old.stop - old.start) new_len b
    else if leb old.stop b.source.start
    then record b {
      source = shift_range (old.stop - old.start) new_len b.source;
      runs = map (shift_run (old.stop - old.start) new_len) b.runs;
    }
    else if path_starts_with b.path path
    then stretch (old.stop - old.start) new_len b
    else b

-- `for (position, block) in self.blocks.iter_mut().enumerate()`.
unfoldable pub edit_blocks : BlockPath → ℕ → Range → ℕ → ℕ → List BlockSpan → List BlockSpan
edit_blocks path index old new_len position [] = []
edit_blocks path index old new_len position (b ∷ bs) =
    edit_block path index old new_len position b
    ∷ edit_blocks path index old new_len (suc position) bs

edit_leaf : SpanMap → BlockPath → ℕ → ℕ → BlockSpan → Option (Range × SpanMap)
edit_leaf m path new_len index b =
    if not (is_leaf b)
    then none
    else if new_len == b.source.stop - b.source.start
    then some (b.source, m)
    else some (b.source, record m { blocks = edit_blocks path index b.source new_len 0 m.blocks })

-- The span that the Block had, and the map after the edit.
unfoldable pub apply_buffered_edit : SpanMap → BlockPath → ℕ → Option (Range × SpanMap)
unfolding edit_leaf
apply_buffered_edit m path new_len = lookup_path path m.by_path >>= λ index.
    get_elem? m.blocks index >>= λ b. edit_leaf m path new_len index b
