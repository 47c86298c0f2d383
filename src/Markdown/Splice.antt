-- ===== src/Markdown/Splice.antt =====
-- rust/src/markdown/splice.rs: an edit as a substitution of source bytes, followed by a reparse.
-- The parser (rust/src/markdown/parser.rs over the third-party pulldown-cmark) is the parameter
-- `parse_note`.
pub mod Laws
pub mod Buffered
use burlmd.Prelude.{
  ℕ, Bool, true, false, not, ◌||◌, Option, none, some, List, ◌++◌, ltb, if◌then◌else◌, is_some,
}
use burlmd.Prelude.Text.{Text}
use burlmd.Prelude.Bytes.{Range, byte_len, is_char_boundary, slice_to, slice_from, get}
use burlmd.Markdown.Spans.{
  BlockPath, RenderedRange, SpanMap, block, res_start, res_end, resolve_offset,
}

pub data SpliceError : Type 0 where
  unknown_block : BlockPath → SpliceError
  offset_out_of_range : BlockPath → ℕ → SpliceError
  inverted_range : SpliceError
  invalid_source_range : Range → SpliceError

pub data Spliced {ℓ} (A : Type ℓ) : Type ℓ where
  ok : A → Spliced A
  err : SpliceError → Spliced A

infixl 5 ◌>>=◌
abbrev pub ◌>>=◌ {ℓ κ} : {A : Type ℓ} {B : Type κ} → Spliced A → (A → Spliced B) → Spliced B
ok a >>= f = f a
err e >>= f = err e

-- `Option::ok_or`.
abbrev pub ok_or {ℓ} : {A : Type ℓ} → Option A → SpliceError → Spliced A
ok_or none e = err e
ok_or (some a) e = ok a

unfoldable pub splice_source : Text → Range → Text → Spliced Text
splice_source source span replacement =
    if ltb span.stop span.start
      || (ltb (byte_len source) span.stop
          || (not (is_char_boundary source span.start) || not (is_char_boundary source span.stop)))
    then err (invalid_source_range span)
    else ok (slice_to source span.start ++ (replacement ++ slice_from source span.stop))

unfoldable pub offset_error : SpanMap → BlockPath → ℕ → SpliceError
offset_error spans path offset = elim (block spans path) [
  | none ↦ unknown_block path
  | some _ ↦ offset_out_of_range path offset
]

unfoldable pub resolve_range : Text → SpanMap → RenderedRange → Spliced Range
resolve_range source spans range = do
  start ←
      ok_or (resolve_offset spans source range.start_path range.start_offset)
        (offset_error spans range.start_path range.start_offset)
  stop ←
      ok_or (resolve_offset spans source range.end_path range.end_offset)
        (offset_error spans range.end_path range.end_offset)
  if ltb (res_end stop) (res_start start)
      then err inverted_range
      else ok (record { start = res_start start; stop = res_end stop })

unfoldable pub extract_range : Text → SpanMap → RenderedRange → Spliced Text
extract_range source spans range = do
  resolved ← resolve_range source spans range
  ok_or (get source resolved) (invalid_source_range resolved)

module _ {Ast : Type 0} (parse_note : Text → Text → Ast × SpanMap) where
  pub record SplicedNote : Type 0 where
    pub source : Text
    pub ast : Ast
    pub spans : SpanMap

  unfoldable pub reparse : Text → Text → SplicedNote
  reparse source containing_dir =
      let (ast, spans) = parse_note source containing_dir in
      record { source = source; ast = ast; spans = spans }

  unfoldable pub splice_block : Text → SpanMap → BlockPath → Text → Text → Spliced SplicedNote
  splice_block source spans path replacement containing_dir = do
    b ← ok_or (block spans path) (unknown_block path)
    spliced ← splice_source source b.source replacement
    ok (reparse spliced containing_dir)

  unfoldable pub splice_range : Text → SpanMap → RenderedRange → Text → Text → Spliced SplicedNote
  splice_range source spans range replacement containing_dir = do
    resolved ← resolve_range source spans range
    spliced ← splice_source source resolved replacement
    ok (reparse spliced containing_dir)
