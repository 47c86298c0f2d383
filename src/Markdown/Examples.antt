-- ===== src/Markdown/Examples.antt =====
-- The model of rust/src/markdown run on examples: a quote and a paragraph.
use burlmd.Prelude.{
  ℕ, zero, suc, ◌≡◌, refl, ◌↔◌, ◌≢◌, true, false, none, some, [], ◌∷◌, ◌++◌, get_elem?, length,
  arith, some_inj, subst,
}
use burlmd.Prelude.Text.{Text, codes, text_eq}
use burlmd.Prelude.Bytes.{
  byte_len, get, split_at, is_char_boundary, slice_to, slice_from, utf16_len,
}
use burlmd.Markdown.Spans.{
  BlockSpan, SpanMap, RenderedRange, SourceResolution, exact, is_leaf, lookup_path, block,
  nth_offset, resolve_runs, find_child, child_len, resolve_at, resolve_leaf_at, resolve_offset,
  resolve_utf16_caret, utf16_to_scalar_offset, path_starts_with, apply_buffered_edit,
}
use burlmd.Markdown.Ast.{AstNode, paragraph, text, inline, no_inlines}
use burlmd.Markdown.Spans.Builder.{
  SpanMapBuilder, finish, index_paths, add_children, add_child, update_at, sort_children,
  set_rendered_lens, set_rendered_len, measured,
}
use burlmd.Markdown.Spans.Builder.Paths.{finish-block}
use burlmd.Markdown.Spans.Descent.{IsBlock, Found}
use burlmd.Markdown.Spans.Resolve.{resolve_offset_total}
use burlmd.Markdown.Spans.Edit.{Focused, Renewed}
use burlmd.Markdown.Spans.Edit.Places.{Placed}
use burlmd.Markdown.Splice.{
  ok, err, invalid_source_range, splice_source, resolve_range, extract_range, splice_range,
  splice_block, reparse,
}
use burlmd.Markdown.Splice.Laws.{
  IsSpan, splice_source-IsSpan, splice_source_iff, extract-splice_range, splice_block_iff,
}
use burlmd.Markdown.Splice.Buffered.{keystroke}

abbrev blank_line : Text
blank_line = 10 ∷ 10 ∷ []

abbrev note : Text
note = codes "> hi" ++ (blank_line ++ codes "BBB")

abbrev hi : BlockSpan
hi = record {
  path = 0 ∷ 0 ∷ [];
  source = record { start = 2; stop = 4 };
  runs =
      record {
        rendered = record { start = 0; stop = 2 };
        source = record { start = 2; stop = 4 };
        interpolable = true;
      }
      ∷ [];
  rendered_len = 2;
  children = [];
}

abbrev quote : BlockSpan
quote = record {
  path = 0 ∷ [];
  source = record { start = 0; stop = 4 };
  runs = [];
  rendered_len = 2;
  children = 0 ∷ [];
}

abbrev last_block : BlockSpan
last_block = record {
  path = 1 ∷ [];
  source = record { start = 6; stop = 9 };
  runs =
      record {
        rendered = record { start = 0; stop = 3 };
        source = record { start = 6; stop = 9 };
        interpolable = true;
      }
      ∷ [];
  rendered_len = 3;
  children = [];
}

abbrev spans : SpanMap
spans = record {
  blocks = hi ∷ quote ∷ last_block ∷ [];
  by_path = (0 ∷ 0 ∷ [], 0) ∷ (0 ∷ [], 1) ∷ (1 ∷ [], 2) ∷ [];
  frontmatter = none;
}

-- The offset of `i` within the quote.
resolved_offset : resolve_offset spans note (0 ∷ []) 1 ≡ some (exact 3)
unfolding resolve_offset lookup_path resolve_at find_child child_len is_leaf resolve_runs nth_offset
    get split_at text_eq
resolved_offset = refl

caret : resolve_utf16_caret spans note (0 ∷ []) (codes "hi") 1 ≡ some (0 ∷ 0 ∷ [], 1)
unfolding resolve_utf16_caret lookup_path resolve_leaf_at find_child child_len is_leaf resolve_runs
    nth_offset get split_at text_eq utf16_to_scalar_offset utf16_len
caret = refl

note-IsCoherent :
    (i : ℕ) (b : BlockSpan)
    → get_elem? spans.blocks i ≡ some b
    → IsBlock note spans.blocks i b b.children
unfolding get split_at child_len
note-IsCoherent zero b e =
    subst (λ b. IsBlock note spans.blocks 0 b b.children) (some_inj e)
      (refl, omega arith, omega arith, omega arith, (λ _. (codes "hi", refl, refl)), refl)
note-IsCoherent (suc zero) b e =
    subst (λ b. IsBlock note spans.blocks 1 b b.children) (some_inj e) (refl, (omega arith, tt))
note-IsCoherent (suc (suc zero)) b e =
    subst (λ b. IsBlock note spans.blocks 2 b b.children) (some_inj e)
      (refl, omega arith, omega arith, omega arith, (λ _. (codes "BBB", refl, refl)), refl)
note-IsCoherent (suc (suc (suc i))) b e = cc

resolve_offset_total_example :
    (leaf : ℕ) × (r : SourceResolution) × (resolve_leaf_at
        (length spans.blocks)
        note
        spans.blocks
        1
        1
      ≡ some (leaf, r))
    × (resolve_offset spans note (0 ∷ []) 1 ≡ some r)
    × Found note spans.blocks leaf r
resolve_offset_total_example =
    resolve_offset_total spans note (0 ∷ []) 1 1 quote note-IsCoherent
      (unfold lookup_path text_eq in refl) refl (omega arith)

-- `a`, a character of two UTF-16 units and four bytes, and `b`.
abbrev wide : Text
wide = b'a' ∷ 128512 ∷ b'b' ∷ []

surrogate : utf16_to_scalar_offset wide 2 ≡ none
unfolding utf16_to_scalar_offset
surrogate = refl

other_Placed :
    (i : ℕ) (b : BlockSpan)
    → get_elem? spans.blocks i ≡ some b
    → i ≢ 0
    → Placed (0 ∷ 0 ∷ []) hi.source b × ((t : Text) × (get note b.source ≡ some t))
unfolding path_starts_with get split_at text_eq
other_Placed zero b e ne = absurd (ne refl)
other_Placed (suc zero) b e ne =
    subst (λ b. Placed (0 ∷ 0 ∷ []) hi.source b × ((t : Text) × (get note b.source ≡ some t)))
      (some_inj e) (Placed.around refl (omega arith) (omega arith), (codes "> hi", refl))
other_Placed (suc (suc zero)) b e ne =
    subst (λ b. Placed (0 ∷ 0 ∷ []) hi.source b × ((t : Text) × (get note b.source ≡ some t)))
      (some_inj e) (Placed.after (omega arith) (omega arith), (codes "BBB", refl))
other_Placed (suc (suc (suc i))) b e ne = cc

hi_Focused : Focused spans (0 ∷ 0 ∷ []) 0 note (codes "hi")
unfolding lookup_path text_eq get split_at is_leaf
hi_Focused = record {
  leaf = hi;
  found = refl;
  elem = refl;
  is_a_leaf = refl;
  typed = refl;
  others = other_Placed;
}

abbrev longer : Text
longer = codes "> hi!" ++ (blank_line ++ codes "BBB")

keystroke_example :
    (m' : SpanMap) × (apply_buffered_edit spans (0 ∷ 0 ∷ []) (byte_len (codes "hi!"))
      ≡ some (record { start = 2; stop = 4 }, m'))
    × Renewed spans m' (0 ∷ 0 ∷ []) 0 note longer (codes "hi") (codes "hi!")
unfolding hi_Focused
keystroke_example =
    keystroke spans (0 ∷ 0 ∷ []) 0 note longer (codes "hi") (codes "hi!") hi_Focused
      (unfold splice_source is_char_boundary slice_to slice_from split_at byte_len in refl)
      (unfold byte_len in omega arith)

splice_source_iff_example :
    (splice_source note (record { start = 2; stop = 4 }) (codes "ho")
      ≡ ok (codes "> ho" ++ (blank_line ++ codes "BBB")))
    ↔ ((s : IsSpan note (record { start = 2; stop = 4 })) × (codes "> ho"
            ++ (blank_line ++ codes "BBB")
          ≡ s.before ++ (codes "ho" ++ s.after)))
splice_source_iff_example =
    splice_source_iff note (record { start = 2; stop = 4 }) (codes "ho")
      (codes "> ho" ++ (blank_line ++ codes "BBB"))

inside_character : ¬ IsSpan wide (record { start = 2; stop = 5 })
unfolding splice_source is_char_boundary slice_to slice_from split_at byte_len
inside_character s =
    let done = splice_source-IsSpan wide (record { start = 2; stop = 5 }) s [] in
    let refused : splice_source wide (record { start = 2; stop = 5 }) []
        ≡ err (invalid_source_range (record { start = 2; stop = 5 })) =
      refl in
    cc (done, refused)

abbrev parsed : Text → Text → Text × SpanMap
parsed source dir = (source, spans)

abbrev selected : RenderedRange
selected = record { start_path = 0 ∷ []; start_offset = 1; end_path = 1 ∷ []; end_offset = 2 }

copied : extract_range note spans selected ≡ ok (codes "i" ++ (blank_line ++ codes "BB"))
unfolding extract_range resolve_range resolve_offset lookup_path resolve_at find_child child_len
    is_leaf resolve_runs nth_offset get split_at text_eq
copied = refl

extract-splice_range_example :
    splice_range parsed note spans selected
      (codes "i" ++ (blank_line ++ codes "BB"))
      (codes "notes")
    ≡ ok (reparse parsed note (codes "notes"))
extract-splice_range_example =
    extract-splice_range parsed note spans selected (codes "notes")
      {t = codes "i" ++ (blank_line ++ codes "BB")} copied

splice_block_iff_example :
    (splice_block parsed note spans (1 ∷ []) (codes "CC") (codes "notes")
      ≡ ok (reparse parsed (codes "> hi" ++ (blank_line ++ codes "CC")) (codes "notes")))
    ↔ ((b : BlockSpan) × (s : IsSpan note b.source) × (block spans (1 ∷ []) ≡ some b)
        × (reparse parsed (codes "> hi" ++ (blank_line ++ codes "CC")) (codes "notes")
            ≡ reparse parsed (s.before ++ (codes "CC" ++ s.after)) (codes "notes")))
splice_block_iff_example =
    splice_block_iff parsed note spans (1 ∷ []) (codes "CC") (codes "notes")
      (reparse parsed (codes "> hi" ++ (blank_line ++ codes "CC")) (codes "notes"))

abbrev built : SpanMapBuilder
built = record {
  blocks =
      record hi { children = [] }
      ∷ record quote { rendered_len = 0; children = [] }
      ∷ last_block
      ∷ [];
  frontmatter = none;
}

-- Linking gives the quote its child, and its length.
linked : (finish built).blocks ≡ spans.blocks
unfolding finish index_paths add_children lookup_path text_eq update_at sort_children
    set_rendered_lens set_rendered_len is_leaf child_len add_child measured
linked = refl

finish-block_example : quote.path ≡ 0 ∷ []
finish-block_example = finish-block built (0 ∷ []) {s = quote} (
    unfold block finish index_paths add_children lookup_path text_eq update_at sort_children
      set_rendered_lens set_rendered_len is_leaf child_len add_child measured in
    refl)

abbrev words : Text → AstNode
words t = paragraph (
    inline
      (text
        (record { content = t; bold = false; italic = false; strikethrough = false; code = false }))
      no_inlines)
