-- ===== src/Markdown/Splice/Buffered.antt =====
-- A keystroke: the source is spliced over the focused Block's span, and the span map is shifted in
-- place of a reparse (`update_block` of rust/src/workspace/persist.rs runs the two together).
use burlmd.Prelude.{ℕ, ◌+◌, ◌≤◌, ◌≡◌, sym, ◌∙◌, some, ◌++◌, some_inj, subst}
use burlmd.Prelude.Text.{Text}
use burlmd.Prelude.Bytes.{byte_len, get-at}
use burlmd.Markdown.Spans.{BlockPath, SpanMap, apply_buffered_edit, usize_max}
use burlmd.Markdown.Spans.Edit.{Focused, Renewed, apply_buffered_edit-Renewed}
use burlmd.Markdown.Spans.Edit.Texts.{Edited}
use burlmd.Markdown.Splice.{ok, splice_source}
use burlmd.Markdown.Splice.Laws.{splice_source_iff}

-- Typing in a leaf, with the source and the map in order and a result within the machine's integers:
-- the edit is accepted over the span that the splice replaces, the map is in order for the new source and the new text, and every other
-- Block names the text that it named, or, if it contains the leaf, that text with the leaf's part
-- replaced.
pub keystroke :
    (m : SpanMap) (path : BlockPath) (index : ℕ) (source source' old new : Text)
    (h : Focused m path index source old)
    → splice_source source h.leaf.source new ≡ ok source'
    → byte_len source' ≤ usize_max
    → (m' : SpanMap) × (apply_buffered_edit m path (byte_len new) ≡ some (h.leaf.source, m'))
      × Renewed m m' path index source source' old new
keystroke m path index source source' old new h spliced fits =
    let (s, out) = (splice_source_iff source h.leaf.source new source').0 spliced in
    let inside : s.inside ≡ old =
      some_inj (sym (get-at s.before s.inside s.after s.text s.starts s.stops) ∙ h.typed) in
    let edited : Edited source source' h.leaf.source old new = record {
      before = s.before;
      after = s.after;
      was = subst (λ t. source ≡ s.before ++ (t ++ s.after)) inside s.text;
      is = out;
      starts = s.starts;
      stops = subst (λ t. byte_len s.before + byte_len t ≡ h.leaf.source.stop) inside s.stops;
    } in
    apply_buffered_edit-Renewed h edited fits
