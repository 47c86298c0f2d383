-- ===== src/Persist/Blocks/Delete.antt =====
-- What a deletion takes: the Block's text and line ends, and nothing else.
use burlmd.Prelude.{
  ℕ, ◌+◌, ◌≤◌, ◌≡◌, refl, sym, ap, ◌∙◌, ◌⊎◌, inl, inr, Bool, true, false, not, ◌||◌, some, [], ◌∷◌,
  ◌++◌, append_assoc, append-nil, ltb, if◌then◌else◌, Bool-cases, subst, arith,
}
use burlmd.Prelude.Text.{Text, text_eq}
use burlmd.Prelude.Bytes.{Range, byte_len, byte_len-append, is_char_boundary, get, get-at}
use burlmd.Error.{AppError, Result, ok, err, >>=-ok}
use burlmd.Markdown.Ast.{Nodes}
use burlmd.Markdown.Spans.{BlockPath, BlockSpan, SpanMap, block}
use burlmd.Markdown.Splice
use burlmd.Markdown.Splice.{SpliceError, Spliced, splice_source}
use burlmd.Markdown.Splice.Laws.{IsSpan, splice_source-IsSpan}
use burlmd.Persist.{Core}
use burlmd.Persist.Session.{check_span}
use burlmd.Persist.Leaves.{live_path, block_span}
use burlmd.Persist.Seams.{trailing_newlines, separator_before, separator_across, newline_run_len}
use burlmd.Persist.Seams.Laws.{
  IsLineEnds, newline_run_len-split, cut_to_one_trailing_newline-split, separator_across-at,
  separator_before-IsLineEnds, trailing_newlines-separator_before,
}
use burlmd.Persist.Blocks.{up_to, from_offset, map_splice_error, deleted_region, delete_block_edit}

-- A region that is a Block's text with line ends on its sides.
record Region (working inside : Text) (region : Range) : Type 0 where
  before : Text
  head : Text
  tail : Text
  after : Text
  split : working ≡ before ++ ((head ++ (inside ++ tail)) ++ after)
  starts : byte_len before ≡ region.start
  stops : byte_len before + byte_len (head ++ (inside ++ tail)) ≡ region.stop
  head_ends : IsLineEnds head
  tail_ends : IsLineEnds tail

regroup : (b h i t a : Text) → b ++ ((h ++ (i ++ t)) ++ a) ≡ (b ++ h) ++ (i ++ (t ++ a))
regroup b h i t a =
    ap (λ x. b ++ x) (append_assoc h (i ++ t) a ∙ ap (λ x. h ++ x) (append_assoc i t a))
    ∙ sym (append_assoc b h (i ++ (t ++ a)))

no_bytes : byte_len [] ≡ 0
unfolding byte_len
no_bytes = refl

-- The text from an offset on, and up to it.
from_offset-at :
    (a c : Text) {working : Text} {at : ℕ}
    → working ≡ a ++ c
    → byte_len a ≡ at
    → from_offset working at ≡ some c
from_offset-at a c text at =
    get-at a c [] (text ∙ ap (λ t. a ++ t) (sym (append-nil c))) at
      (sym (ap byte_len text ∙ byte_len-append a c))

up_to-at :
    (a c : Text) {working : Text} {at : ℕ}
    → working ≡ a ++ c
    → byte_len a ≡ at
    → get working (up_to at) ≡ some a
up_to-at a c text at = get-at [] a c text no_bytes (omega (arith, no_bytes, at))

module _ (core : Core) where
  deleted_region-Region :
      (working : Text) (span : Range) (s : IsSpan working span)
      → Region working s.inside (deleted_region core working span)
  unfolding deleted_region
  deleted_region-Region working span s =
      let (run, rest, text, len, ends) = newline_run_len-split s.after in
      let (kept, cut, before, kept_len, cut_ends) = cut_to_one_trailing_newline-split s.before in
      let inner = byte_len-append s.before s.inside in
      let whole = s.text ∙ sym (append_assoc s.before s.inside s.after) in
      let seen = from_offset-at (s.before ++ s.inside) s.after whole (inner ∙ s.stops) in
      let run_end = span.stop + newline_run_len s.after in
      let ran = byte_len-append (s.before ++ s.inside) run in
      let beyond : from_offset working run_end ≡ some rest =
        from_offset-at ((s.before ++ s.inside) ++ run) rest
          (whole
            ∙ (ap (λ t. (s.before ++ s.inside) ++ t) text
                ∙ sym (append_assoc (s.before ++ s.inside) run rest)))
          (omega (arith, ran, inner, s.stops, len)) in
      let behind = up_to-at s.before (s.inside ++ s.after) s.text s.starts in
      elim (Bool-cases (text_eq rest [])) [
        | inl e ↦
            rw (seen, beyond, behind, e, deleted_region)
              (record {
                before = kept;
                head = cut;
                tail = [];
                after = s.after;
                split =
                    s.text
                    ∙ (ap (λ t. t ++ (s.inside ++ s.after)) before
                        ∙ sym (regroup kept cut s.inside [] s.after));
                starts = kept_len;
                stops = omega (
                  arith,
                  s.stops,
                  ap byte_len before,
                  byte_len-append kept cut,
                  byte_len-append cut (s.inside ++ []),
                  byte_len-append s.inside [],
                  no_bytes,
                );
                head_ends = cut_ends;
                tail_ends = tt;
              })
        | inr e ↦
            rw (seen, beyond, e, deleted_region)
              (record {
                before = s.before;
                head = [];
                tail = run;
                after = rest;
                split =
                    s.text
                    ∙ (ap (λ t. s.before ++ (s.inside ++ t)) text
                        ∙ ap (λ t. s.before ++ t) (sym (append_assoc s.inside run rest)));
                starts = s.starts;
                stops = omega (arith, s.stops, byte_len-append s.inside run, len);
                head_ends = tt;
                tail_ends = ends;
              })
      ]

  -- A deletion that is done: the bytes before and after the region, joined by line ends.
  pub record Deleted (path : BlockPath) (working inside : Text) (spans retained : SpanMap)
      (ast : Nodes) : Type 0 where
    pub before : Text
    pub head : Text
    pub tail : Text
    pub after : Text
    pub separator : Text
    pub split : working ≡ before ++ ((head ++ (inside ++ tail)) ++ after)
    pub done :
        delete_block_edit core path working spans ast retained
        ≡ ok (before ++ (separator ++ after), tt)
    pub head_ends : IsLineEnds head
    pub tail_ends : IsLineEnds tail
    pub separator_ends : IsLineEnds separator
    pub apart :
        (before ≡ [])
        ⊎ (after ≡ [])
        ⊎ (trailing_newlines (head ++ (inside ++ tail)) ≤ trailing_newlines (before ++ separator))

  abbrev unaccepted : AppError → Result {0} Unit
  unaccepted e = err e

  check_span-IsSpan :
      (source : Text) (span : Range) → IsSpan source span → check_span core source span ≡ ok tt
  unfolding check_span splice_source
  check_span-IsSpan source span s =
      by_guard _ _ _
        (ltb span.stop span.start
          || (ltb (byte_len source) span.stop
              || (not (is_char_boundary source span.start)
                  || not (is_char_boundary source span.stop))))
        (splice_source-IsSpan source span s [])
    where
      by_guard :
          (e : SpliceError) (e' : AppError) (t : Text) {u : Text} (guard : Bool)
          → (if guard then Splice.err e else Splice.ok t) ≡ Splice.ok u
          → (if guard then unaccepted e' else ok tt) ≡ ok tt
      by_guard e e' t true h = cc h
      by_guard e e' t false h = refl

  block_span-found :
      (spans : SpanMap) (path : BlockPath) {b : BlockSpan}
      → block spans path ≡ some b
      → block_span core spans path ≡ ok b.source
  unfolding block_span
  block_span-found spans path h = rw (h, block_span) refl

  -- The deletion of a live Block whose span is one of the Note: it succeeds, and takes the Block's
  -- text with line ends before or behind it and nothing else; every other byte is kept, and between
  -- what was before and behind come line ends, at least as many as the removed region ended in
  -- unless one side is empty.
  pub delete_block_edit-Deleted :
      (path live : BlockPath) (working : Text) (spans retained : SpanMap) (ast : Nodes)
      (b : BlockSpan)
      → live_path core spans retained path ≡ ok live
      → block spans live ≡ some b
      → (s : IsSpan working b.source) → Deleted path working s.inside spans retained ast
  unfolding delete_block_edit map_splice_error
  delete_block_edit-Deleted path live working spans retained ast b found at s =
      let region = deleted_region core working b.source in
      let r = deleted_region-Region working b.source s in
      let middle = r.head ++ (s.inside ++ r.tail) in
      let span : IsSpan working region = record {
        before = r.before;
        inside = middle;
        after = r.after;
        text = r.split;
        starts = r.starts;
        stops = r.stops;
      } in
      let separator = separator_across working region.start region.stop in
      let spelled = separator_across-at r.before middle r.after r.split r.starts r.stops in
      record {
        before = r.before;
        head = r.head;
        tail = r.tail;
        after = r.after;
        separator = separator;
        split = r.split;
        done =
            >>=-ok _ found
            ∙ (>>=-ok _ (block_span-found spans live at)
                ∙ (>>=-ok _ (check_span-IsSpan working region span)
                    ∙ >>=-ok _ (
                        ap (map_splice_error core)
                          (splice_source-IsSpan working region span separator))));
        head_ends = r.head_ends;
        tail_ends = r.tail_ends;
        separator_ends =
            subst IsLineEnds (sym spelled)
              (chosen (text_eq r.before [] || text_eq r.after []) r.before middle);
        apart = by_edges r.before r.after middle spelled;
      }
    where
      chosen :
          (edge : Bool) (before middle : Text)
          → IsLineEnds (if edge then [] else separator_before before (trailing_newlines middle))
      chosen true before middle = tt
      chosen false before middle = separator_before-IsLineEnds before (trailing_newlines middle)

      by_edges :
          (before after middle : Text) {sep : Text}
          → sep ≡ (
              if text_eq before [] || text_eq after []
              then []
              else separator_before before (trailing_newlines middle))
          → (before ≡ [])
            ⊎ (after ≡ [])
            ⊎ (trailing_newlines middle ≤ trailing_newlines (before ++ sep))
      by_edges [] after middle e = inl refl
      by_edges (c ∷ before) [] middle e = inr (inl refl)
      by_edges (c ∷ before) (d ∷ after) middle {sep} e =
          let same : sep ≡ separator_before (c ∷ before) (trailing_newlines middle) =
            unfold text_eq in e in
          inr (
            inr (
              omega (
                arith,
                ap (λ t. trailing_newlines ((c ∷ before) ++ t)) same,
                trailing_newlines-separator_before (c ∷ before) (trailing_newlines middle)
                    (λ z. cc z),
              )))
