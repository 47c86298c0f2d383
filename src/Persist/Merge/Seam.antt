-- ===== src/Persist/Merge/Seam.antt =====
-- What a merge cuts out: one gap before the Block.
use burlmd.Prelude.{
  ℕ, ◌≡◌, sym, ap, subst, ◌∙◌, if◌then◌else◌, ◌⊎◌, inl, inr, Bool, true, false, Option, none, some,
  [], ◌∷◌, ◌++◌, Bool-cases, Option-cases, some_inj,
}
use burlmd.Prelude.Text.{Text, codes, text_eq, text_eq→eq}
use burlmd.Prelude.Bytes.{Range, byte_len, byte_len-append, get, get-at}
use burlmd.Error.{Result, ok, ◌>>=◌, >>=-eq-ok, ok_inj}
use burlmd.Workspace.Title.{trim}
use burlmd.Prelude.Split.{Free, rsplit_once, rsplit_once-eq-none, rsplit_once-eq-some}
use burlmd.Prelude.Bytes.{get-eq-some}
use burlmd.Persist.Seams.Laws.{newline_style-cases}
use burlmd.Prelude.{◌+◌, arith, suc, ap₂, append_assoc}
use burlmd.Persist.Blocks.Insert.{empty_text}
use burlmd.Markdown.Ast.{Nodes}
use burlmd.Markdown.Spans.{BlockPath, BlockSpan, SpanMap}
use burlmd.Markdown.Splice.{splice_source}
use burlmd.Markdown.Splice.Laws.{splice_source_iff}
use burlmd.Persist.{Core}
use burlmd.Persist.Session.{ok_or, ok_or-eq-ok, not_addressable}
use burlmd.Persist.Seams.{newline_style}
use burlmd.Persist.Tree.{nearest_list_item}
use burlmd.Persist.Leaves.{
  block_span, editable_live_path, line_prefix_before, previous_block_end, previous_editable_leaf,
  first_editable_leaf, path_error,
}
use burlmd.Persist.Blocks.{map_splice_error}
use burlmd.Persist.Blocks.Insert.{map_splice_error-eq-ok}
use burlmd.Persist.Merge.{
  Focus, between, gap_of, close_gap, merge_seam, merge_item, merge_list_item, merge_container,
  merge_blank, merge_edit, no_leaf,
}

module _ (core : Core) where
  -- What stands before a text on its own line.
  line_prefix_before-Free :
      (source : Text) (at : ℕ) {prefix : Text}
      → line_prefix_before core source at ≡ ok prefix
      → Free b'\n' prefix
  unfolding line_prefix_before
  line_prefix_before-Free source at {prefix} h =
      elim (Option-cases (get source (record { start = 0; stop = at }))) [
        | inl e ↦ cc (rw (e, line_prefix_before) at h)
        | inr (before, e) ↦ elim (Option-cases (rsplit_once b'\n' before)) [
          | inl n ↦
              subst (Free b'\n')
                (some_inj (
                  sym e
                  ∙ ok_or-eq-ok (get source (record { start = 0; stop = at })) _
                      (rw (e, n, line_prefix_before) at h)))
                (rsplit_once-eq-none b'\n' before n)
          | inr ((lines, r), n) ↦
              let (spelled, free) = rsplit_once-eq-some b'\n' before n in
              let (a, b, text, starts, stops) =
                get-eq-some source (record { start = 0; stop = at }) e in
              let empty : a ≡ [] = empty_text a starts in
              let whole : source ≡ (lines ++ b'\n' ∷ []) ++ (r ++ b) =
                text
                ∙ (ap₂ (λ x y. x ++ (y ++ b)) empty
                      (spelled ∙ sym (append_assoc lines (b'\n' ∷ []) r))
                    ∙ append_assoc (lines ++ b'\n' ∷ []) r b) in
              let width : byte_len (lines ++ b'\n' ∷ []) ≡ suc (byte_len lines) =
                byte_len-append lines (b'\n' ∷ []) ∙ unfold byte_len in omega arith in
              let total : byte_len before ≡ byte_len (lines ++ b'\n' ∷ []) + byte_len r =
                ap byte_len (spelled ∙ sym (append_assoc lines (b'\n' ∷ []) r))
                ∙ byte_len-append (lines ++ b'\n' ∷ []) r in
              let here : get source (record { start = suc (byte_len lines); stop = at }) ≡ some r =
                get-at (lines ++ b'\n' ∷ []) r b whole width
                  (omega (arith, starts, stops, total)) in
              subst (Free b'\n')
                (some_inj (
                  sym here
                  ∙ ok_or-eq-ok (get source (record { start = suc (byte_len lines); stop = at })) _
                      (rw (e, n, line_prefix_before) at h)))
                free
        ]
      ]

  -- A gap between two Blocks that is blank source, or one line end and the beginning of the line
  -- that the second Block stands on.
  abbrev pub IsSeam : Text → Type 0
  IsSeam gap =
      (trim gap ≡ [])
      ⊎ ((prefix : Text) × Free b'\n' prefix
          × ((gap ≡ b'\n' ∷ prefix) ⊎ (gap ≡ b'\r' ∷ b'\n' ∷ prefix)))

  -- The source without a gap that ends where the Block starts.
  pub record Cut (working : Text) (span : Range) (result : Text) : Type 0 where
    pub before : Text
    pub gap : Text
    pub after : Text
    pub split : working ≡ before ++ (gap ++ after)
    pub ends : byte_len (before ++ gap) ≡ span.start
    pub made : result ≡ before ++ after
    pub seam : IsSeam gap

  close_gap-Cut :
      (working : Text) (span : Range) (from : ℕ) (previous : BlockSpan) (gap : Text) {result : Text}
      {focus : Focus}
      → gap_of core working (between from span.start) ≡ ok gap
      → IsSeam gap
      → close_gap core working (between from span.start) previous ≡ ok (result, focus)
      → Cut working span result
  unfolding gap_of close_gap
  close_gap-Cut working span from previous gap {result} found seam h =
      let range = between from span.start in
      let (text, h1, _) =
        >>=-eq-ok _ (ok_or (get working previous.source) (not_addressable core previous.source))
          h in
      let (spliced, h2, cut) =
        >>=-eq-ok _ (map_splice_error core (splice_source working range [])) h1 in
      let (s, e) =
        (splice_source_iff working range [] spliced).0
          (map_splice_error-eq-ok core (splice_source working range []) cut) in
      let same : s.inside ≡ gap = some_inj (
        sym (get-at s.before s.inside s.after {s = working} {r = range} s.text s.starts s.stops)
        ∙ ok_or-eq-ok (get working range) (not_addressable core range) found) in
      record {
        before = s.before;
        gap = s.inside;
        after = s.after;
        split = s.text;
        ends = byte_len-append s.before s.inside ∙ s.stops;
        made = ap (λ (q : Text × Focus). q.0) (sym (ok_inj h2)) ∙ e;
        seam = subst IsSeam (sym same) seam;
      }

  -- A merge of one kind, if it applies.
  abbrev Merges : Text → Range → Result (Option (Text × Focus)) → Type 0
  Merges working span o =
      (result : Text) (focus : Focus) → o ≡ ok (some (result, focus)) → Cut working span result

  merge_seam-Merges :
      (working : Text) (span : Range) (previous : BlockSpan)
      → Merges working span (merge_seam core working span previous)
  unfolding merge_seam
  merge_seam-Merges working span previous result focus h =
      let (prefix, h1, stands) = >>=-eq-ok _ (line_prefix_before core working span.start) h in
      let (gap, h2, found) =
        >>=-eq-ok _ (gap_of core working (between previous.source.stop span.start)) h1 in
      elim (Bool-cases (text_eq gap (newline_style working ++ prefix))) [
        | inr other ↦ cc (rw other at h2)
        | inl exact ↦
            let spelled : gap ≡ newline_style working ++ prefix = text_eq→eq _ _ exact in
            let by_style : (gap ≡ b'\n' ∷ prefix) ⊎ (gap ≡ b'\r' ∷ b'\n' ∷ prefix) =
              elim (newline_style-cases working) [
                | inl e ↦ inl (spelled ∙ ap (λ t. t ++ prefix) e)
                | inr e ↦ inr (spelled ∙ ap (λ t. t ++ prefix) e)
              ] in
            let (merged, h3, closed) =
              >>=-eq-ok _
                (close_gap core working (between previous.source.stop span.start) previous)
                (rw exact at h2) in
            close_gap-Cut working span previous.source.stop previous gap found
              (inr (prefix, line_prefix_before-Free working span.start stands, by_style))
              (closed ∙ ap ok (some_inj (ok_inj h3)))
      ]

  -- A merge under a test and after a search.
  guarded-Merges :
      (working : Text) (span : Range) (test : Bool) (found : Result BlockSpan)
      → Merges working span
          (if test then (found >>= λ previous. merge_seam core working span previous) else ok none)
  guarded-Merges working span false found result focus h = cc h
  guarded-Merges working span true found result focus h =
      let (previous, h1, _) = >>=-eq-ok _ found h in
      merge_seam-Merges working span previous result focus h1

  merge_list_item-Merges :
      (working : Text) (spans : SpanMap) (ast : Nodes) (live : BlockPath) (span : Range)
      → Merges working span (merge_list_item core working spans ast live span)
  unfolding merge_list_item merge_item
  merge_list_item-Merges working spans ast live span result focus h =
      elim (Option-cases (nearest_list_item ast live)) [
        | inl outside ↦ cc (rw (outside, merge_list_item) at h)
        | inr ((list_path, item_index), inside) ↦
            let item = list_path ++ item_index ∷ [] in
            let (first, h1, _) =
              >>=-eq-ok _ (ok_or (first_editable_leaf spans item) (no_leaf core item))
                (rw (inside, merge_list_item, merge_item) at h) in
            guarded-Merges working span _ _ result focus h1
      ]

  merge_container-Merges :
      (working : Text) (spans : SpanMap) (ast : Nodes) (live : BlockPath) (span : Range)
      → Merges working span (merge_container core working spans ast live span)
  unfolding merge_container
  merge_container-Merges working spans ast [] span result focus h = cc h
  merge_container-Merges working spans ast (top ∷ below) span result focus h =
      guarded-Merges working span _ _ result focus h

  -- The first Block has nothing to merge with.
  abbrev pub IsFirst : Text → SpanMap → BlockPath → Range → Text → Focus → Type 0
  IsFirst working spans live span result focus =
      (previous_block_end spans span ≡ none) × (result ≡ working) × (focus ≡ (live, 0))

  merge_blank-cases :
      (working : Text) (spans : SpanMap) (live : BlockPath) (span : Range) (result : Text)
      (focus : Focus)
      → merge_blank core working spans live span ≡ ok (result, focus)
      → IsFirst working spans live span result focus ⊎ Cut working span result
  unfolding merge_blank
  merge_blank-cases working spans live span result focus h =
      elim (Option-cases (previous_block_end spans span)) [
        | inl first ↦
            let same = ok_inj (rw (first, merge_blank) at h) in
            inl (
              first,
              ap (λ (q : Text × Focus). q.0) (sym same),
              ap (λ (q : Text × Focus). q.1) (sym same),
            )
        | inr (previous_end, there) ↦
            let (previous, h1, _) =
              >>=-eq-ok _
                (ok_or (previous_editable_leaf spans span) (
                  path_error core (codes "block_path ") live
                    (codes " has no editable predecessor")))
                (rw (there, merge_blank) at h) in
            let (gap, h2, found) =
              >>=-eq-ok _ (gap_of core working (between previous_end span.start)) h1 in
            elim (Bool-cases (text_eq (trim gap) [])) [
              | inr hidden ↦ cc (rw hidden at h2)
              | inl blank ↦ inr (
                  close_gap-Cut working span previous_end previous gap found
                    (inl (text_eq→eq _ _ blank)) (rw blank at h2))
            ]
      ]

  -- The kinds in turn.
  in_turn :
      (working : Text) (spans : SpanMap) (ast : Nodes) (live : BlockPath) (span : Range)
      (result : Text) (focus : Focus) (by_item : Option (Text × Focus))
      → merge_list_item core working spans ast live span ≡ ok by_item
      → ((elim by_item [
        | some merged ↦ ok (some merged)
        | none ↦ merge_container core working spans ast live span
      ])
          >>= λ by_container. elim by_container [
            | some merged ↦ ok merged
            | none ↦ merge_blank core working spans live span
          ])
        ≡ ok (result, focus)
      → IsFirst working spans live span result focus ⊎ Cut working span result
  in_turn working spans ast live span result focus (some merged) item h = inr (
      merge_list_item-Merges working spans ast live span result focus
        (item ∙ ap (λ m. ok (some m)) (ok_inj h)))
  in_turn working spans ast live span result focus none item h =
      let (by_container, h1, container) =
        >>=-eq-ok _ (merge_container core working spans ast live span) h in
      last by_container container h1
    where
      last :
          (by_container : Option (Text × Focus))
          → merge_container core working spans ast live span ≡ ok by_container
          → (elim by_container [
            | some merged ↦ ok merged
            | none ↦ merge_blank core working spans live span
          ])
            ≡ ok (result, focus)
          → IsFirst working spans live span result focus ⊎ Cut working span result
      last (some merged) container h1 = inr (
          merge_container-Merges working spans ast live span result focus
            (container ∙ ap (λ m. ok (some m)) (ok_inj h1)))
      last none container h1 = merge_blank-cases working spans live span result focus h1

  -- A merge that is accepted is of the Block's live leaf. If no Block is before it, the source stays
  -- as it is and the caret is at the start of the leaf; or the source loses one gap, which ends where
  -- the leaf starts, and nothing else, and the gap is blank or is one line end and the beginning of
  -- the leaf's own line.
  pub merge_edit-Cut :
      (path : BlockPath) (working : Text) (spans retained : SpanMap) (ast : Nodes) (result : Text)
      (focus : Focus)
      → merge_edit core path working spans ast retained ≡ ok (result, focus)
      → (live : BlockPath) × (span : Range) × (editable_live_path core spans retained path
          ≡ ok live)
        × (block_span core spans live ≡ ok span)
        × (IsFirst working spans live span result focus ⊎ Cut working span result)
  unfolding merge_edit
  merge_edit-Cut path working spans retained ast result focus h =
      let (live, h1, found) = >>=-eq-ok _ (editable_live_path core spans retained path) h in
      let (span, h2, at) = >>=-eq-ok _ (block_span core spans live) h1 in
      let (by_item, h3, item) = >>=-eq-ok _ (merge_list_item core working spans ast live span) h2 in
      (live, span, found, at, in_turn working spans ast live span result focus by_item item h3)
