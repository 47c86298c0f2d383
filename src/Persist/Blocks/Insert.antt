-- ===== src/Persist/Blocks/Insert.antt =====
-- What an insertion leaves: the Note's own bytes, and a new Block that is apart from its neighbours.
use burlmd.Prelude.{
  Option, none, some, subst, ◌-◌, ◌≤◌, ◌≡◌, refl, sym, ap, ◌∙◌, ◌⊎◌, inl, inr, [], ◌∷◌, ◌++◌,
  Bool-cases, some_inj, arith,
}
use burlmd.Prelude.Text.{Text, contains}
use burlmd.Prelude.Bytes.{byte_len, get, get-at}
use burlmd.Error.{ok, >>=-eq-ok, ok_inj}
use burlmd.Markdown.Ast.{Nodes}
use burlmd.Markdown.Spans.{BlockPath, BlockSpan, SpanMap, block}
use burlmd.Markdown.Splice
use burlmd.Markdown.Splice.{Spliced, splice_source}
use burlmd.Markdown.Splice.Laws.{splice_source_iff}
use burlmd.Persist.{Core}
use burlmd.Persist.Session.{ok_or, ok_or-eq-ok}
use burlmd.Persist.Seams.{
  block_separator_newlines, trailing_newlines, newline_style, repeat, separator_before,
}
use burlmd.Persist.Seams.Laws.{
  IsLineEnds, IsLineEnds-repeat, separator_before-IsLineEnds, trailing_newlines-repeat,
  trailing_newlines-separator_before,
}
use burlmd.Persist.Seams.Ends.{EndsIn, trailing_newlines-EndsIn}
use burlmd.Persist.Blocks.{
  up_to, at_point, insertion_point, required_newlines, seam_newline, map_splice_error,
  unaddressable_offset, insert_block_edit,
}

pub empty_text : (t : Text) → byte_len t ≡ 0 → t ≡ []
unfolding byte_len
empty_text [] h = refl
empty_text (c ∷ t) h = absurd (ground arith)

module _ (core : Core) where
  pub map_splice_error-eq-ok :
      {A : Type 0} (o : Spliced A) {a : A} → map_splice_error core o ≡ ok a → o ≡ Splice.ok a
  unfolding map_splice_error
  map_splice_error-eq-ok (Splice.ok a) h = ap Splice.ok (ok_inj h)
  map_splice_error-eq-ok (Splice.err e) h = cc h

  -- Where the new Block goes, and the line ends that it gets: at the end of the Note, one newline; or
  -- where a Block starts, and then a blank line.
  abbrev pub IsPlaced : BlockPath → Text → SpanMap → Text → Text → Type 0
  IsPlaced path working spans before text =
      ((block spans path ≡ none) × (byte_len before ≡ byte_len working) × EndsIn 1 text)
      ⊎ ((b : BlockSpan) × (block spans path ≡ some b)
          × (byte_len before ≡ b.source.start)
          × EndsIn 2 text)

  -- The new source has every byte of the old on the two sides of the insertion.
  pub record Inserted (path : BlockPath) (source working : Text) (spans : SpanMap) (result : Text)
      : Type 0 where
    pub before : Text
    pub after : Text
    pub lead : Text
    pub trail : Text
    pub split : working ≡ before ++ after
    pub made : result ≡ before ++ ((lead ++ (source ++ trail)) ++ after)
    pub lead_ends : IsLineEnds lead
    pub trail_ends : IsLineEnds trail
    pub apart : (before ≡ []) ⊎ EndsIn 2 (before ++ lead)
    pub placed : IsPlaced path working spans before (source ++ trail)

  seam_style :
      (before working : Text) → (t : Text) × (seam_newline before working ≡ newline_style t)
  unfolding seam_newline
  seam_style before working = elim (Bool-cases (contains b'\n' before)) [
    | inl e ↦ (before, rw (e, seam_newline) refl)
    | inr e ↦ (working, rw (e, seam_newline) refl)
  ]

  -- An insertion that is accepted keeps the Note's bytes as they are, before and after it, and what
  -- it adds is a Block of its own: a blank line is before it, unless nothing is, and a blank line
  -- ends it before a following Block, or one line end at the end of the Note. It stands where the
  -- Block of the path starts, or at the end of the Note if there is no such Block.
  pub insert_block_edit-Inserted :
      (path : BlockPath) (source working : Text) (spans retained : SpanMap) (ast : Nodes)
      (result : Text)
      → insert_block_edit core path source working spans ast retained ≡ ok (result, tt)
      → Inserted path source working spans result
  unfolding insert_block_edit
  insert_block_edit-Inserted path source working spans retained ast result h =
      let target = block spans path in
      let at = insertion_point target working in
      let (before, h1, got) =
        >>=-eq-ok _ (ok_or (get working (up_to at)) (unaddressable_offset core at)) h in
      let newline = seam_newline before working in
      let trail = repeat newline (required_newlines target - trailing_newlines source) in
      let lead = separator_before before block_separator_newlines in
      let text = lead ++ (source ++ trail) in
      let (out, h2, spliced) =
        >>=-eq-ok _ (map_splice_error core (splice_source working (at_point at) text)) h1 in
      let (s, e) =
        (splice_source_iff working (at_point at) text out).0
          (map_splice_error-eq-ok (splice_source working (at_point at) text) spliced) in
      let nothing : s.inside ≡ [] = empty_text s.inside (omega (arith, s.starts, s.stops)) in
      let whole : working ≡ s.before ++ s.after =
        s.text ∙ ap (λ t. s.before ++ (t ++ s.after)) nothing in
      let same : before ≡ s.before = some_inj (
        sym (ok_or-eq-ok (get working (up_to at)) (unaddressable_offset core at) got)
        ∙ get-at [] s.before s.after whole (unfold byte_len in refl)
            (unfold byte_len in omega (arith, s.starts))) in
      let (style, spelled) = seam_style before working in
      record {
        before = before;
        after = s.after;
        lead = lead;
        trail = trail;
        split = whole ∙ ap (λ t. t ++ s.after) (sym same);
        made =
            ap (λ (q : Text × Unit). q.0) (sym (ok_inj h2))
            ∙ (e ∙ ap (λ t. t ++ (text ++ s.after)) (sym same));
        lead_ends = separator_before-IsLineEnds before block_separator_newlines;
        trail_ends =
            subst (λ t. IsLineEnds (repeat t (required_newlines target - trailing_newlines source)))
              (sym spelled)
              (IsLineEnds-repeat style (required_newlines target - trailing_newlines source));
        apart = by_before before;
        placed = by_target target refl before (ap byte_len same ∙ s.starts) (source ++ trail) (
            rw (spelled) (
              omega (
                arith,
                trailing_newlines-repeat source style
                    (required_newlines target - trailing_newlines source),
              )));
      }
    where
      by_before :
          (b : Text) → (b ≡ []) ⊎ EndsIn 2 (b ++ separator_before b block_separator_newlines)
      by_before [] = inl refl
      by_before (c ∷ b) = inr (
          trailing_newlines-EndsIn 2 _ (
            omega (
              arith,
              trailing_newlines-separator_before (c ∷ b) block_separator_newlines (λ e. cc e),
            )))

      by_target :
          (target : Option BlockSpan)
          → block spans path ≡ target
          → (before : Text) → byte_len before ≡ insertion_point target working
          → (text : Text) → required_newlines target ≤ trailing_newlines text
          → IsPlaced path working spans before text
      by_target none found before point text ended =
          inl (found, point, trailing_newlines-EndsIn 1 text ended)
      by_target (some b) found before point text ended =
          inr (b, found, point, trailing_newlines-EndsIn 2 text ended)
