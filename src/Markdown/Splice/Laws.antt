-- ===== src/Markdown/Splice/Laws.antt =====
-- A splice replaces the bytes of its span and keeps every other byte.
use burlmd.Prelude.{
  ℕ, ◌+◌, ◌≤◌, ◌≡◌, refl, sym, ap, ◌∙◌, ◌≢◌, ◌↔◌, inl, inr, Bool, true, false, Option, none, some,
  ◌++◌, append_assoc, arith, ltb, Bool-cases, Option-cases, if◌then◌else◌,
}
use burlmd.Prelude.Text.{Text}
use burlmd.Prelude.Bytes.{
  Range, byte_len, byte_len-append, is_char_boundary, is_char_boundary-append, slice_to, slice_from,
  slice_to-append, slice_from-append, boundary_split, get, get-eq-some, prefix_of_prefix,
}
use burlmd.Markdown.Spans.{BlockPath, RenderedRange, BlockSpan, SpanMap, block}
use burlmd.Markdown.Splice.{
  SpliceError, invalid_source_range, Spliced, ok, err, splice_source, resolve_range, extract_range,
  splice_range, splice_block, reparse, SplicedNote, ok_or, ◌>>=◌,
}

-- A span of a text, between two of its character boundaries.
pub record IsSpan (source : Text) (span : Range) : Type 0 where
  pub before : Text
  pub inside : Text
  pub after : Text
  pub text : source ≡ before ++ (inside ++ after)
  pub starts : byte_len before ≡ span.start
  pub stops : byte_len before + byte_len inside ≡ span.stop

ltb-false : (a b : ℕ) → b ≤ a → ltb a b ≡ false
ltb-false a b h = ground arith

ltb-false→le : (a b : ℕ) → ltb a b ≡ false → b ≤ a
ltb-false→le a b h = ground arith

module _ (source : Text) (span : Range) (s : IsSpan source span) where
  open s use {before, inside, after, text, starts, stops}

  regrouped : source ≡ (before ++ inside) ++ after
  regrouped = text ∙ sym (append_assoc before inside after)

  stops_whole : byte_len (before ++ inside) ≡ span.stop
  stops_whole = byte_len-append before inside ∙ stops

  stop_in_source : span.stop ≤ byte_len source
  stop_in_source =
      rw (regrouped, byte_len-append (before ++ inside) after) (omega (arith, stops_whole))

  start_boundary : is_char_boundary source span.start ≡ true
  start_boundary = rw (text, ← starts) (is_char_boundary-append before (inside ++ after))

  stop_boundary : is_char_boundary source span.stop ≡ true
  stop_boundary = rw (regrouped, ← stops_whole) (is_char_boundary-append (before ++ inside) after)

  slice_before : slice_to source span.start ≡ before
  slice_before = rw (text, ← starts) (slice_to-append before (inside ++ after))

  slice_after : slice_from source span.stop ≡ after
  slice_after = rw (regrouped, ← stops_whole) (slice_from-append (before ++ inside) after)

  pub splice_source-IsSpan :
      (replacement : Text)
      → splice_source source span replacement ≡ ok (before ++ (replacement ++ after))
  unfolding splice_source
  splice_source-IsSpan replacement = rw (
    ltb-false span.stop span.start (omega (arith, stops, starts)),
    ltb-false (byte_len source) span.stop stop_in_source,
    start_boundary,
    stop_boundary,
    slice_before,
    slice_after,
  )

-- The two boundaries of a span that passes the tests cut one text.
two_boundaries :
    (source : Text) (span : Range)
    → span.start ≤ span.stop
    → is_char_boundary source span.start ≡ true
    → is_char_boundary source span.stop ≡ true
    → IsSpan source span
two_boundaries source span ordered b1 b2 =
    let (a, rest, e1, l1) = boundary_split source span.start b1 in
    let (c, after, e2, l2) = boundary_split source span.stop b2 in
    let (m, e) = prefix_of_prefix a rest c after (sym e1 ∙ e2) (omega (arith, l1, l2)) in
    record {
      before = a;
      inside = m;
      after = after;
      text = e2 ∙ rw e (append_assoc a m after);
      starts = l1;
      stops = sym (byte_len-append a m) ∙ ap byte_len (sym e) ∙ l2;
    }

IsSpan-splice_source :
    (source : Text) (span : Range) (replacement : Text) {out : Text}
    → splice_source source span replacement ≡ ok out
    → IsSpan source span
unfolding splice_source
IsSpan-splice_source source span replacement {out} h =
    elim (Bool-cases (ltb span.stop span.start)) [
      | inl e ↦ cc (rw e at h)
      | inr e ↦ elim (Bool-cases (ltb (byte_len source) span.stop)) [
        | inl f ↦ cc (rw (e, f) at h)
        | inr f ↦ elim (Bool-cases (is_char_boundary source span.start)) [
          | inr g ↦ cc (rw (e, f, g) at h)
          | inl g ↦ elim (Bool-cases (is_char_boundary source span.stop)) [
            | inr k ↦ cc (rw (e, f, g, k) at h)
            | inl k ↦ two_boundaries source span (ltb-false→le _ _ e) g k
          ]
        ]
      ]
    ]

-- A splice succeeds exactly on a span between two character boundaries of the source, and its
-- result is the source with that span's text replaced: what stands before and after it is kept byte
-- for byte.
pub splice_source_iff :
    (source : Text) (span : Range) (replacement out : Text)
    → (splice_source source span replacement ≡ ok out)
      ↔ ((s : IsSpan source span) × (out ≡ s.before ++ (replacement ++ s.after)))
splice_source_iff source span replacement out = (
  λ h.
      let s = IsSpan-splice_source source span replacement h in
      (s, ok_inj (sym h ∙ splice_source-IsSpan source span s replacement)),
  λ (s, e). splice_source-IsSpan source span s replacement ∙ ap ok (sym e),
)
  where
    ok_inj : {a b : Text} → ok a ≡ ok b → a ≡ b
    ok_inj e = cc

if_refused :
    (test : Bool) (out : Text) (e : SpliceError)
    → (if test then err e else ok out) ≢ ok out
    → (if test then err e else ok out) ≡ err e
if_refused true out e n = refl
if_refused false out e n = absurd (n refl)

-- On anything but a span between two character boundaries of the source the splice is refused, with
-- an error that names the span.
pub splice_source_refuses :
    (source : Text) (span : Range) (replacement : Text)
    → ¬ IsSpan source span
    → splice_source source span replacement ≡ err (invalid_source_range span)
unfolding splice_source
splice_source_refuses source span replacement n =
    if_refused _ _ _ (λ h. n (IsSpan-splice_source source span replacement h))

pub get-IsSpan :
    (source : Text) (span : Range) {t : Text}
    → get source span ≡ some t
    → (s : IsSpan source span) × (s.inside ≡ t)
get-IsSpan source span {t} h =
    let (a, b, text, starts, stops) = get-eq-some source span h in
    (
      record { before = a; inside = t; after = b; text = text; starts = starts; stops = stops },
      refl,
    )

splice-get :
    (source : Text) (span : Range) {t : Text}
    → get source span ≡ some t
    → splice_source source span t ≡ ok source
splice-get source span {t} h =
    let (s, inside) = get-IsSpan source span h in
    splice_source-IsSpan source span s t
    ∙ ap ok (ap (λ m. s.before ++ (m ++ s.after)) (sym inside) ∙ sym s.text)

extract_range-get :
    (source : Text) (spans : SpanMap) (range : RenderedRange) {t : Text}
    → extract_range source spans range ≡ ok t
    → (r : Range) × (resolve_range source spans range ≡ ok r) × (get source r ≡ some t)
unfolding extract_range
extract_range-get source spans range {t} h = resolved (resolve_range source spans range) refl h
  where
    resolved :
        (x : Spliced Range)
        → resolve_range source spans range ≡ x
        → (x >>= λ r. ok_or (get source r) (invalid_source_range r)) ≡ ok t
        → (r : Range) × (resolve_range source spans range ≡ ok r) × (get source r ≡ some t)
    resolved (err e) p q = cc
    resolved (ok r) p q = (r, p, found (get source r) q)
      where
        found : (o : Option Text) → ok_or o (invalid_source_range r) ≡ ok t → o ≡ some t
        found none f = cc
        found (some u) f = cc

-- The text that a selection copies, put in the place of that selection, gives the source back,
-- whatever the parser makes of it.
pub extract-splice_range :
    {Ast : Type 0} (parse_note : Text → Text → Ast × SpanMap)
    → (source : Text) (spans : SpanMap) (range : RenderedRange) (containing_dir : Text) {t : Text}
    → extract_range source spans range ≡ ok t
    → splice_range parse_note source spans range t containing_dir
      ≡ ok (reparse parse_note source containing_dir)
unfolding splice_range
extract-splice_range parse_note source spans range containing_dir {t} h =
    let (r, resolved, text) = extract_range-get source spans range h in
    rw (resolved, splice-get source r text)

splice_block-reparse :
    {Ast : Type 0} (parse_note : Text → Text → Ast × SpanMap) (containing_dir : Text)
    (x : Spliced Text) {note : SplicedNote parse_note}
    → (x >>= λ out. ok (reparse parse_note out containing_dir)) ≡ ok note
    → (out : Text) × (x ≡ ok out) × (note ≡ reparse parse_note out containing_dir)
splice_block-reparse parse_note containing_dir (err e) h = cc
splice_block-reparse parse_note containing_dir (ok out) {note} h = (out, refl, sym (ok_inj h))
  where
    ok_inj : {a b : SplicedNote parse_note} → ok a ≡ ok b → a ≡ b
    ok_inj e = cc

-- A committed edit of a Block succeeds exactly if there is such a Block and its span is a span of
-- the source; then it returns the source with that span's text replaced, and with it the AST and
-- the span map that a parse of this very text gives.
pub splice_block_iff :
    {Ast : Type 0} (parse_note : Text → Text → Ast × SpanMap) (source : Text) (spans : SpanMap)
    (path : BlockPath) (replacement containing_dir : Text) (note : SplicedNote parse_note)
    → (splice_block parse_note source spans path replacement containing_dir ≡ ok note) ↔ (
        (b : BlockSpan) × (s : IsSpan source b.source) × (block spans path ≡ some b)
        × (note ≡ reparse parse_note (s.before ++ (replacement ++ s.after)) containing_dir))
unfolding splice_block
splice_block_iff parse_note source spans path replacement containing_dir note = (
  λ h. elim (Option-cases (block spans path)) [
    | inl e ↦ cc (rw e at h)
    | inr (b, e) ↦
        let (out, done, same) =
          splice_block-reparse parse_note containing_dir (splice_source source b.source replacement)
            (rw e at h) in
        let (s, text) = (splice_source_iff source b.source replacement out).0 done in
        (b, s, e, same ∙ ap (λ t. reparse parse_note t containing_dir) text)
  ],
  λ (b, s, e, same). rw (e, splice_source-IsSpan source b.source s replacement, same),
)
