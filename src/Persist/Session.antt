-- ===== src/Persist/Session.antt =====
-- rust/src/workspace/persist.rs: the writes of tier 1 (the draft row) and of tier 2 (the file). Where
-- the code releases the state lock between two critical sections, each section is a definition. An
-- answer of the database or the file system is an argument: `none` is success.
use burlmd.Prelude.{
  ℕ, ◌≡◌, true, false, not, ◌||◌, Option, none, some, [], ◌++◌, ltb, leb, if◌then◌else◌,
}
use burlmd.Prelude.Text.{Text, codes, text_eq}
use burlmd.Prelude.Bytes.{Range, get, byte_len, is_char_boundary, slice_to, slice_from}
use burlmd.Okf.ConceptId.{concept_id_to_path}
use burlmd.Okf.Links.{last_segment}
use burlmd.Markdown.Spans.{BlockPath, SpanMap}
use burlmd.Workspace.Title.{trim}
use burlmd.Error.{AppError, parse_error, Result, ok, err}
use burlmd.Persist.{Frontmatter, Core, NoteMetadata, DraftRow, Note}

-- `Option::ok_or`.
abbrev pub ok_or {ℓ} : {A : Type ℓ} → Option A → AppError → Result A
ok_or none e = err e
ok_or (some a) e = ok a

pub ok_or-eq-ok : {A : Type 0} (o : Option A) (e : AppError) {a : A} → ok_or o e ≡ ok a → o ≡ some a
ok_or-eq-ok none e h = cc h
ok_or-eq-ok (some a) e h = cc h

-- `String::replace_range`.
unfoldable pub replace_range : Text → Range → Text → Text
replace_range source span new = slice_to source span.start ++ (new ++ slice_from source span.stop)

-- `write_draft`: the row only goes forward.
unfoldable pub upsert : ℕ → Text → ℕ → Option DraftRow → DraftRow
upsert now source seq none = record { raw_markdown = source; edit_seq = seq; updated_at = now }
upsert now source seq (some row) =
    if ltb row.edit_seq seq
    then record { raw_markdown = source; edit_seq = seq; updated_at = now }
    else row

-- `clear_draft_through`: the row goes if it is not newer.
unfoldable pub cleared : ℕ → Option DraftRow → Option DraftRow
cleared seq none = none
cleared seq (some row) = if leb row.edit_seq seq then none else some row

unfoldable pub write_draft : ℕ → Text → ℕ → Note → Note
write_draft now source seq n = record n {
  stores = record (n.stores) { draft = some (upsert now source seq n.stores.draft) };
}

unfoldable pub clear_draft_through : ℕ → Note → Note
clear_draft_through seq n = record n {
  stores = record (n.stores) { draft = cleared seq n.stores.draft };
}

unfoldable pub arm_idle_timer : Note → Note
arm_idle_timer n = record n { armed = true }

-- `frontmatter.title`, trimmed, unless nothing is left of it.
title_or : Option Text → Text → Text
title_or none fallback = fallback
title_or (some t) fallback = if text_eq (trim t) [] then fallback else trim t

no_frontmatter : Frontmatter
no_frontmatter = record { title = none; is_conformant = false }

module _ (core : Core) where
  pub not_addressable : Range → AppError
  not_addressable span = parse_error (
      codes "source range "
      ++ (core.decimal span.start
          ++ (codes ".." ++ (core.decimal span.stop ++ codes " is not addressable in this Note"))))

  unfoldable pub check_span : Text → Range → Result {0} Unit
  check_span source span =
      if ltb span.stop span.start
        || (ltb (byte_len source) span.stop
            || (not (is_char_boundary source span.start)
                || not (is_char_boundary source span.stop)))
      then err (not_addressable span)
      else ok tt

  pub no_block : BlockPath → AppError
  no_block path = parse_error (codes "no Block at block_path " ++ core.debug_path path)

  frontmatter_of : Text → SpanMap → Frontmatter
  unfolding no_frontmatter
  frontmatter_of source spans = elim spans.frontmatter [
    | none ↦ no_frontmatter
    | some span ↦ elim (get source span) [
      | none ↦ no_frontmatter
      | some raw ↦ core.read_frontmatter raw
    ]
  ]

  unfoldable pub derive_metadata : Text → Text → SpanMap → ℕ → NoteMetadata
  unfolding frontmatter_of title_or
  derive_metadata note_id source spans last_modified =
      let frontmatter = frontmatter_of source spans in
      record {
        id = note_id;
        path = concept_id_to_path note_id;
        title = title_or frontmatter.title (last_segment note_id);
        last_modified = last_modified;
        snippet = none;
        okf_conformant = frontmatter.is_conformant;
      }
