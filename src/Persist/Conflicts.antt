-- ===== src/Persist/Conflicts.antt =====
-- rust/src/workspace/persist.rs: the conflict regions of a merged file as suggestions.
use burlmd.Prelude.{
  ℕ, Bool, true, false, not, ◌&&◌, Option, none, some, List, [], ◌∷◌, ◌++◌, ◌==◌, if◌then◌else◌,
}
use burlmd.Prelude.Text.{Text, codes, text_eq, starts_with}
use burlmd.Markdown.Ast.{suggestion, Nodes, no_nodes, node, OptionalNodes, absent, present}
use burlmd.Workspace.Title.{contains_text, trim}
use burlmd.Persist.{Core}
use burlmd.Persist.Seams.{trim_line_end}

abbrev pub conflict_start : Text
conflict_start = codes "<<<<<<<"

abbrev pub conflict_base : Text
conflict_base = codes "|||||||"

abbrev pub conflict_middle : Text
conflict_middle = codes "======="

abbrev pub conflict_end : Text
conflict_end = codes ">>>>>>>"

-- The line that is first continued by a character of it.
onto_first : ℕ → List Text → List Text
onto_first c [] = (c ∷ []) ∷ []
onto_first c (line ∷ lines) = (c ∷ line) ∷ lines

-- `source.split_inclusive('\n')`.
unfoldable pub lines_inclusive : Text → List Text
unfolding onto_first
lines_inclusive [] = []
lines_inclusive (c ∷ s) =
    let rest = lines_inclusive s in if c == b'\n' then (c ∷ []) ∷ rest else onto_first c rest

-- `nodes.extend(more)`.
unfoldable pub extend : Nodes → Nodes → Nodes
extend no_nodes more = more
extend (node n rest) more = node n (extend rest more)

pub data Section : Type 0 where
  plain_text here_side base_side incoming_side : Section

pub data Segment : Type 0 where
  head_segment interior_segment : Segment

pub record ConflictScan : Type 0 where
  pub nodes : Nodes
  pub plain : Text
  pub here : Text
  pub base : Option Text
  pub incoming : Text
  pub section : Section
  pub saw_conflict : Bool

unfoldable pub scan_start : ConflictScan
scan_start = record {
  nodes = no_nodes;
  plain = [];
  here = [];
  base = none;
  incoming = [];
  section = plain_text;
  saw_conflict = false;
}

-- `text.push_str(line)` on a base that is there.
push_base : Option Text → Text → Option Text
push_base none line = none
push_base (some text) line = some (text ++ line)

module _ (core : Core) (containing_dir : Text) where
  unfoldable pub parse_markdown_segment : Text → Segment → Nodes
  parse_markdown_segment source segment =
      if text_eq (trim source) [] then no_nodes else (elim segment [
        | head_segment ↦ (core.parse_note source containing_dir).0
        | interior_segment ↦ core.parse_markdown_fragment source containing_dir
      ])

  parse_base : Option Text → OptionalNodes
  parse_base none = absent
  parse_base (some text) = present (parse_markdown_segment text interior_segment)

  -- The loop's body: a line, what is left of it without its line end, and the section it falls in.
  scan_line : Section → Text → Text → ConflictScan → ConflictScan
  unfolding parse_base push_base
  scan_line plain_text trimmed line s =
      if starts_with conflict_start trimmed
      then record s {
        nodes = extend s.nodes (
            parse_markdown_segment s.plain
              (if s.saw_conflict then interior_segment else head_segment));
        plain = [];
        here = [];
        base = none;
        incoming = [];
        section = here_side;
        saw_conflict = true;
      }
      else record s { plain = s.plain ++ line }
  scan_line here_side trimmed line s =
      if starts_with conflict_base trimmed
      then record s { base = some []; section = base_side }
      else if starts_with conflict_middle trimmed
      then record s { section = incoming_side }
      else record s { here = s.here ++ line }
  scan_line base_side trimmed line s =
      if starts_with conflict_middle trimmed
      then record s { section = incoming_side }
      else record s { base = push_base s.base line }
  scan_line incoming_side trimmed line s =
      if starts_with conflict_end trimmed
      then record s {
        nodes = extend s.nodes (
            node
              (suggestion (parse_base s.base) (parse_markdown_segment s.here interior_segment)
                (parse_markdown_segment s.incoming interior_segment))
              no_nodes);
        base = none;
        section = plain_text;
      }
      else record s { incoming = s.incoming ++ line }

  unfoldable pub scan_lines : ConflictScan → List Text → ConflictScan
  unfolding scan_line
  scan_lines s [] = s
  scan_lines s (line ∷ lines) = scan_lines (scan_line s.section (trim_line_end line) line s) lines

  -- After the last line: a region that nothing closed is no conflict.
  unfoldable pub scan_result : ConflictScan → Option Nodes
  scan_result s = if not s.saw_conflict then none else (elim s.section [
    | plain_text ↦ some (extend s.nodes (parse_markdown_segment s.plain interior_segment))
    | _ ↦ none
  ])

  unfoldable pub conflict_suggestions : Text → Option Nodes
  conflict_suggestions source =
      if not (starts_with conflict_start source)
        && not (contains_text (b'\n' ∷ conflict_start) source)
      then none
      else scan_result (scan_lines scan_start (lines_inclusive source))
