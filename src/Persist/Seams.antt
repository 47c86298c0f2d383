-- ===== src/Persist/Seams.antt =====
-- rust/src/workspace/persist.rs: the line endings at the seams of a Note that an edit joins.
pub mod Laws
pub mod Ends
use mathlib.Core.List.{reverse}
use burlmd.Prelude.{
  ℕ, zero, suc, ◌+◌, ◌-◌, Bool, true, false, not, ◌||◌, ◌&&◌, Option, none, some, List, [], ◌∷◌,
  ◌++◌, ◌==◌, if◌then◌else◌, length, get_elem?,
}
use burlmd.Prelude.Text.{Text, codes, text_eq, ends_with}
use burlmd.Prelude.Split.{rsplit_once}
use burlmd.Prelude.Bytes.{Range, byte_len, utf16_len, get, slice_to}
use burlmd.Markdown.Spans.{nth_offset}
use burlmd.Workspace.Names.{is_whitespace}

abbrev pub block_separator_newlines : ℕ
block_separator_newlines = 2

abbrev pub is_line_end : ℕ → Bool
is_line_end c = c == b'\n' || c == b'\r'

-- The newlines that a text begins with, carriage returns aside, and where another character ends them.
unfoldable pub newline_run : Text → ℕ
newline_run [] = 0
newline_run (c ∷ s) =
    let rest = newline_run s in if c == b'\r' then rest else if c == b'\n' then suc rest else 0

unfoldable pub trailing_newlines : Text → ℕ
trailing_newlines text = newline_run (reverse text)

-- A take of the line ends and a count of those that are no carriage return run together.
unfoldable pub leading_newlines : Text → ℕ
leading_newlines text = newline_run text

unfoldable pub newline_style : Text → Text
newline_style text = elim (rsplit_once b'\n' text) [
  | none ↦ b'\n' ∷ []
  | some (before, _) ↦ if ends_with (b'\r' ∷ []) before then b'\r' ∷ b'\n' ∷ [] else b'\n' ∷ []
]

-- `str::repeat`.
unfoldable pub repeat : Text → ℕ → Text
repeat text zero = []
repeat text (suc n) = text ++ repeat text n

unfoldable pub separator_before : Text → ℕ → Text
separator_before [] required = []
separator_before (c ∷ before) required =
    repeat (newline_style (c ∷ before)) (required - trailing_newlines (c ∷ before))

-- One round of the loop on the text before `end`, which is held in reverse.
abbrev drop_line_end : Text → Text
drop_line_end [] = []
drop_line_end (c ∷ []) = []
drop_line_end (c ∷ d ∷ s) = if d == b'\r' then s else d ∷ s

drop_line_ends : ℕ → Text → Text
drop_line_ends zero text = text
drop_line_ends (suc n) text = drop_line_ends n (drop_line_end text)

unfoldable pub cut_to_one_trailing_newline : Text → ℕ
unfolding drop_line_ends
cut_to_one_trailing_newline text =
    byte_len (reverse (drop_line_ends (trailing_newlines text - 1) (reverse text)))

unfoldable pub separator_across : Text → ℕ → ℕ → Text
separator_across source start stop = elim (get source (record { start = 0; stop = start })) [
  | none ↦ []
  | some before ↦ elim (get source (record { start = start; stop = stop })) [
    | none ↦ []
    | some removed ↦ elim (get source (record { start = stop; stop = byte_len source })) [
      | none ↦ []
      | some after ↦
          if text_eq before [] || text_eq after []
          then []
          else separator_before before (trailing_newlines removed)
    ]
  ]
]

-- The line ends that a text begins with take one byte each.
unfoldable pub newline_run_len : Text → ℕ
newline_run_len [] = 0
newline_run_len (c ∷ s) = let rest = newline_run_len s in if is_line_end c then suc rest else 0

-- `trim_end_matches(['\r', '\n'])`.
drop_line_run : Text → Text
drop_line_run [] = []
drop_line_run (c ∷ s) = let rest = drop_line_run s in if is_line_end c then rest else c ∷ s

unfoldable pub trim_line_end : Text → Text
unfolding drop_line_run
trim_line_end text = reverse (drop_line_run (reverse text))

unfoldable pub source_caret_before_trailing_newline : Text → ℕ
source_caret_before_trailing_newline source = utf16_len (trim_line_end source)

-- `split_whitespace().collect().join(" ")`: `gap` is whether a space is due before the next word.
one_line : Bool → Bool → Text → Text
one_line started gap [] = []
one_line started gap (c ∷ s) =
    let space = is_whitespace c in
    let rest = one_line (started || not space) space s in
    if space then rest else if started && gap then b' ' ∷ c ∷ rest else c ∷ rest

-- The text on one line, cut to `limit` characters.
unfoldable pub elided : Text → ℕ → Text
unfolding one_line
elided text limit =
    let line = one_line false false text in
    elim (nth_offset line limit) [ none ↦ line | some at ↦ slice_to line at ++ codes "…" ]
