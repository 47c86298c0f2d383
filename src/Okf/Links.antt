-- ===== src/Okf/Links.antt =====
-- rust/src/okf/links.rs: classifying a parsed link destination, and writing one.
pub mod Resolve
pub mod Classify
pub mod Escape
use mathlib.Core.List.{reverse}
use mathlib.Core.Option
use burlmd.Prelude.{
  unwrap_or, ℕ, Bool, true, false, not, ◌&&◌, ◌||◌, Option, none, some, List, [], ◌∷◌, ◌++◌, leb,
  ◌==◌, any, all, if◌then◌else◌, ◌>>=◌,
}
use burlmd.Prelude.Text.{
  Text, codes, contains, text_eq, starts_with, ends_with, strip_prefix, strip_suffix,
}
use burlmd.Prelude.Split.{split, join, rsplit_once}
use burlmd.Okf.ConceptId.{slash, md, concept_id_to_path}

pub data LinkTarget : Type 0 where
  internal external : Text → LinkTarget

abbrev pub is_ascii_alphabetic : ℕ → Bool
is_ascii_alphabetic c = (leb b'a' c && leb c b'z') || (leb b'A' c && leb c b'Z')

abbrev pub is_ascii_digit : ℕ → Bool
is_ascii_digit c = leb b'0' c && leb c b'9'

abbrev pub is_ascii_alphanumeric : ℕ → Bool
is_ascii_alphanumeric c = is_ascii_alphabetic c || is_ascii_digit c

is_scheme_char : ℕ → Bool
is_scheme_char c = is_ascii_alphanumeric c || (c == b'+' || (c == b'-' || c == b'.'))

-- The text before the first `:`, if there is one: `&dest[..dest.find(':')?]`.
before_colon : Text → Option Text
before_colon [] = none
before_colon (c ∷ s) =
    let rest = before_colon s in if c == b':' then some [] else Option.map (λ r. c ∷ r) rest

is_scheme : Text → Bool
unfolding is_scheme_char
is_scheme [] = false
is_scheme (c ∷ s) = is_ascii_alphabetic c && all is_scheme_char s

unfoldable pub has_url_scheme : Text → Bool
unfolding before_colon is_scheme
has_url_scheme dest = elim (before_colon dest) [ none ↦ false | some scheme ↦ is_scheme scheme ]

-- `.filter(|segment| !segment.is_empty())`
unfoldable pub non_empty : List Text → List Text
non_empty [] = []
non_empty ([] ∷ ws) = non_empty ws
non_empty ((c ∷ w) ∷ ws) = (c ∷ w) ∷ non_empty ws

abbrev pub dot : Text
dot = codes "."

abbrev pub dot_dot : Text
dot_dot = codes ".."

pop : List Text → Option (List Text)
pop [] = none
pop (w ∷ ws) = some ws

-- One segment of a destination. The head of the list is the top of the stack.
unfoldable pub apply_segment : Text → List Text → Option (List Text)
unfolding pop
apply_segment segment stack =
    if text_eq segment [] || text_eq segment dot
    then some stack
    else if text_eq segment dot_dot
    then pop stack
    else some (segment ∷ stack)

unfoldable pub apply_segments : List Text → List Text → Option (List Text)
apply_segments [] stack = some stack
apply_segments (segment ∷ rest) stack = apply_segment segment stack >>= apply_segments rest

unfoldable pub resolve_path : Text → Text → Option Text
resolve_path containing_dir dest =
    Option.map (λ stack. join slash (reverse stack))
      (apply_segments (split slash dest) (reverse (non_empty (split slash containing_dir))))

-- `s.rsplit('/').next()`
unfoldable pub last_segment : Text → Text
last_segment s = elim (rsplit_once slash s) [ none ↦ s | some (_, name) ↦ name ]

unfoldable pub resolve_relative : Text → Text → Option Text
resolve_relative containing_dir dest =
    let dest_without_ext = unwrap_or (strip_suffix md dest) dest in
    if text_eq (last_segment dest_without_ext) []
    then none
    else resolve_path containing_dir dest_without_ext

resolved : Text → Option Text → LinkTarget
resolved dest none = external dest
resolved dest (some concept_id) = internal concept_id

-- The base directory, and the destination without its leading slash.
base_and_relative : Text → Text → Text × Text
base_and_relative dest containing_dir = elim (strip_prefix (slash ∷ []) dest) [
  | some absolute ↦ ([], absolute)
  | none ↦ (containing_dir, dest)
]

unfoldable pub classify : Text → Text → LinkTarget
unfolding resolved base_and_relative
classify dest containing_dir =
    if has_url_scheme dest || not (ends_with md dest)
    then external dest
    else (let (base, relative) = base_and_relative dest containing_dir in
        resolved dest (resolve_relative base relative))

unless_empty : Option Text → Option Text
unless_empty (some []) = none
unless_empty path = path

unfoldable pub resolve_bundle_path : Text → Text → Option Text
unfolding unless_empty
resolve_bundle_path dest containing_dir =
    if text_eq dest []
      || (starts_with (slash ∷ []) dest
          || (contains b'#' dest || (contains b'?' dest || has_url_scheme dest)))
    then none
    else unless_empty (resolve_path containing_dir dest)

abbrev pub backslash : ℕ
backslash = 92

unfoldable pub is_destination_special : ℕ → Bool
is_destination_special c = c == backslash || (c == b'<' || (c == b'>' || c == b'&'))

unfoldable pub is_text_special : ℕ → Bool
unfolding is_destination_special
is_text_special c = is_destination_special c || (c == b'[' || c == b']')

unfoldable pub escape_destination : Text → Text
unfolding is_destination_special
escape_destination [] = []
escape_destination (c ∷ s) =
    let rest = escape_destination s in
    if is_destination_special c then backslash ∷ c ∷ rest else c ∷ rest

unfoldable pub escape_link_text : Text → Text
unfolding is_text_special
escape_link_text [] = []
escape_link_text (c ∷ s) =
    let rest = escape_link_text s in if is_text_special c then backslash ∷ c ∷ rest else c ∷ rest

unfoldable pub serialize_destination : Text → Text
serialize_destination path = b'<' ∷ (escape_destination path ++ (b'>' ∷ []))

unfoldable pub serialize_link : Text → Text → Text
serialize_link text concept_id =
    b'['
    ∷ (escape_link_text text
        ++ (b']'
            ∷ b'('
            ∷ (serialize_destination (slash ∷ concept_id_to_path concept_id) ++ (b')' ∷ []))))
