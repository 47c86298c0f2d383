-- ===== src/Workspace/Title.antt =====
-- rust/src/workspace/lifecycle.rs: the title in a Note's frontmatter. Which characters are letters or
-- digits, a table of Unicode's, is the parameter `is_alphanumeric`.
pub mod Laws
use mathlib.Core.List.{reverse}
use mathlib.Core.Option
use burlmd.Prelude.{
  ℕ, ◌+◌, ◌/◌, ◌%◌, Bool, true, false, not, ◌||◌, ◌&&◌, ◌==◌, leb, ltb, Option, none, some, List,
  [], ◌∷◌, ◌++◌, any, all, map, if◌then◌else◌, ◌>>=◌, unwrap_or,
}
use burlmd.Prelude.Text.{Text, codes, text_eq, starts_with, ends_with, strip_prefix, strip_suffix}
use burlmd.Okf.Links.{backslash, is_ascii_alphabetic}
use burlmd.Workspace.Names.{is_whitespace}

-- `char::is_control`: the Cc category.
unfoldable pub is_control : ℕ → Bool
is_control c = leb c 31 || (leb 127 c && leb c 159)

-- `str::contains` of a text.
unfoldable pub contains_text : Text → Text → Bool
contains_text part [] = text_eq part []
contains_text part (c ∷ s) = starts_with part (c ∷ s) || contains_text part s

to_ascii_lowercase : Text → Text
to_ascii_lowercase s = map (λ c. if leb b'A' c && leb c b'Z' then c + 32 else c) s

-- The words that YAML reads as something other than a string.
yaml_words : List Text
yaml_words =
    codes "true"
    ∷ codes "false"
    ∷ codes "yes"
    ∷ codes "no"
    ∷ codes "on"
    ∷ codes "off"
    ∷ codes "null"
    ∷ []

-- One digit of `{:X}`.
abbrev pub hex_digit : ℕ → ℕ
hex_digit d = if ltb d 10 then b'0' + d else 55 + d

-- `{:04X}` of a number below 16 ^ 4.
unfoldable pub hex : ℕ → Text
hex c =
    hex_digit (c / 4096 % 16)
    ∷ hex_digit (c / 256 % 16)
    ∷ hex_digit (c / 16 % 16)
    ∷ hex_digit (c % 16)
    ∷ []

unfoldable pub escape : ℕ → Text
escape c =
    if c == b'"'
    then backslash ∷ b'"' ∷ []
    else if c == backslash
    then backslash ∷ backslash ∷ []
    else if c == 10
    then backslash ∷ b'n' ∷ []
    else if c == 13
    then backslash ∷ b'r' ∷ []
    else if c == 9
    then backslash ∷ b't' ∷ []
    else if is_control c
    then backslash ∷ b'u' ∷ hex c
    else c ∷ []

unfoldable pub escape_all : Text → Text
escape_all [] = []
escape_all (c ∷ s) = escape c ++ escape_all s

-- The first character, if there is one: `value.chars().next()`.
unfoldable pub starts_alphabetic : Text → Bool
starts_alphabetic [] = false
starts_alphabetic (c ∷ s) = is_ascii_alphabetic c

-- `str::trim`.
unfoldable pub trim_whitespace : Text → Text
trim_whitespace [] = []
trim_whitespace (c ∷ s) = if is_whitespace c then trim_whitespace s else c ∷ s

unfoldable pub trim : Text → Text
unfolding trim_whitespace
trim s = reverse (trim_whitespace (reverse (trim_whitespace s)))

-- `line.split_once(':').map_or(line, |(key, _)| key)`
before_colon : Text → Text
before_colon [] = []
before_colon (c ∷ s) = let rest = before_colon s in if c == b':' then [] else c ∷ rest

-- The text within a pair of quotes.
within : ℕ → Text → Option Text
within quote key = strip_prefix (quote ∷ []) key >>= strip_suffix (quote ∷ [])

or_else : Option Text → Option Text → Option Text
or_else (some t) other = some t
or_else none other = other

unfoldable pub is_title_key : Text → Bool
unfolding trim before_colon within or_else
is_title_key line =
    if starts_with (b' ' ∷ []) line || starts_with (9 ∷ []) line
    then false
    else (let key = trim (before_colon line) in
        text_eq (unwrap_or (or_else (within b'"' key) (within 39 key)) key) (codes "title"))

module _ (is_alphanumeric : ℕ → Bool) where
  unfoldable pub is_plain_char : ℕ → Bool
  is_plain_char c =
      is_alphanumeric c
      || (c == b' ' || (c == b'_' || (c == b'-' || (c == b'.' || (c == b'(' || c == b')')))))

  unfoldable pub is_plain : Text → Bool
  unfolding starts_alphabetic contains_text to_ascii_lowercase yaml_words
  is_plain value =
      starts_alphabetic value
      && (not (ends_with (b' ' ∷ []) value)
          && (not (contains_text (codes ": ") value)
              && (not (contains_text (codes " #") value)
                  && (all is_plain_char value
                      && not (any (text_eq (to_ascii_lowercase value)) yaml_words)))))

  unfoldable pub yaml_scalar : Text → Text
  yaml_scalar value = if is_plain value then value else b'"' ∷ (escape_all value ++ b'"' ∷ [])

  unfoldable pub conformant_frontmatter : Text → Text
  conformant_frontmatter title =
      codes "---"
      ++ (10 ∷ codes "type: Note"
          ++ (10 ∷ codes "title: " ++ (yaml_scalar title ++ (10 ∷ codes "---" ++ (10 ∷ 10 ∷ [])))))
