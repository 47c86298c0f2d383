-- ===== src/Okf/Examples.antt =====
-- The model of rust/src/okf run on examples.
use burlmd.Prelude.{
  ℕ, ◌≡◌, refl, Bool, true, false, none, some, [], ◌∷◌, ◌++◌, ◌==◌, arith, if◌then◌else◌,
}
use burlmd.Prelude.Text.{Text, codes, starts_with, text_eq, strip_prefix, strip_suffix, ends_with}
use burlmd.Prelude.Split.{split, join, rsplit_once}
use burlmd.Okf.ConceptId.{slash, path_to_concept_id, concept_id_to_path, is_reserved_title}
use burlmd.Okf.Links.{
  internal, external, classify, resolve_path, non_empty, apply_segment, apply_segments,
  resolve_relative, last_segment, backslash, is_text_special, is_destination_special,
  escape_link_text, has_url_scheme,
}
use burlmd.Okf.Links.Resolve.{IsName, IsPath}
use burlmd.Okf.Links.Classify.{IsDirectory, classify-IsPath}
use burlmd.Okf.Links.Escape.{
  is_ascii_punctuation, destination_syntax, text_syntax, Reader, DestinationReader, push_char,
  unescape-escape_link_text, read-serialize_destination,
}
use burlmd.Okf.Links.{serialize_destination}
use burlmd.Prelude.{Option, none, some}

round_trip : path_to_concept_id (codes "/notes/alpha.md") ≡ codes "notes/alpha"
unfolding path_to_concept_id strip_prefix strip_suffix text_eq
round_trip = refl

reserved : is_reserved_title (codes "/log.md") ≡ true
unfolding is_reserved_title path_to_concept_id strip_prefix strip_suffix text_eq
reserved = refl

notes_IsName : IsName (codes "notes")
notes_IsName = record {
  segment = record { not_empty = λ e. cc; no_slash = refl };
  not_dot = λ e. cc;
  not_dot_dot = λ e. cc;
}

b_IsName : IsName (codes "b")
b_IsName = record {
  segment = record { not_empty = λ e. cc; no_slash = refl };
  not_dot = λ e. cc;
  not_dot_dot = λ e. cc;
}

pub notes_IsDirectory : IsDirectory (codes "notes")
unfolding split non_empty
notes_IsDirectory = (notes_IsName, tt)

example_IsPath : IsPath (codes "notes/b")
unfolding join
example_IsPath = record {
  names = codes "notes" ∷ codes "b" ∷ [];
  all_names = (notes_IsName, (b_IsName, tt));
  joined = refl;
}

climbed : resolve_path (codes "notes") (codes "../../b") ≡ none
unfolding resolve_path apply_segments apply_segment non_empty split join text_eq
climbed = refl

resolved_path : resolve_path (codes "notes") (codes "./x/../b") ≡ some (codes "notes/b")
unfolding resolve_path apply_segments apply_segment non_empty split join text_eq
resolved_path = refl

classified : classify (codes "b.md") (codes "notes") ≡ internal (codes "notes/b")
unfolding classify has_url_scheme resolve_relative resolve_path apply_segments apply_segment
    non_empty last_segment split join rsplit_once text_eq strip_prefix strip_suffix starts_with
    ends_with
classified = refl

outside : classify (codes "../../b.md") (codes "notes") ≡ external (codes "../../b.md")
unfolding classify has_url_scheme resolve_relative resolve_path apply_segments apply_segment
    non_empty last_segment split join rsplit_once text_eq strip_prefix strip_suffix starts_with
    ends_with
outside = refl

classify-IsPath_example : IsPath (codes "notes/b")
classify-IsPath_example =
    classify-IsPath (codes "b.md") (codes "notes") {id = codes "notes/b"} notes_IsDirectory
      classified

-- A reader of backslash escapes: the flag is whether a backslash came just before.
unescaped : Bool → Text → Text
unescaped false [] = []
unescaped true [] = backslash ∷ []
unescaped false (c ∷ s) =
    let escape = unescaped true s in
    let plain = unescaped false s in if c == backslash then escape else c ∷ plain
unescaped true (c ∷ s) =
    let rest = unescaped false s in
    if is_ascii_punctuation c then c ∷ rest else backslash ∷ c ∷ rest

unescaped_punctuation :
    (c : ℕ) (s : Text)
    → is_ascii_punctuation c ≡ true
    → unescaped false (backslash ∷ c ∷ s) ≡ c ∷ unescaped false s
unfolding unescaped
unescaped_punctuation c s h = rw h

text_reader : Reader text_syntax
unfolding unescaped
text_reader = record {
  unescape = unescaped false;
  unescape_nil = refl;
  unescape_escaped = unescaped_punctuation;
  unescape_plain = λ c s h. let plain : (c == backslash) ≡ false = ground arith in rw plain;
}

pub destination_reader : Reader destination_syntax
unfolding unescaped
destination_reader = record {
  unescape = unescaped false;
  unescape_nil = refl;
  unescape_escaped = unescaped_punctuation;
  unescape_plain = λ c s h. let plain : (c == backslash) ≡ false = ground arith in rw plain;
}

-- A reader of what is between angle brackets, likewise.
enclosed : Bool → Text → Option (Text × Text)
enclosed escaped [] = none
enclosed false (c ∷ s) =
    let escape = enclosed true s in
    let plain = enclosed false s in
    if c == backslash then escape else if c == b'>' then some ([], s) else push_char c plain
enclosed true (c ∷ s) =
    let rest = enclosed false s in
    if is_ascii_punctuation c then push_char c rest else push_char backslash (push_char c rest)

enclosing : Text → Option (Text × Text)
enclosing [] = none
enclosing (c ∷ s) = enclosed false s

angle_reader : DestinationReader
unfolding enclosed enclosing
angle_reader = record {
  read = enclosing;
  inside = enclosed false;
  opens = λ s. refl;
  closes = λ rest. refl;
  escaped = λ c s h. rw h;
  plain = λ c s h _.
      let plain : (c == backslash) ≡ false = ground arith in
      let inner : (c == b'>') ≡ false = ground arith in rw (plain, inner);
}

escaped : escape_link_text (codes "a[b]") ≡ codes "a\\[b\\]"
unfolding escape_link_text is_text_special is_destination_special
escaped = refl

unescape-escape_link_text_example :
    text_reader.unescape (escape_link_text (codes "a[b] & <c>")) ≡ codes "a[b] & <c>"
unescape-escape_link_text_example =
    unescape-escape_link_text text_reader (codes "a[b] & <c>") (ground arith)

read-serialize_destination_example :
    (angle_reader.read
        (serialize_destination (slash ∷ concept_id_to_path (codes "notes/b")) ++ codes ") and")
      ≡ some (slash ∷ concept_id_to_path (codes "notes/b"), codes ") and"))
    × (classify (slash ∷ concept_id_to_path (codes "notes/b")) (codes "archive")
        ≡ internal (codes "notes/b"))
read-serialize_destination_example =
    read-serialize_destination angle_reader (codes "notes/b") (codes "archive") (codes ") and")
      example_IsPath (λ e. cc) (ground arith)
