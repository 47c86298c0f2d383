-- ===== src/Okf/Links/Escape.antt =====
-- The escapes that `serialize_link` writes, undone by a CommonMark reader.
use burlmd.Prelude.{
  ℕ, ◌≡◌, refl, ◌∙◌, append_assoc, ap, ◌≢◌, inl, inr, Bool, true, false, Option, none, some, [],
  ◌∷◌, ◌++◌, ◌==◌, leb, ◌&&◌, ◌||◌, All, All-append, Bool-cases, arith,
}
use burlmd.Prelude.Text.{Text}
use burlmd.Okf.ConceptId.{slash, md, concept_id_to_path}
use burlmd.Okf.Links.{
  internal, classify, backslash, is_text_special, is_destination_special, escape_link_text,
  escape_destination, serialize_destination,
}
use burlmd.Okf.Links.Resolve.{IsPath}
use burlmd.Okf.Links.Classify.{classify-concept_id}

-- CommonMark 0.31: an ASCII punctuation character.
abbrev pub is_ascii_punctuation : ℕ → Bool
is_ascii_punctuation c =
    (leb 33 c && leb c 47)
    || ((leb 58 c && leb c 64) || ((leb 91 c && leb c 96) || (leb 123 c && leb c 126)))

-- The characters with a meaning of their own between angle brackets: a backslash, the brackets and
-- the start of an entity.
abbrev pub destination_syntax : ℕ → Bool
destination_syntax c = (c == b'&' || c == b'<') || (c == b'>' || c == b'\\')

-- And those with a meaning of their own in link text: these and the square brackets, which end the
-- text or start a link in it.
abbrev pub link_syntax : ℕ → Bool
link_syntax c = (c == b'[' || c == b']') || destination_syntax c

-- What marks up a text: emphasis, code, images, the extensions' strikes, mathematics and tables, a
-- line's end, and the character that is replaced.
abbrev pub text_markup : ℕ → Bool
text_markup c =
    ((c == b'*' || c == b'_') || (c == b'`' || c == b'!'))
    || (((c == b'~' || c == b'$') || (c == b'^' || c == b'|'))
        || ((c == b'\n' || c == b'\r') || c == 0))

abbrev pub text_syntax : ℕ → Bool
text_syntax c = link_syntax c || text_markup c

-- What the parser (pulldown-cmark, a third-party crate) makes of backslashes where the `syntax`
-- characters have a meaning of their own. CommonMark 0.31 §2.4: a backslash before ASCII punctuation
-- stands for that character; a character with no meaning of its own stands for itself.
pub record Reader (syntax : ℕ → Bool) : Type 0 where
  pub unescape : Text → Text
  pub unescape_nil : unescape [] ≡ []
  pub unescape_escaped :
      (c : ℕ) (s : Text)
      → is_ascii_punctuation c ≡ true
      → unescape (backslash ∷ c ∷ s) ≡ c ∷ unescape s
  pub unescape_plain : (c : ℕ) (s : Text) → syntax c ≡ false → unescape (c ∷ s) ≡ c ∷ unescape s

text_escaped : (c : ℕ) → is_text_special c ≡ true → is_ascii_punctuation c ≡ true
unfolding is_text_special is_destination_special
text_escaped c h = ground arith

text_plain : (c : ℕ) → is_text_special c ≡ false → text_markup c ≡ false → text_syntax c ≡ false
unfolding is_text_special is_destination_special
text_plain c h m = ground arith

destination_escaped : (c : ℕ) → is_destination_special c ≡ true → is_ascii_punctuation c ≡ true
unfolding is_destination_special
destination_escaped c h = ground arith

destination_plain : (c : ℕ) → is_destination_special c ≡ false → destination_syntax c ≡ false
unfolding is_destination_special
destination_plain c h = ground arith

-- A title that has none of the characters that mark up a text is read back from the link text that
-- is written for it, by a reader for which the backslash, the angle and square brackets and the
-- ampersand have a meaning of their own that a backslash takes from them.
pub unescape-escape_link_text :
    (r : Reader text_syntax) (s : Text)
    → All (λ c. text_markup c ≡ false) s
    → r.unescape (escape_link_text s) ≡ s
unfolding escape_link_text
unescape-escape_link_text r [] m = r.unescape_nil
unescape-escape_link_text r (c ∷ s) m = elim (Bool-cases (is_text_special c)) [
  | inl e ↦
      rw (e, r.unescape_escaped c (escape_link_text s) (text_escaped c e))
        (ap (λ t. c ∷ t) (unescape-escape_link_text r s m.1))
  | inr e ↦
      rw (e, r.unescape_plain c (escape_link_text s) (text_plain c e m.0))
        (ap (λ t. c ∷ t) (unescape-escape_link_text r s m.1))
]

module _ (r : Reader destination_syntax) where
  pub unescape-escape_destination : (s : Text) → r.unescape (escape_destination s) ≡ s
  unfolding escape_destination
  unescape-escape_destination [] = r.unescape_nil
  unescape-escape_destination (c ∷ s) = elim (Bool-cases (is_destination_special c)) [
    | inl e ↦
        rw (e, r.unescape_escaped c (escape_destination s) (destination_escaped c e))
          (ap (λ t. c ∷ t) (unescape-escape_destination s))
    | inr e ↦
        rw (e, r.unescape_plain c (escape_destination s) (destination_plain c e))
          (ap (λ t. c ∷ t) (unescape-escape_destination s))
  ]

  -- The destination that is written for a concept id in normal form, read back, is classified as
  -- internal under that very id, from any directory.
  pub classify-written_destination :
      (id dir : Text)
      → IsPath id
      → id ≢ []
      → classify (r.unescape (escape_destination (slash ∷ concept_id_to_path id))) dir ≡ internal id
  classify-written_destination id dir h ne =
      rw (unescape-escape_destination (slash ∷ concept_id_to_path id))
        (classify-concept_id id dir h ne)

abbrev pub push_char : ℕ → Option (Text × Text) → Option (Text × Text)
push_char c none = none
push_char c (some (read, rest)) = some (c ∷ read, rest)

-- A destination ends no line.
abbrev pub breaks_line : ℕ → Bool
breaks_line c = (c == b'\n' || c == b'\r') || c == 0

-- How the parser reads a destination in angle brackets and what is left behind it (CommonMark 0.31
-- §6.3): the destination starts with the bracket, ends at the first closing bracket that no
-- backslash escapes, and stays on its line.
pub record DestinationReader : Type 0 where
  pub read : Text → Option (Text × Text)
  pub inside : Text → Option (Text × Text)
  pub opens : (s : Text) → read (b'<' ∷ s) ≡ inside s
  pub closes : (rest : Text) → inside (b'>' ∷ rest) ≡ some ([], rest)
  pub escaped :
      (c : ℕ) (s : Text)
      → is_ascii_punctuation c ≡ true
      → inside (backslash ∷ c ∷ s) ≡ push_char c (inside s)
  pub plain :
      (c : ℕ) (s : Text)
      → destination_syntax c ≡ false
      → breaks_line c ≡ false
      → inside (c ∷ s) ≡ push_char c (inside s)

module _ (r : DestinationReader) where
  inside-escape_destination :
      (s rest : Text)
      → All (λ c. breaks_line c ≡ false) s
      → r.inside (escape_destination s ++ b'>' ∷ rest) ≡ some (s, rest)
  unfolding escape_destination
  inside-escape_destination [] rest one_line = r.closes rest
  inside-escape_destination (c ∷ s) rest one_line =
      let later = escape_destination s ++ b'>' ∷ rest in
      let ih = ap (push_char c) (inside-escape_destination s rest one_line.1) in
      elim (Bool-cases (is_destination_special c)) [
        | inl e ↦ rw (e, r.escaped c later (destination_escaped c e)) ih
        | inr e ↦ rw (e, r.plain c later (destination_plain c e) one_line.0) ih
      ]

  -- The destination that is written for a concept id in normal form on one line is read back whole,
  -- whatever follows it, and what is read is classified as internal under that very id, from any
  -- directory.
  pub read-serialize_destination :
      (id dir rest : Text)
      → IsPath id
      → id ≢ []
      → All (λ c. breaks_line c ≡ false) id
      → (r.read (serialize_destination (slash ∷ concept_id_to_path id) ++ rest)
          ≡ some (slash ∷ concept_id_to_path id, rest))
        × (classify (slash ∷ concept_id_to_path id) dir ≡ internal id)
  unfolding serialize_destination concept_id_to_path
  read-serialize_destination id dir rest h ne one_line =
      let path = slash ∷ concept_id_to_path id in
      (
        r.opens _
            ∙ (ap r.inside (append_assoc (escape_destination path) (b'>' ∷ []) rest)
                ∙ inside-escape_destination path rest
                    (refl, All-append _ id md one_line (refl, (refl, (refl, tt))))),
        classify-concept_id id dir h ne,
      )
