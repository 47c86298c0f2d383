-- ===== src/Persist/Fixtures.antt =====
-- A parser that makes a text one Block, and a hash that tells all contents apart.
use burlmd.Prelude.{◌≡◌, false, none, [], ◌∷◌}
use burlmd.Prelude.Text.{Text}
use burlmd.Prelude.Bytes.{byte_len}
use burlmd.Markdown.Ast.{Nodes, node, no_nodes, paragraph, no_inlines}
use burlmd.Markdown.Spans.{SpanMap}
use burlmd.Persist.{Bytes, utf8, malformed, Core}

abbrev pub one_block : Text → SpanMap
one_block source = record {
  blocks =
      record {
        path = 0 ∷ [];
        source = record { start = 0; stop = byte_len source };
        runs = [];
        rendered_len = 0;
        children = [];
      }
      ∷ [];
  by_path = (0 ∷ [], 0) ∷ [];
  frontmatter = none;
}

abbrev pub one_paragraph : Nodes
one_paragraph = node (paragraph no_inlines) no_nodes

-- A hash that tells all contents apart.
abbrev pub plain_hash : Bytes → Text
plain_hash (utf8 t) = 0 ∷ t
plain_hash (malformed b) = 1 ∷ b

pub plain_hash_injective : (b b' : Bytes) → plain_hash b ≡ plain_hash b' → b ≡ b'
plain_hash_injective (utf8 s) (utf8 t) h = cc h
plain_hash_injective (malformed s) (malformed t) h = cc h
plain_hash_injective (utf8 s) (malformed t) h = cc h
plain_hash_injective (malformed s) (utf8 t) h = cc h

abbrev pub one_core : Core
one_core = record {
  parse_note = λ source dir. (one_paragraph, one_block source);
  parse_markdown_fragment = λ source dir. one_paragraph;
  read_frontmatter = λ raw. record { title = none; is_conformant = false };
  content_hash = plain_hash;
  debug_path = λ path. path;
  decimal = λ n. n ∷ [];
  display_path = λ id. id;
}
