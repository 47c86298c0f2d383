-- ===== src/Markdown.antt =====
-- rust/src/markdown: where each Block of a Note stands in its source, and edits of that source.
pub mod Spans
pub mod Splice
pub mod Examples
pub mod Ast
