-- ===== src/Markdown/Spans/Builder.antt =====
-- rust/src/markdown/spans.rs: `SpanMapBuilder`, which collects the Blocks as the parser completes them,
-- children before parents, and then links and measures them.
pub mod Paths
use mathlib.Core.Option
use burlmd.Prelude.{
  ℕ, zero, suc, ◌+◌, ◌-◌, Bool, true, false, Option, none, some, List, [], ◌∷◌, ◌++◌, map, length,
  get_elem?, ltb, leb, if◌then◌else◌, unwrap_or,
}
use burlmd.Prelude.Bytes.{Range}
use burlmd.Markdown.Spans.{
  BlockPath, BlockSpan, InlineRun, SpanMap, is_leaf, lookup_path, child_len,
}

pub record SpanMapBuilder : Type 0 where
  pub blocks : List BlockSpan
  pub frontmatter : Option Range

-- `runs.last().map_or(0, |run| run.rendered.end)`
rendered_end : ℕ → List InlineRun → ℕ
rendered_end d [] = d
rendered_end d (run ∷ runs) = rendered_end run.rendered.stop runs

unfoldable pub push_block : BlockPath → Range → List InlineRun → SpanMapBuilder → SpanMapBuilder
unfolding rendered_end
push_block path source runs b = record b {
  blocks =
      b.blocks
      ++ record {
        path = path;
        source = source;
        runs = runs;
        rendered_len = rendered_end 0 runs;
        children = [];
      }
        ∷ [];
}

unfoldable pub set_frontmatter : Range → SpanMapBuilder → SpanMapBuilder
set_frontmatter source b = record b { frontmatter = some source }

-- The hash map of the Blocks' numbers by path: a later entry for a path stands before an earlier.
unfoldable pub index_paths : ℕ → List BlockPath → List (BlockPath × ℕ) → List (BlockPath × ℕ)
index_paths n [] m = m
index_paths n (path ∷ rest) m = index_paths (suc n) rest ((path, n) ∷ m)

-- An assignment through an index.
unfoldable pub update_at : ℕ → (BlockSpan → BlockSpan) → List BlockSpan → List BlockSpan
update_at i f [] = []
update_at zero f (b ∷ bs) = f b ∷ bs
update_at (suc i) f (b ∷ bs) = b ∷ update_at i f bs

-- `&path[..path.len() - 1]`
drop_last : BlockPath → BlockPath
drop_last [] = []
drop_last (i ∷ []) = []
drop_last (i ∷ rest) = i ∷ drop_last rest

unfoldable pub add_child : ℕ → BlockSpan → BlockSpan
add_child n b = record b { children = b.children ++ n ∷ [] }

unfoldable pub add_children :
    List (BlockPath × ℕ) → ℕ → List BlockPath → List BlockSpan → List BlockSpan
unfolding drop_last
add_children by_path n [] blocks = blocks
add_children by_path n (path ∷ rest) blocks = add_children by_path (suc n) rest (
    if ltb (length path) 2 then blocks else (elim (lookup_path (drop_last path) by_path) [
      | none ↦ blocks
      | some parent ↦ update_at parent (add_child n) blocks
    ]))

-- `path.last().copied().unwrap_or(0)`
last_component : BlockPath → ℕ
last_component [] = 0
last_component (i ∷ []) = i
last_component (i ∷ rest) = last_component rest

-- A stable sort by a key, from the smallest on.
insert_by : (ℕ → ℕ) → ℕ → List ℕ → List ℕ
insert_by key x [] = x ∷ []
insert_by key x (y ∷ ys) =
    let rest = insert_by key x ys in if leb (key x) (key y) then x ∷ y ∷ ys else y ∷ rest

sort_by : (ℕ → ℕ) → List ℕ → List ℕ
unfolding insert_by
sort_by key [] = []
sort_by key (x ∷ xs) = insert_by key x (sort_by key xs)

unfoldable pub sort_children : List BlockPath → BlockSpan → BlockSpan
unfolding sort_by last_component
sort_children paths b = record b {
  children =
      sort_by (λ child. unwrap_or (Option.map last_component (get_elem? paths child)) 0) b.children;
}

numbers : ℕ → List BlockPath → List ℕ
numbers n [] = []
numbers n (path ∷ rest) = n ∷ numbers (suc n) rest

-- The numbers of the Blocks, those with the longest paths first: by `Reverse(len)`, here a number that
-- falls as the length grows.
by_depth : List BlockPath → List ℕ
unfolding sort_by numbers
by_depth paths =
    let deepest = longest paths in
    sort_by (λ i. deepest - unwrap_or (Option.map length (get_elem? paths i)) 0) (numbers 0 paths)
  where
    longest : List BlockPath → ℕ
    longest [] = 0
    longest (path ∷ rest) = length path + longest rest

total_len : List BlockSpan → List ℕ → ℕ
total_len blocks [] = 0
total_len blocks (child ∷ rest) = child_len blocks child + total_len blocks rest

unfoldable pub measured : ℕ → BlockSpan → BlockSpan
measured len b = record b { rendered_len = len }

unfoldable pub set_rendered_len : ℕ → List BlockSpan → List BlockSpan
unfolding total_len
set_rendered_len i blocks = elim (get_elem? blocks i) [
  | none ↦ blocks
  | some b ↦
      if is_leaf b
      then blocks
      else update_at i (measured (total_len blocks b.children + length b.children - 1)) blocks
]

unfoldable pub set_rendered_lens : List ℕ → List BlockSpan → List BlockSpan
set_rendered_lens [] blocks = blocks
set_rendered_lens (i ∷ rest) blocks = set_rendered_lens rest (set_rendered_len i blocks)

abbrev pub paths_of : List BlockSpan → List BlockPath
paths_of blocks = map (λ b. b.path) blocks

unfoldable pub finish : SpanMapBuilder → SpanMap
unfolding by_depth
finish b =
    let paths = paths_of b.blocks in
    let by_path = index_paths 0 paths [] in
    record {
      blocks =
          set_rendered_lens (by_depth paths)
            (map (sort_children paths) (add_children by_path 0 paths b.blocks));
      by_path = by_path;
      frontmatter = b.frontmatter;
    }
