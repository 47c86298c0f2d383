-- ===== src/Markdown/Spans/Builder/Paths.antt =====
-- The map that the builder makes finds a Block by its own path.
use burlmd.Prelude.{
  ℕ, zero, suc, ◌+◌, ◌-◌, ◌≡◌, refl, sym, ap, ◌∙◌, ◌⊎◌, inl, inr, some, List, [], ◌∷◌, map, length,
  get_elem?, ltb, >>=-eq-some, some_inj, Bool-cases, Option-cases, arith,
}
use burlmd.Prelude.Text.{text_eq, text_eq→eq}
use burlmd.Markdown.Spans.{BlockPath, BlockSpan, is_leaf, lookup_path, block}
use burlmd.Markdown.Spans.Builder.{
  SpanMapBuilder, index_paths, update_at, add_child, add_children, drop_last, sort_children,
  measured, set_rendered_len, set_rendered_lens, paths_of, finish, by_depth, total_len,
}

paths_of-update_at :
    (i : ℕ) (f : BlockSpan → BlockSpan) (bs : List BlockSpan)
    → ((b : BlockSpan) → (f b).path ≡ b.path)
    → paths_of (update_at i f bs) ≡ paths_of bs
unfolding update_at
paths_of-update_at i f [] h = refl
paths_of-update_at zero f (b ∷ bs) h = ap (λ p. p ∷ paths_of bs) (h b)
paths_of-update_at (suc i) f (b ∷ bs) h = ap (λ ps. b.path ∷ ps) (paths_of-update_at i f bs h)

paths_of-add_children :
    (m : List (BlockPath × ℕ)) (n : ℕ) (paths : List BlockPath) (bs : List BlockSpan)
    → paths_of (add_children m n paths bs) ≡ paths_of bs
unfolding add_children add_child
paths_of-add_children m n [] bs = refl
paths_of-add_children m n (path ∷ rest) bs = elim (Bool-cases (ltb (length path) 2)) [
  | inl e ↦ rw e (paths_of-add_children m (suc n) rest bs)
  | inr e ↦ elim (Option-cases (lookup_path (drop_last path) m)) [
    | inl f ↦ rw (e, f) (paths_of-add_children m (suc n) rest bs)
    | inr (parent, f) ↦
        rw (e, f)
          (paths_of-add_children m (suc n) rest (update_at parent (add_child n) bs)
            ∙ paths_of-update_at parent (add_child n) bs (λ b. refl))
  ]
]

paths_of-sort_children :
    (paths : List BlockPath) (bs : List BlockSpan)
    → paths_of (map (sort_children paths) bs) ≡ paths_of bs
unfolding sort_children
paths_of-sort_children paths [] = refl
paths_of-sort_children paths (b ∷ bs) = ap (λ ps. b.path ∷ ps) (paths_of-sort_children paths bs)

paths_of-set_rendered_len :
    (i : ℕ) (bs : List BlockSpan) → paths_of (set_rendered_len i bs) ≡ paths_of bs
unfolding set_rendered_len measured
paths_of-set_rendered_len i bs = elim (Option-cases (get_elem? bs i)) [
  | inl e ↦ rw (e, set_rendered_len) refl
  | inr (b, e) ↦ elim (Bool-cases (is_leaf b)) [
    | inl f ↦ rw (e, set_rendered_len, f) refl
    | inr f ↦
        rw (e, set_rendered_len, f)
          (paths_of-update_at i (measured (total_len bs b.children + length b.children - 1)) bs
            (λ b. refl))
  ]
]

paths_of-set_rendered_lens :
    (order : List ℕ) (bs : List BlockSpan) → paths_of (set_rendered_lens order bs) ≡ paths_of bs
unfolding set_rendered_lens
paths_of-set_rendered_lens [] bs = refl
paths_of-set_rendered_lens (i ∷ rest) bs =
    paths_of-set_rendered_lens rest (set_rendered_len i bs) ∙ paths_of-set_rendered_len i bs

paths_of-finish : (b : SpanMapBuilder) → paths_of (finish b).blocks ≡ paths_of b.blocks
unfolding finish
paths_of-finish b =
    let paths = paths_of b.blocks in
    paths_of-set_rendered_lens (by_depth paths) _
    ∙ paths_of-sort_children paths _
    ∙ paths_of-add_children (index_paths 0 paths []) 0 paths b.blocks

lookup_path-index_paths :
    (path : BlockPath) (n : ℕ) (paths : List BlockPath) (m : List (BlockPath × ℕ)) {i : ℕ}
    → lookup_path path (index_paths n paths m) ≡ some i
    → (lookup_path path m ≡ some i) ⊎ ((j : ℕ) × (i ≡ n + j) × (get_elem? paths j ≡ some path))
unfolding index_paths lookup_path
lookup_path-index_paths path n [] m h = inl h
lookup_path-index_paths path n (p ∷ rest) m {i} h =
    elim (lookup_path-index_paths path (suc n) rest ((p, n) ∷ m) {i = i} h) [
      | inr (j, e, f) ↦ inr (suc j, omega (arith, e), f)
      | inl found ↦ elim (Bool-cases (text_eq p path)) [
        | inl same ↦
            let number : n ≡ i = some_inj (rw same at found) in
            inr (0, omega (arith, number), ap some (text_eq→eq p path same))
        | inr other ↦ inl (rw other at found)
      ]
    ]

lookup_empty : (path : BlockPath) {i : ℕ} → lookup_path path [] ≡ some i → ⊥
unfolding lookup_path
lookup_empty path h = cc

get_elem?-paths_of :
    (bs : List BlockSpan) (i : ℕ) (s : BlockSpan)
    → get_elem? bs i ≡ some s
    → get_elem? (paths_of bs) i ≡ some s.path
get_elem?-paths_of [] i s h = cc
get_elem?-paths_of (b ∷ bs) zero s h = ap (λ (x : BlockSpan). some x.path) (some_inj h)
get_elem?-paths_of (b ∷ bs) (suc i) s h = get_elem?-paths_of bs i s h

-- Whatever Blocks the parser completed, a Block that the finished map gives for a path is one of that
-- path.
pub finish-block :
    (b : SpanMapBuilder) (path : BlockPath) {s : BlockSpan}
    → block (finish b) path ≡ some s
    → s.path ≡ path
unfolding block
finish-block b path {s} h =
    let (i, found, elem) = >>=-eq-some (lookup_path path (finish b).by_path) _ h in
    elim (lookup_path-index_paths path 0 (paths_of b.blocks) [] {i = i} (unfold finish in found)) [
      | inl e ↦ absurd (lookup_empty path e)
      | inr (j, e, at) ↦
          let same : i ≡ j = omega (arith, e) in
          some_inj (
            sym (get_elem?-paths_of (finish b).blocks i s elem)
            ∙ ap (λ (ps : List BlockPath). get_elem? ps i) (paths_of-finish b)
            ∙ ap (get_elem? (paths_of b.blocks)) same
            ∙ at)
    ]
