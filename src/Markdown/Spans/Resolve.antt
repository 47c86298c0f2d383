-- ===== src/Markdown/Spans/Resolve.antt =====
-- An offset into a Block's rendered text: which leaf it falls to, and that the way down ends.
use mathlib.Core.Option
use burlmd.Prelude.{
  ℕ, zero, suc, ◌≤◌, ◌<◌, ◌≡◌, refl, ap, ◌∙◌, Option, none, some, List, ltb, length, get_elem?,
  get_elem?_bound, Option-cases, Bool-cases, inl, inr,
}
use burlmd.Prelude.Text.{Text}
use burlmd.Markdown.Spans.{
  BlockPath, BlockSpan, SpanMap, SourceResolution, is_leaf, lookup_path, resolve_runs, find_child,
  resolve_leaf_at, resolve_at, resolve_offset,
}
use burlmd.Markdown.Spans.Descent.{IsCoherent, Found, answers, past_end_step}

map_pair :
    (n : ℕ) (o : Option SourceResolution)
    → o ≡ Option.map (λ (x : ℕ × SourceResolution). x.1) (Option.map (λ r. (n, r)) o)
map_pair n none = refl
map_pair n (some r) = refl

past_end :
    (source : Text) (blocks : List BlockSpan) (fuel index off : ℕ) (b : BlockSpan)
    → get_elem? blocks index ≡ some b
    → b.rendered_len < off
    → resolve_leaf_at fuel source blocks index off ≡ none
unfolding resolve_leaf_at
past_end source blocks zero index off b here high = refl
past_end source blocks (suc fuel) index off b here high =
    past_end_step source blocks fuel index off b here high

-- `resolve_at` gives what `resolve_leaf_at` gives, less the leaf.
resolve_at-resolve_leaf_at :
    (source : Text) (blocks : List BlockSpan) (fuel index off : ℕ)
    → resolve_at fuel source blocks index off
      ≡ Option.map
          (λ (x : ℕ × SourceResolution). x.1)
          (resolve_leaf_at fuel source blocks index off)
unfolding resolve_at resolve_leaf_at
resolve_at-resolve_leaf_at source blocks zero index off = refl
resolve_at-resolve_leaf_at source blocks (suc fuel) index off =
    elim (Option-cases (get_elem? blocks index)) [
      | inl absent ↦ rw absent
      | inr (b, here) ↦ elim (Bool-cases (ltb b.rendered_len off)) [
        | inl beyond ↦ rw (here, beyond)
        | inr within ↦ elim (Bool-cases (is_leaf b)) [
          | inl leaf ↦
              rw (here, within, leaf) (map_pair index (resolve_runs source _ none b.runs off))
          | inr parent ↦ elim (Option-cases (find_child blocks off 0 b.children)) [
            | inl lost ↦ rw (here, within, parent, lost)
            | inr (at, found) ↦
                rw (here, within, parent, found)
                  (resolve_at-resolve_leaf_at source blocks fuel at.0 at.1)
          ]
        ]
      ]
    ]

opened :
    (m : SpanMap) (source : Text) (path : BlockPath) (off index : ℕ)
    → lookup_path path m.by_path ≡ some index
    → resolve_offset m source path off
      ≡ Option.map
          (λ (x : ℕ × SourceResolution). x.1)
          (resolve_leaf_at (length m.blocks) source m.blocks index off)
unfolding resolve_offset
opened m source path off index known =
    rw known (resolve_at-resolve_leaf_at source m.blocks (length m.blocks) index off)

-- In a map whose Blocks come after their children, whose leaves' runs tile their rendered text and
-- whose containers' rendered text is their children's joined, every offset that is not past the end
-- of a Block's rendered text resolves; the way down ends at a leaf, and the answer lies between that
-- leaf's start and the end of its last run.
pub resolve_offset_total :
    (m : SpanMap) (source : Text) (path : BlockPath) (off index : ℕ) (b : BlockSpan)
    → IsCoherent source m.blocks
    → lookup_path path m.by_path ≡ some index
    → get_elem? m.blocks index ≡ some b
    → off ≤ b.rendered_len
    → (leaf : ℕ) × (r : SourceResolution) × (resolve_leaf_at
          (length m.blocks)
          source
          m.blocks
          index
          off
        ≡ some (leaf, r))
      × (resolve_offset m source path off ≡ some r)
      × Found source m.blocks leaf r
resolve_offset_total m source path off index b coherent known here low =
    let fits = get_elem?_bound m.blocks index here in
    let (leaf, r, answer, place) =
      answers source m.blocks coherent (length m.blocks) index off b fits here low in
    (
      leaf,
      r,
      answer,
      opened m source path off index known
          ∙ ap (Option.map (λ (x : ℕ × SourceResolution). x.1)) answer,
      place,
    )

-- An offset past the end of a Block's rendered text does not resolve, whatever the map.
pub resolve_offset_past_end :
    (m : SpanMap) (source : Text) (path : BlockPath) (off index : ℕ) (b : BlockSpan)
    → lookup_path path m.by_path ≡ some index
    → get_elem? m.blocks index ≡ some b
    → b.rendered_len < off
    → resolve_offset m source path off ≡ none
resolve_offset_past_end m source path off index b known here high =
    opened m source path off index known
    ∙ ap (Option.map (λ (x : ℕ × SourceResolution). x.1))
        (past_end source m.blocks (length m.blocks) index off b here high)
