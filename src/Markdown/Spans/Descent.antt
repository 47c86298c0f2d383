-- ===== src/Markdown/Spans/Descent.antt =====
-- The way down from a Block to a leaf: where each step goes, and that it ends.
use mathlib.Core.Option
use native.Mathlib.Decide.{dec_le}
use burlmd.Prelude.{
  ℕ, zero, suc, ◌+◌, ◌-◌, ◌≤◌, ◌<◌, ◌≡◌, refl, sym, ap, ◌∙◌, Bool, true, false, Option, none, some,
  List, [], ◌∷◌, arith, ltb, leb, ◌==◌, get_elem?, get_elem?_total, get_elem?_bound, All,
  Bool-cases, inl, inr, if◌then◌else◌, ◌>>=◌,
}
use burlmd.Prelude.Text.{Text}
use burlmd.Markdown.Spans.{
  BlockSpan, InlineRun, SourceResolution, boundary, is_leaf, runs_end, resolve_runs, child_len,
  find_child, resolve_leaf_at,
}
use burlmd.Markdown.Spans.Runs.{Tiled, Within, resolve_runs_total, runs_end_low}

-- The length of the children's rendered texts, with one more character after each.
abbrev pub joined : List BlockSpan → List ℕ → ℕ
joined blocks [] = 0
joined blocks (c ∷ cs) = child_len blocks c + (1 + joined blocks cs)

-- What the builder makes: a Block comes after its children, a leaf's runs tile its rendered text, and
-- a container's rendered text is its children's with one character between two.
abbrev pub IsBlock : Text → List BlockSpan → ℕ → BlockSpan → List ℕ → Type 0
IsBlock source blocks i b [] = Tiled source b.rendered_len 0 b.source.start b.runs
IsBlock source blocks i b (c ∷ cs) =
    (b.rendered_len + 1 ≡ joined blocks (c ∷ cs)) × All (λ child. child < i) (c ∷ cs)

abbrev pub IsCoherent : Text → List BlockSpan → Type 0
IsCoherent source blocks =
    (i : ℕ) (b : BlockSpan) → get_elem? blocks i ≡ some b → IsBlock source blocks i b b.children

by_flag_true : {A : Type 0} {b : Bool} (x y : A) → b ≡ true → (if b then x else y) ≡ x
by_flag_true x y e = rw e

by_flag_false : {A : Type 0} {b : Bool} (x y : A) → b ≡ false → (if b then x else y) ≡ y
by_flag_false x y e = rw e

find_child_total :
    (P : ℕ → Type 0) (blocks : List BlockSpan) (off consumed : ℕ) (children : List ℕ)
    → All P children
    → consumed ≤ off
    → off < consumed + joined blocks children
    → (child k : ℕ) × (find_child blocks off consumed children ≡ some (child, k))
      × P child
      × (k ≤ child_len blocks child)
unfolding find_child
find_child_total P blocks off consumed [] h from low = absurd (omega arith)
find_child_total P blocks off consumed (c ∷ cs) h from low =
    elim (dec_le off (consumed + child_len blocks c)) [
      | yes p ↦
          let here : leb off (consumed + child_len blocks c) ≡ true = ground arith in
          (c, off - consumed, by_flag_true _ _ here, h.0, omega arith)
      | no p ↦
          let (child, k, e, x, y) =
            find_child_total P blocks off (consumed + (child_len blocks c + 1)) cs h.1 (omega arith)
              (omega arith) in
          let past : leb off (consumed + child_len blocks c) ≡ false = ground arith in
          (child, k, by_flag_false _ _ past ∙ e, x, y)
    ]

-- A place in the source that a leaf gives.
pub record Found (source : Text) (blocks : List BlockSpan) (leaf : ℕ) (r : SourceResolution)
    : Type 0 where
  pub span : BlockSpan
  pub at_leaf : get_elem? blocks leaf ≡ some span
  pub childless : is_leaf span ≡ true
  pub within : Within span.source.start (runs_end span.source.start span.runs) r

resolve_runs_first :
    (source : Text) (total s : ℕ) (runs : List InlineRun) (off : ℕ)
    → Tiled source total 0 s runs
    → off ≤ total
    → (a : SourceResolution) × (resolve_runs source (runs_end s runs) none runs off ≡ some a)
      × Within s (runs_end s runs) a
unfolding resolve_runs runs_end
resolve_runs_first source total s [] off h low = (boundary s s, refl, omega arith)
resolve_runs_first source total s (run ∷ runs) off h low =
    elim (Bool-cases (off == run.rendered.start)) [
      | inl at ↦
          let tail = runs_end_low source total run.rendered.stop run.source.stop runs h.5 in
          (
            boundary run.source.start run.source.start,
            by_flag_true _ _ at,
            record {
              start_low = h.2;
              start_high = omega arith;
              end_low = h.2;
              end_high = omega arith;
            },
          )
      | inr past ↦
          let (a, e, w) =
            resolve_runs_total source total 0 s (run ∷ runs) off h (omega arith) low in
          (a, by_flag_false _ _ past ∙ sym (by_flag_false _ _ past) ∙ e, w)
    ]

childless_is_leaf : (b : BlockSpan) → b.children ≡ [] → is_leaf b ≡ true
unfolding is_leaf
childless_is_leaf b e = ap (λ (cs : List ℕ). elim cs [ [] ↦ true | c ∷ rest ↦ false ]) e

parent_is_leaf : (b : BlockSpan) {c : ℕ} {cs : List ℕ} → b.children ≡ c ∷ cs → is_leaf b ≡ false
unfolding is_leaf
parent_is_leaf b e = ap (λ (cs : List ℕ). elim cs [ [] ↦ true | c ∷ rest ↦ false ]) e

-- One step of the way down.
module _ (source : Text) (blocks : List BlockSpan) (fuel index off : ℕ) (b : BlockSpan) where
  at_leaf_step :
      get_elem? blocks index ≡ some b
      → off ≤ b.rendered_len
      → is_leaf b ≡ true
      → resolve_leaf_at (suc fuel) source blocks index off
        ≡ Option.map
            (λ r. (index, r))
            (resolve_runs source (runs_end b.source.start b.runs) none b.runs off)
  unfolding resolve_leaf_at
  at_leaf_step here low leaf =
      let within : ltb b.rendered_len off ≡ false = ground arith in rw (here, within, leaf)

  at_parent_step :
      get_elem? blocks index ≡ some b
      → off ≤ b.rendered_len
      → is_leaf b ≡ false
      → resolve_leaf_at (suc fuel) source blocks index off ≡ (
          find_child blocks off 0 b.children >>= λ (found : ℕ × ℕ).
          resolve_leaf_at fuel source blocks found.0 found.1)
  unfolding resolve_leaf_at
  at_parent_step here low parent =
      let within : ltb b.rendered_len off ≡ false = ground arith in rw (here, within, parent)

  pub past_end_step :
      get_elem? blocks index ≡ some b
      → b.rendered_len < off
      → resolve_leaf_at (suc fuel) source blocks index off ≡ none
  unfolding resolve_leaf_at
  past_end_step here high =
      let beyond : ltb b.rendered_len off ≡ true = ground arith in rw (here, beyond)

-- What a fuel gives for every Block below it.
abbrev Answers : ℕ → Text → List BlockSpan → Type 0
Answers fuel source blocks =
    (index off : ℕ) (b : BlockSpan)
    → index < fuel
    → get_elem? blocks index ≡ some b
    → off ≤ b.rendered_len
    → (leaf : ℕ) × (r : SourceResolution) × (resolve_leaf_at fuel source blocks index off
        ≡ some (leaf, r))
      × Found source blocks leaf r

child_len_lem :
    (blocks : List BlockSpan) (i : ℕ) (b : BlockSpan)
    → get_elem? blocks i ≡ some b
    → child_len blocks i ≡ b.rendered_len
unfolding child_len
child_len_lem blocks i b e = rw e

Answers-suc :
    (fuel : ℕ) (source : Text) (blocks : List BlockSpan) (index off : ℕ) (b : BlockSpan)
    → Answers fuel source blocks
    → index < suc fuel
    → get_elem? blocks index ≡ some b
    → off ≤ b.rendered_len
    → (children : List ℕ) → b.children ≡ children
    → IsBlock source blocks index b children
    → (leaf : ℕ) × (r : SourceResolution) × (resolve_leaf_at (suc fuel) source blocks index off
        ≡ some (leaf, r))
      × Found source blocks leaf r
Answers-suc fuel source blocks index off b below low here within [] e h =
    let (r, found, place) =
      resolve_runs_first source b.rendered_len b.source.start b.runs off h within in
    let leaf = childless_is_leaf b e in
    (
      index,
      r,
      at_leaf_step source blocks fuel index off b here within leaf
          ∙ ap (Option.map (λ x. (index, x))) found,
      record { span = b; at_leaf = here; childless = leaf; within = place },
    )
Answers-suc fuel source blocks index off b below low here within (c ∷ cs) e h =
    let (child, k, found, earlier, fits) =
      find_child_total (λ child. child < index) blocks off 0 (c ∷ cs) h.1 (omega arith)
        (omega (arith, h.0)) in
    let (span, there) =
      get_elem?_total blocks child (omega (arith, get_elem?_bound blocks index here)) in
    let (leaf, r, answer, place) =
      below child k span (omega arith) there
        (omega (arith, child_len_lem blocks child span there)) in
    (
      leaf,
      r,
      at_parent_step source blocks fuel index off b here within (parent_is_leaf b e)
          ∙ ap
              (λ (m : Option (ℕ × ℕ)).
                m >>= λ (at : ℕ × ℕ). resolve_leaf_at fuel source blocks at.0 at.1)
              (ap (find_child blocks off 0) e ∙ found)
          ∙ answer,
      place,
    )

pub answers :
    (source : Text) (blocks : List BlockSpan)
    → IsCoherent source blocks
    → (fuel : ℕ) → Answers fuel source blocks
answers source blocks coherent zero = λ index off b low here within. absurd (omega arith)
answers source blocks coherent (suc fuel) = λ index off b low here within.
    Answers-suc fuel source blocks index off b (answers source blocks coherent fuel) low here within
      b.children refl (coherent index b here)
