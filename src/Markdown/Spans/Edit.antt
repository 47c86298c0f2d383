-- ===== src/Markdown/Spans/Edit.antt =====
-- `apply_buffered_edit`: while a leaf is typed in, the map keeps naming the text of every Block.
pub mod Places
pub mod Texts
use mathlib.Core.List.{append_cancel_left}
use mathlib.Core.Option
use native.Mathlib.Nat.{zero-add}
use burlmd.Prelude.{
  ℕ, zero, suc, ◌+◌, ◌-◌, ◌≤◌, ◌<◌, ◌≡◌, refl, sym, ap, ◌∙◌, ◌≢◌, ◌⊎◌, inl, inr, Bool, true, false,
  not, Option, none, some, List, [], ◌∷◌, ◌++◌, append_assoc, arith, ltb, leb, ◌==◌, ==_iff,
  get_elem?, Bool-cases, Option-cases, some_inj, map-eq-some, if◌then◌else◌, ◌>>=◌, subst,
}
use burlmd.Prelude.Text.{Text}
use burlmd.Prelude.Bytes.{Range, byte_len, byte_len-append, get, get-at, get-eq-some}
use burlmd.Markdown.Spans.{
  BlockPath, BlockSpan, SpanMap, block, lookup_path, is_leaf, path_starts_with, edit_block,
  edit_blocks, apply_buffered_edit, usize_max,
}
use burlmd.Markdown.Spans.Edit.Texts.{Edited, get-before, get-after, get-around}
use burlmd.Markdown.Spans.Edit.Places.{
  Placed, Moved, moved_same, moved_after, moved_around, edit_block-Moved, edit_block-Placed,
  edit_block-focused, path-edit_block, children-edit_block,
}

edit_at :
    (path : BlockPath) (index : ℕ) (e : Range) (new : ℕ) (bs : List BlockSpan) (position i : ℕ)
    → get_elem? (edit_blocks path index e new position bs) i
      ≡ Option.map (edit_block path index e new (position + i)) (get_elem? bs i)
unfolding edit_blocks
edit_at path index e new [] position i = refl
edit_at path index e new (b ∷ bs) position zero =
    let same : position + 0 ≡ position = omega arith in rw same
edit_at path index e new (b ∷ bs) position (suc i) =
    let same : suc position + i ≡ position + suc i = omega arith in
    edit_at path index e new bs (suc position) i
    ∙ ap (λ k. Option.map (edit_block path index e new k) (get_elem? bs i)) same

-- What an edit of the focused leaf does to every Block, for the two ways that the code goes.
record Editor (path : BlockPath) (index : ℕ) (e : Range) (new : ℕ) (f : ℕ → BlockSpan → BlockSpan)
    : Type 0 where
  moved :
      (i : ℕ) (b : BlockSpan)
      → i ≢ index
      → Placed path e b
      → b.source.stop + new ≤ usize_max + (e.stop - e.start)
      → Moved e (e.stop - e.start) new b.source (f i b).source
  placed :
      (i : ℕ) (b : BlockSpan)
      → i ≢ index
      → Placed path e b
      → b.source.stop + new ≤ usize_max + (e.stop - e.start)
      → Placed path (record { start = e.start; stop = e.start + new }) (f i b)
  focused :
      (b : BlockSpan)
      → b.source ≡ e
      → e.stop + new ≤ usize_max + (e.stop - e.start)
      → (f index b).source ≡ record { start = e.start; stop = e.start + new }
  children : (i : ℕ) (b : BlockSpan) → (f i b).children ≡ b.children
  paths : (i : ℕ) (b : BlockSpan) → (f i b).path ≡ b.path

edit_block-Editor :
    (path : BlockPath) (index : ℕ) (e : Range) (new : ℕ)
    → e.start ≤ e.stop
    → Editor path index e new (edit_block path index e new)
edit_block-Editor path index e new wide = record {
  moved = edit_block-Moved path index e new wide;
  placed = edit_block-Placed path index e new wide;
  focused = edit_block-focused path index e new wide;
  children = children-edit_block path index e new wide;
  paths = path-edit_block path index e new wide;
}

Placed-Moved :
    (path : BlockPath) (e : Range) (b : BlockSpan) (n : ℕ)
    → Placed path e b
    → Moved e n n b.source b.source
Placed-Moved path e b n (Placed.before apart some_text low) = moved_same low refl
Placed-Moved path e b n (Placed.after high ordered) = moved_after high refl refl
Placed-Moved path e b n (Placed.around inside low high) = moved_around low high refl refl

same_range :
    (e : Range) (new : ℕ)
    → e.start ≤ e.stop
    → new ≡ e.stop - e.start
    → e ≡ record { start = e.start; stop = e.start + new }
same_range e new wide same =
    let stop : e.stop ≡ e.start + new = omega arith in
    λ i. record { start = e.start; stop = stop i }

unchanged-Editor :
    (path : BlockPath) (index : ℕ) (e : Range) (new : ℕ)
    → e.start ≤ e.stop
    → new ≡ e.stop - e.start
    → Editor path index e new (λ _ b. b)
unchanged-Editor path index e new wide same = record {
  moved = λ i b ne p _. rw same (Placed-Moved path e b (e.stop - e.start) p);
  placed = λ i b ne p _. subst (λ r. Placed path r b) (same_range e new wide same) p;
  focused = λ b eq _. eq ∙ same_range e new wide same;
  children = λ _ _. refl;
  paths = λ _ _. refl;
}

-- The leaf that is being typed in, and how the map lies around it: its own Block is a leaf, every
-- other Block stands before it, after it or around it, and every Block has its text in the source.
pub record Focused (m : SpanMap) (path : BlockPath) (index : ℕ) (source focused : Text)
    : Type 0 where
  pub leaf : BlockSpan
  pub found : lookup_path path m.by_path ≡ some index
  pub elem : get_elem? m.blocks index ≡ some leaf
  pub is_a_leaf : is_leaf leaf ≡ true
  pub typed : get source leaf.source ≡ some focused
  pub others :
      (i : ℕ) (b : BlockSpan)
      → get_elem? m.blocks i ≡ some b
      → i ≢ index
      → Placed path leaf.source b × ((t : Text) × (get source b.source ≡ some t))

-- What becomes of another Block: its text is the same, or it is a container of the leaf and has the
-- leaf's new text in the place of the old.
abbrev pub Follows : Text → Text → Text → Text → Range → Range → Type 0
Follows source source' old new r r' =
    (t : Text)
    → get source r ≡ some t
    → (get source' r' ≡ some t)
      ⊎ ((x : Text) × (y : Text) × (t ≡ x ++ (old ++ y))
          × (get source' r' ≡ some (x ++ (new ++ y))))

Moved-Follows :
    {source source' old new : Text} {e : Range} (k : Edited source source' e old new)
    → (r r' : Range) → Moved e (byte_len old) (byte_len new) r r'
    → Follows source source' old new r r'
Moved-Follows k r r' (moved_same low same) t h = inl (rw same (get-before k r low h))
Moved-Follows k r r' (moved_after high from to) t h = inl (get-after k r r' high from to h)
Moved-Follows k r r' (moved_around low high from to) t h =
    inr (get-around k r r' low high from to h)

still_there :
    (source source' old new : Text) (r r' : Range)
    → Follows source source' old new r r'
    → (t : Text) × (get source r ≡ some t)
    → (t : Text) × (get source' r' ≡ some t)
still_there source source' old new r r' f (t, h) = elim (f t h) [
  | inl k ↦ (t, k)
  | inr (x, y, _, k) ↦ (x ++ (new ++ y), k)
]

get-stop-le : (s : Text) (r : Range) {t : Text} → get s r ≡ some t → r.stop ≤ byte_len s
get-stop-le s r {t} h =
    let (a, b, text, starts, stops) = get-eq-some s r h in
    rw (text, byte_len-append a (t ++ b), byte_len-append t b) (omega arith)

is_leaf-children : (b b' : BlockSpan) → b'.children ≡ b.children → is_leaf b' ≡ is_leaf b
unfolding is_leaf
is_leaf-children b b' h = rw h

module _ {m : SpanMap} {path : BlockPath} {index : ℕ} {source source' old new : Text}
    (h : Focused m path index source old) (k : Edited source source' h.leaf.source old new)
    (fits : byte_len source' ≤ usize_max) (f : ℕ → BlockSpan → BlockSpan)
    (ed : Editor path index h.leaf.source (byte_len new) f) (bs : List BlockSpan)
    (at : (i : ℕ) → get_elem? bs i ≡ Option.map (f i) (get_elem? m.blocks i)) where
  old_len : h.leaf.source.stop - h.leaf.source.start ≡ byte_len old
  old_len = omega (arith, k.starts, k.stops)

  lengths : byte_len source + byte_len new ≡ byte_len source' + byte_len old
  lengths =
      rw (k.was, k.is)
        (omega (
          arith,
          byte_len-append k.before (old ++ k.after),
          byte_len-append old k.after,
          byte_len-append k.before (new ++ k.after),
          byte_len-append new k.after,
        ))

  room :
      (r : Range) {t : Text}
      → get source r ≡ some t
      → r.stop + byte_len new ≤ usize_max + (h.leaf.source.stop - h.leaf.source.start)
  room r g = omega (arith, get-stop-le source r g, lengths, fits, old_len)

  follows :
      (i : ℕ) (b : BlockSpan)
      → get_elem? m.blocks i ≡ some b
      → i ≢ index
      → Follows source source' old new b.source (f i b).source
  follows i b e ne =
      let (p, (t, g)) = h.others i b e ne in
      Moved-Follows k b.source (f i b).source (
        subst (λ n. Moved h.leaf.source n (byte_len new) b.source (f i b).source) old_len
          (ed.moved i b ne p (room b.source g)))

  renewed : Focused (record m { blocks = bs }) path index source' new
  renewed =
      let leaf' = f index h.leaf in
      let span = ed.focused h.leaf refl (room h.leaf.source h.typed) in
      record {
        leaf = leaf';
        found = h.found;
        elem = at index ∙ ap (Option.map (f index)) h.elem;
        is_a_leaf = is_leaf-children h.leaf leaf' (ed.children index h.leaf) ∙ h.is_a_leaf;
        typed = rw span (get-at k.before new k.after k.is k.starts (omega (arith, k.starts)));
        others = λ i b' e ne.
            let (b, was, same) = map-eq-some (f i) (get_elem? m.blocks i) (sym (at i) ∙ e) in
            let (p, (t, g)) = h.others i b was ne in
            rw (← same, span)
              (
                ed.placed i b ne p (room b.source g),
                still_there source source' old new b.source (f i b).source (follows i b was ne)
                    (t, g),
              );
      }

-- What the map is after an edit, with what it says of every other Block.
pub record Renewed (m m' : SpanMap) (path : BlockPath) (index : ℕ) (source source' old new : Text)
    : Type 0 where
  pub refocused : Focused m' path index source' new
  pub kept :
      (i : ℕ) (b : BlockSpan)
      → get_elem? m.blocks i ≡ some b
      → i ≢ index
      → (b' : BlockSpan) × (get_elem? m'.blocks i ≡ some b')
        × (b'.path ≡ b.path)
        × Follows source source' old new b.source b'.source

Editor-Renewed :
    {m : SpanMap} {path : BlockPath} {index : ℕ} {source source' old new : Text}
    (h : Focused m path index source old)
    → Edited source source' h.leaf.source old new
    → byte_len source' ≤ usize_max
    → (f : ℕ → BlockSpan → BlockSpan) → Editor path index h.leaf.source (byte_len new) f
    → (bs : List BlockSpan) → ((i : ℕ) → get_elem? bs i ≡ Option.map (f i) (get_elem? m.blocks i))
    → Renewed m (record m { blocks = bs }) path index source source' old new
Editor-Renewed h k fits f ed bs at = record {
  refocused = renewed h k fits f ed bs at;
  kept = λ i b e ne.
      (f i b, at i ∙ ap (Option.map (f i)) e, ed.paths i b, follows h k fits f ed bs at i b e ne);
}

map-id : (o : Option BlockSpan) → o ≡ Option.map (λ b. b) o
map-id none = refl
map-id (some b) = refl

-- The edit goes through, and renews the map.
pub apply_buffered_edit-Renewed :
    {m : SpanMap} {path : BlockPath} {index : ℕ} {source source' old new : Text}
    (h : Focused m path index source old)
    → Edited source source' h.leaf.source old new
    → byte_len source' ≤ usize_max
    → (m' : SpanMap) × (apply_buffered_edit m path (byte_len new) ≡ some (h.leaf.source, m'))
      × Renewed m m' path index source source' old new
unfolding apply_buffered_edit
apply_buffered_edit-Renewed {m} {path} {index} {new = new} h k fits =
    let e = h.leaf.source in
    let wide : e.start ≤ e.stop = omega (arith, k.starts, k.stops) in
    elim (Bool-cases (byte_len new == e.stop - e.start)) [
      | inl same ↦ (
        m,
        rw (h.found, h.elem, h.is_a_leaf, same),
        Editor-Renewed h k fits (λ _ b. b)
            (unchanged-Editor path index e (byte_len new) wide ((==_iff _ _).0 same)) m.blocks
            (λ i. map-id (get_elem? m.blocks i)),
      )
      | inr other ↦ (
        record m { blocks = edit_blocks path index e (byte_len new) 0 m.blocks },
        rw (h.found, h.elem, h.is_a_leaf, other),
        Editor-Renewed h k fits (edit_block path index e (byte_len new))
            (edit_block-Editor path index e (byte_len new) wide)
            (edit_blocks path index e (byte_len new) 0 m.blocks)
            (λ i.
              edit_at path index e (byte_len new) m.blocks 0 i
              ∙ ap
                  (λ n.
                    Option.map (edit_block path index e (byte_len new) n) (get_elem? m.blocks i))
                  (zero-add i)),
      )
    ]
