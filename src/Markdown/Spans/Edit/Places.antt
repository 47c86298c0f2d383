-- ===== src/Markdown/Spans/Edit/Places.antt =====
-- Where one Block's span goes when another Block is typed in.
use burlmd.Prelude.{ℕ, ◌+◌, ◌-◌, ◌≤◌, ◌<◌, ◌≡◌, refl, ◌≢◌, true, false, arith, leb, ◌==◌}
use burlmd.Prelude.Bytes.{Range}
use burlmd.Markdown.Spans.{BlockPath, BlockSpan, path_starts_with, edit_block, shift, usize_max}

-- How another Block lies to the focused leaf, whose path and span are `path` and `e`: before it,
-- after it, or around it. A Block around it starts strictly before it, as a container's marker does.
pub data Placed (path : BlockPath) (e : Range) (b : BlockSpan) : Type 0 where
  before :
      path_starts_with b.path path ≡ false
      → b.source.start < b.source.stop
      → b.source.stop ≤ e.start
      → Placed path e b
  after : e.stop ≤ b.source.start → b.source.start ≤ b.source.stop → Placed path e b
  around :
      path_starts_with b.path path ≡ true
      → b.source.start < e.start
      → e.stop ≤ b.source.stop
      → Placed path e b

-- The span of a Block before and after the focused leaf's length went from `old` to `new` bytes.
pub data Moved (e : Range) (old new : ℕ) (b b' : Range) : Type 0 where
  moved_same : b.stop ≤ e.start → b' ≡ b → Moved e old new b b'
  moved_after :
      e.stop ≤ b.start
      → b'.start + old ≡ b.start + new
      → b'.stop + old ≡ b.stop + new
      → Moved e old new b b'
  moved_around :
      b.start < e.start
      → e.stop ≤ b.stop
      → b'.start ≡ b.start
      → b'.stop + old ≡ b.stop + new
      → Moved e old new b b'

shift_exact :
    (old new offset : ℕ)
    → old ≤ offset
    → offset + new ≤ usize_max + old
    → shift old new offset + old ≡ offset + new
unfolding shift
shift_exact old new offset h fits = ground arith

module _ (path : BlockPath) (index : ℕ) (e : Range) (new : ℕ) (wide : e.start ≤ e.stop) where
  -- No other Block is left out or moved wrongly, wherever it lies.
  pub edit_block-Moved :
      (position : ℕ) (b : BlockSpan)
      → position ≢ index
      → Placed path e b
      → b.source.stop + new ≤ usize_max + (e.stop - e.start)
      → Moved e (e.stop - e.start) new b.source (edit_block path index e new position b).source
  unfolding edit_block
  edit_block-Moved position b ne (before apart some_text low) fits =
      let other : (position == index) ≡ false = ground arith in
      let early : leb e.stop b.source.start ≡ false = ground arith in
      rw (other, early, apart) (moved_same low refl)
  edit_block-Moved position b ne (after high ordered) fits =
      let other : (position == index) ≡ false = ground arith in
      let late : leb e.stop b.source.start ≡ true = ground arith in
      rw (other, late)
        (moved_after high
          (shift_exact (e.stop - e.start) new b.source.start (omega arith) (omega arith))
          (shift_exact (e.stop - e.start) new b.source.stop (omega arith) (omega arith)))
  edit_block-Moved position b ne (around inside low high) fits =
      let other : (position == index) ≡ false = ground arith in
      let early : leb e.stop b.source.start ≡ false = ground arith in
      rw (other, early, inside)
        (moved_around low high refl
          (shift_exact (e.stop - e.start) new b.source.stop (omega arith) (omega arith)))

  -- The focused leaf itself keeps its start and takes the new length.
  pub edit_block-focused :
      (b : BlockSpan)
      → b.source ≡ e
      → e.stop + new ≤ usize_max + (e.stop - e.start)
      → (edit_block path index e new index b).source
        ≡ record { start = e.start; stop = e.start + new }
  unfolding edit_block
  edit_block-focused b same fits =
      let here : (index == index) ≡ true = ground arith in
      let exact = shift_exact (e.stop - e.start) new e.stop (omega arith) fits in
      let stop : shift (e.stop - e.start) new e.stop ≡ e.start + new = omega arith in
      rw (here, same, stop)

  pub path-edit_block :
      (position : ℕ) (b : BlockSpan) → (edit_block path index e new position b).path ≡ b.path
  unfolding edit_block
  path-edit_block position b = ground arith

  pub children-edit_block :
      (position : ℕ) (b : BlockSpan)
      → (edit_block path index e new position b).children ≡ b.children
  unfolding edit_block
  children-edit_block position b = ground arith

  -- The placement of a Block is what it was, so the next keystroke finds the map in order.
  pub edit_block-Placed :
      (position : ℕ) (b : BlockSpan)
      → position ≢ index
      → Placed path e b
      → b.source.stop + new ≤ usize_max + (e.stop - e.start)
      → Placed path
          (record { start = e.start; stop = e.start + new })
          (edit_block path index e new position b)
  unfolding edit_block
  edit_block-Placed position b ne (before apart some_text low) fits =
      let other : (position == index) ≡ false = ground arith in
      let early : leb e.stop b.source.start ≡ false = ground arith in
      rw (other, early, apart) (before apart some_text low)
  edit_block-Placed position b ne (after high ordered) fits =
      let other : (position == index) ≡ false = ground arith in
      let late : leb e.stop b.source.start ≡ true = ground arith in
      let from = shift_exact (e.stop - e.start) new b.source.start (omega arith) (omega arith) in
      let to = shift_exact (e.stop - e.start) new b.source.stop (omega arith) (omega arith) in
      rw (other, late) (after (omega arith) (omega arith))
  edit_block-Placed position b ne (around inside low high) fits =
      let other : (position == index) ≡ false = ground arith in
      let early : leb e.stop b.source.start ≡ false = ground arith in
      let to = shift_exact (e.stop - e.start) new b.source.stop (omega arith) (omega arith) in
      rw (other, early, inside) (around inside low (omega arith))
