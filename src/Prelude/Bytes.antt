-- ===== src/Prelude/Bytes.antt =====
-- Rust's `str` by its UTF-8 byte offsets: lengths, character boundaries and slices.
use mathlib.Core.Option
use mathlib.Core.Option.{Option, none, some}
use mathlib.Core.List.{[], ◌∷◌, ◌++◌}
use mathlib.Core.Path.{◌≡◌, refl, sym, ap, ap₂, ◌∙◌}
use mathlib.Core.Logic.{inl, inr}
use mathlib.Core.Bool.{Bool, true}
use Prim.Native.Nat.{ℕ, zero, suc, ◌+◌, ◌-◌, ◌≤◌}
use native.Mathlib.Omega.{arith}
use burlmd.Prelude.Tests.{
  ltb, leb, if◌then◌else◌, is_some, ◌>>=◌, unwrap_or, le→leb, leb→le, Bool-cases, Option-cases,
}
use burlmd.Prelude.Text.{Text}

abbrev pub len_utf8 : ℕ → ℕ
len_utf8 c = if ltb c 0x80 then 1 else if ltb c 0x800 then 2 else if ltb c 0x10000 then 3 else 4

abbrev pub len_utf16 : ℕ → ℕ
len_utf16 c = if ltb c 0x10000 then 1 else 2

-- `str::len`.
unfoldable pub byte_len : Text → ℕ
byte_len [] = 0
byte_len (c ∷ s) = len_utf8 c + byte_len s

-- The number of UTF-16 code units.
unfoldable pub utf16_len : Text → ℕ
utf16_len [] = 0
utf16_len (c ∷ s) = len_utf16 c + utf16_len s

abbrev cons_first : ℕ → Text × Text → Text × Text
cons_first c (a, b) = (c ∷ a, b)

-- The text before and after a byte offset, if that is a character boundary.
unfoldable pub split_at : Text → ℕ → Option (Text × Text)
split_at s zero = some ([], s)
split_at [] (suc n) = none
split_at (c ∷ s) (suc n) =
    if leb (len_utf8 c) (suc n)
    then Option.map (cons_first c) (split_at s (suc n - len_utf8 c))
    else none

unfoldable pub is_char_boundary : Text → ℕ → Bool
is_char_boundary s n = is_some (split_at s n)

-- `&s[..n]` and `&s[n..]`, used where `n` is known to be a boundary.
unfoldable pub slice_to : Text → ℕ → Text
slice_to s n = unwrap_or (Option.map (λ (p : Text × Text). p.0) (split_at s n)) []

unfoldable pub slice_from : Text → ℕ → Text
slice_from s n = unwrap_or (Option.map (λ (p : Text × Text). p.1) (split_at s n)) []

-- `Range<usize>`.
pub record Range : Type 0 where
  pub start : ℕ
  pub stop : ℕ

-- `s.get(start..stop)`.
unfoldable pub get : Text → Range → Option Text
get s r =
    if leb r.start r.stop
    then (split_at s r.start >>= λ (p : Text × Text).
        Option.map (λ (q : Text × Text). q.0) (split_at p.1 (r.stop - r.start)))
    else none

pub byte_len-append : (a b : Text) → byte_len (a ++ b) ≡ byte_len a + byte_len b
unfolding byte_len
byte_len-append [] b = omega arith
byte_len-append (c ∷ a) b = omega (arith, byte_len-append a b)

len_utf8_pos : (c : ℕ) → 1 ≤ len_utf8 c
len_utf8_pos c = ground arith

split_at-cons :
    (c : ℕ) (s : Text) (n : ℕ)
    → len_utf8 c ≤ n
    → split_at (c ∷ s) n ≡ Option.map (cons_first c) (split_at s (n - len_utf8 c))
unfolding split_at
split_at-cons c s zero h = absurd (omega (arith, len_utf8_pos c))
split_at-cons c s (suc n) h = rw (le→leb (len_utf8 c) (suc n) h)

pub split_at-append : (a b : Text) → split_at (a ++ b) (byte_len a) ≡ some (a, b)
unfolding byte_len
split_at-append [] b = unfold split_at in refl
split_at-append (c ∷ a) b =
    let less : len_utf8 c + byte_len a - len_utf8 c ≡ byte_len a = omega arith in
    split_at-cons c (a ++ b) (len_utf8 c + byte_len a) (omega arith)
    ∙ rw (less, split_at-append a b)

map-cons_first :
    (c : ℕ) (o : Option (Text × Text)) {a b : Text}
    → Option.map (cons_first c) o ≡ some (a, b)
    → (a' : Text) × (o ≡ some (a', b)) × (a ≡ c ∷ a')
map-cons_first c none h = cc
map-cons_first c (some (x, y)) h = (x, cc h, cc h)

-- Where a text splits: exactly at the byte length of a prefix.
pub split_at-eq-some :
    (s : Text) (n : ℕ) {a b : Text} → split_at s n ≡ some (a, b) → (s ≡ a ++ b) × (byte_len a ≡ n)
unfolding split_at byte_len
split_at-eq-some s zero h = (ground arith, ground arith)
split_at-eq-some [] (suc n) h = cc
split_at-eq-some (c ∷ s) (suc n) {a} {b} h = elim (Bool-cases (leb (len_utf8 c) (suc n))) [
  | inl e ↦
      let (a', split, shape) =
        map-cons_first c (split_at s (suc n - len_utf8 c)) {a = a} {b = b} (rw e at h) in
      let (text, len) = split_at-eq-some s (suc n - len_utf8 c) split in
      let fits : len_utf8 c ≤ suc n = leb→le _ _ e in (cc (text, shape), rw shape (omega arith))
  | inr e ↦ cc (rw e at h)
]

pub slice_to-append : (a b : Text) → slice_to (a ++ b) (byte_len a) ≡ a
unfolding slice_to
slice_to-append a b = rw (split_at-append a b)

pub slice_from-append : (a b : Text) → slice_from (a ++ b) (byte_len a) ≡ b
unfolding slice_from
slice_from-append a b = rw (split_at-append a b)

pub is_char_boundary-append : (a b : Text) → is_char_boundary (a ++ b) (byte_len a) ≡ true
unfolding is_char_boundary
is_char_boundary-append a b = rw (split_at-append a b)

-- The text at a character boundary.
pub boundary_split :
    (s : Text) (n : ℕ)
    → is_char_boundary s n ≡ true
    → (a : Text) × (b : Text) × (s ≡ a ++ b) × (byte_len a ≡ n)
unfolding is_char_boundary
boundary_split s n h = elim (Option-cases (split_at s n)) [
  | inl e ↦ cc (rw e at h)
  | inr ((a, b), e) ↦ let (p, q) = split_at-eq-some s n {a = a} {b = b} e in (a, b, p, q)
]

-- `get` answers exactly with the text between two boundaries.
pub get-append :
    (a m b : Text)
    → get (a ++ (m ++ b)) (record { start = byte_len a; stop = byte_len a + byte_len m }) ≡ some m
unfolding get
get-append a m b =
    let less : byte_len a + byte_len m - byte_len a ≡ byte_len m = omega arith in
    rw (
      le→leb (byte_len a) (byte_len a + byte_len m) (omega arith),
      split_at-append a (m ++ b),
      less,
      split_at-append m b,
    )

pub get-eq-some :
    (s : Text) (r : Range) {m : Text}
    → get s r ≡ some m
    → (a : Text) × (b : Text) × (s ≡ a ++ (m ++ b))
      × (byte_len a ≡ r.start)
      × (byte_len a + byte_len m ≡ r.stop)
unfolding get
get-eq-some s r {m} h = elim (Bool-cases (leb r.start r.stop)) [
  | inl e ↦ elim (Option-cases (split_at s r.start)) [
    | inl n ↦ cc (rw (e, n) at h)
    | inr ((a, rest), p) ↦ elim (Option-cases (split_at rest (r.stop - r.start))) [
      | inl n ↦ cc (rw (e, p, n) at h)
      | inr ((m', b), q) ↦
          let same : m' ≡ m = cc (rw (e, p, q) at h) in
          let (sa, la) = split_at-eq-some s r.start {a = a} {b = rest} p in
          let (sm, lm) = split_at-eq-some rest (r.stop - r.start) {a = m'} {b = b} q in
          let ordered : r.start ≤ r.stop = leb→le _ _ e in
          (a, b, cc (sa, sm, same), la, rw (← same) (omega arith))
    ]
  ]
  | inr e ↦ cc (rw e at h)
]

-- Of two prefixes of one text the shorter is a prefix of the longer.
pub prefix_of_prefix :
    (a b c d : Text) → a ++ b ≡ c ++ d → byte_len a ≤ byte_len c → (m : Text) × (c ≡ a ++ m)
unfolding byte_len
prefix_of_prefix [] b c d e h = (c, refl)
prefix_of_prefix (x ∷ a) b [] d e h = absurd (omega (arith, len_utf8_pos x))
prefix_of_prefix (x ∷ a) b (y ∷ c) d e h =
    let same : x ≡ y = cc in
    let rest : a ++ b ≡ c ++ d = cc in
    let widths : len_utf8 x ≡ len_utf8 y = ap len_utf8 same in
    let (m, f) = prefix_of_prefix a b c d rest (omega arith) in (m, cc (same, f))

-- `get-append` at a range and a text that are given by equations.
pub get-at :
    (a m b : Text) {s : Text} {r : Range}
    → s ≡ a ++ (m ++ b)
    → byte_len a ≡ r.start
    → byte_len a + byte_len m ≡ r.stop
    → get s r ≡ some m
get-at a m b {s} {r} text starts stops =
    let range : r ≡ record { start = byte_len a; stop = byte_len a + byte_len m } =
      λ i. record { start = sym starts i; stop = sym stops i } in
    ap₂ get text range ∙ get-append a m b
