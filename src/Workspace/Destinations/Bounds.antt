-- ===== src/Workspace/Destinations/Bounds.antt =====
-- Where the destination of a link is found.
use burlmd.Prelude.{
  ℕ, zero, suc, ◌+◌, ◌-◌, ◌≤◌, ◌<◌, max, ◌≡◌, ◌||◌, ◌&&◌, not, some, is_some, List, arith, ltb, leb,
  ◌==◌, get_elem?, Bool-cases, map-eq-some, some_inj, inl, inr,
}
use burlmd.Prelude.Text.{Text}
use burlmd.Okf.Links.{backslash}
use burlmd.Prelude.Bytes.{Range}
use burlmd.Workspace.Destinations.{
  byte_at, is_escaped, as_bytes, skip_whitespace, angle_end, plain_end, parse_destination,
  find_destination, destination_span,
}

skip_whitespace_low : (bytes : List ℕ) (fuel start : ℕ) → start ≤ skip_whitespace bytes fuel start
unfolding skip_whitespace
skip_whitespace_low bytes zero start = omega arith
skip_whitespace_low bytes (suc fuel) start =
    ground (arith, skip_whitespace_low bytes fuel (start + 1))

angle_end_bounds :
    (bytes : List ℕ) (limit fuel k : ℕ) {e : ℕ}
    → angle_end bytes limit fuel k ≡ some e
    → (k < e) × (e ≤ limit)
unfolding angle_end
angle_end_bounds bytes limit zero k h = cc
angle_end_bounds bytes limit (suc fuel) k {e} h =
    let escaped = angle_end_bounds bytes limit fuel (k + 2) {e = e} in
    let next = angle_end_bounds bytes limit fuel (k + 1) {e = e} in
    elim (Bool-cases (leb limit k)) [
      | inl f ↦ cc (rw f at h)
      | inr f ↦
          let room : k < limit = ground arith in
          elim (Bool-cases (byte_at bytes k == backslash)) [
            | inl g ↦ let b = escaped (rw (f, g) at h) in omega arith
            | inr g ↦ elim (Bool-cases (byte_at bytes k == b'>')) [
              | inl q ↦ let same : k + 1 ≡ e = some_inj (rw (f, g, q) at h) in omega arith
              | inr q ↦ let b = next (rw (f, g, q) at h) in omega arith
            ]
          ]
    ]

plain_end_bounds :
    (bytes : List ℕ) (limit fuel depth k : ℕ)
    → k ≤ limit + 1
    → (k ≤ plain_end bytes limit fuel depth k) × (plain_end bytes limit fuel depth k ≤ limit + 1)
unfolding plain_end
plain_end_bounds bytes limit zero depth k h = omega arith
plain_end_bounds bytes limit (suc fuel) depth k h = elim (Bool-cases (leb limit k)) [
  | inl f ↦ rw f (omega arith)
  | inr f ↦
      let room : k < limit = ground arith in
      let escaped = plain_end_bounds bytes limit fuel depth (k + 2) (omega arith) in
      let deeper = plain_end_bounds bytes limit fuel (depth + 1) (k + 1) (omega arith) in
      let shallower = plain_end_bounds bytes limit fuel (depth - 1) (k + 1) (omega arith) in
      let next = plain_end_bounds bytes limit fuel depth (k + 1) (omega arith) in
      rw f (ground arith)
]

parse_destination_bounds :
    (bytes : List ℕ) (from limit : ℕ) {r : Range}
    → parse_destination bytes from limit ≡ some r
    → (from ≤ r.start) × (r.start < r.stop) × (r.stop ≤ limit + 1)
unfolding parse_destination
parse_destination_bounds bytes from limit {r} h =
    let start = skip_whitespace bytes (limit - from) from in
    let low = skip_whitespace_low bytes (limit - from) from in
    elim (Bool-cases (leb limit start)) [
      | inl f ↦ cc (rw f at h)
      | inr f ↦
          let room : start < limit = ground arith in
          elim (Bool-cases (byte_at bytes start == b'<')) [
            | inl g ↦
                let (k, e, same) =
                  map-eq-some _ (angle_end bytes limit (limit - start) (start + 1))
                    (rw (f, g) at h) in
                let b = angle_end_bounds bytes limit (limit - start) (start + 1) {e = k} e in
                rw (← same) (omega arith)
            | inr g ↦
                let k = plain_end bytes limit (limit - start) 0 start in
                let b = plain_end_bounds bytes limit (limit - start) 0 start (omega arith) in
                elim (Bool-cases (ltb start k)) [
                  | inl q ↦
                      let same : some (record { start = start; stop = k }) ≡ some r =
                        (rw (f, g, q) at h) in
                      let less : start < k = ground arith in rw (← some_inj same) (omega arith)
                  | inr q ↦ cc (rw (f, g, q) at h)
                ]
          ]
    ]

find_destination_bounds :
    (bytes : List ℕ) (limit fuel i : ℕ) {r : Range}
    → find_destination bytes limit fuel i ≡ some r
    → (i + 2 ≤ r.start) × (r.start < r.stop) × (r.stop ≤ limit + 1)
unfolding find_destination
find_destination_bounds bytes limit zero i h = cc
find_destination_bounds bytes limit (suc fuel) i {r} h =
    elim (Bool-cases (leb limit i || not (is_some (get_elem? bytes i)))) [
      | inl f ↦ cc (rw f at h)
      | inr f ↦ elim (Bool-cases (byte_at bytes i == b']' && not (is_escaped bytes i))) [
        | inl g ↦ elim (Bool-cases (byte_at bytes (i + 1) == b'(')) [
          | inl q ↦ parse_destination_bounds bytes (i + 2) limit {r = r} (rw (f, g, q) at h)
          | inr q ↦ cc (rw (f, g, q) at h)
        ]
        | inr g ↦
            let b = find_destination_bounds bytes limit fuel (i + 1) {r = r} (rw (f, g) at h) in
            (omega (arith, b.0), b.1, b.2)
      ]
    ]

-- A link's destination, where one is found, is not empty, starts after the link's text and at least
-- three bytes into the link, and ends at most one byte after the link's last.
pub destination_span_bounds :
    (source : Text) (span : Range) (text_end : ℕ) {r : Range}
    → destination_span source span text_end ≡ some r
    → (text_end + 2 ≤ r.start)
      × (span.start + 3 ≤ r.start)
      × (r.start < r.stop)
      × (r.stop ≤ span.stop + 1)
unfolding destination_span
destination_span_bounds source span text_end {r} h =
    let from = max text_end (span.start + 1) in
    let b = find_destination_bounds (as_bytes source) span.stop (span.stop - from) from {r = r} h in
    let (low, wide, high) = b in (omega arith, omega arith, wide, high)
