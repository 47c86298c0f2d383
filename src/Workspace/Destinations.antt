-- ===== src/Workspace/Destinations.antt =====
-- rust/src/workspace/links_rewrite.rs: the search for a link's destination in the bytes of the source.
pub mod Bounds
use mathlib.Core.Option
use burlmd.Prelude.{
  ℕ, zero, suc, ◌+◌, ◌-◌, ◌/◌, ◌%◌, max, Bool, true, false, not, ◌||◌, ◌&&◌, ◌==◌, leb, ltb, Option,
  none, some, is_some, List, [], ◌∷◌, ◌++◌, get_elem?, if◌then◌else◌, ◌>>=◌, unwrap_or,
}
use burlmd.Prelude.Text.{Text, codes, text_eq, starts_with}
use burlmd.Prelude.Bytes.{Range, byte_len, is_char_boundary, slice_to, slice_from}
use burlmd.Error.{AppError, parse_error, Result, ok, err}
use burlmd.Okf.ConceptId.{slash, concept_id_to_path}
use burlmd.Okf.Links.{
  LinkTarget, internal, external, classify, resolve_bundle_path, serialize_destination, backslash,
}

-- `str::as_bytes`: UTF-8.
encode : ℕ → List ℕ
encode c =
    if ltb c 128
    then c ∷ []
    else if ltb c 2048
    then (192 + c / 64) ∷ (128 + c % 64) ∷ []
    else if ltb c 65536
    then (224 + c / 4096) ∷ (128 + c / 64 % 64) ∷ (128 + c % 64) ∷ []
    else (240 + c / 262144) ∷ (128 + c / 4096 % 64) ∷ (128 + c / 64 % 64) ∷ (128 + c % 64) ∷ []

unfoldable pub as_bytes : Text → List ℕ
unfolding encode
as_bytes [] = []
as_bytes (c ∷ s) = encode c ++ as_bytes s

-- `bytes[i]`; past the end, where the code would panic, a byte that is no ASCII character.
byte_at : List ℕ → ℕ → ℕ
byte_at bytes i = unwrap_or (get_elem? bytes i) 255

abbrev is_ascii_whitespace : ℕ → Bool
is_ascii_whitespace b = b == 32 || (b == 9 || (b == 10 || (b == 12 || b == 13)))

-- The backslashes that stand directly before an index.
backslashes : List ℕ → ℕ → ℕ
unfolding byte_at
backslashes bytes zero = 0
backslashes bytes (suc i) =
    let rest = backslashes bytes i in if byte_at bytes i == backslash then 1 + rest else 0

unfoldable pub is_escaped : List ℕ → ℕ → Bool
unfolding backslashes
is_escaped bytes index = backslashes bytes index % 2 == 1

-- The loops of `parse_destination`, on the number of bytes up to the limit as fuel.
unfoldable pub skip_whitespace : List ℕ → ℕ → ℕ → ℕ
unfolding byte_at
skip_whitespace bytes zero start = start
skip_whitespace bytes (suc fuel) start =
    let rest = skip_whitespace bytes fuel (start + 1) in
    if is_ascii_whitespace (byte_at bytes start) then rest else start

unfoldable pub angle_end : List ℕ → ℕ → ℕ → ℕ → Option ℕ
unfolding byte_at
angle_end bytes limit zero k = none
angle_end bytes limit (suc fuel) k =
    let after_escape = angle_end bytes limit fuel (k + 2) in
    let rest = angle_end bytes limit fuel (k + 1) in
    if leb limit k
    then none
    else if byte_at bytes k == backslash
    then after_escape
    else if byte_at bytes k == b'>'
    then some (k + 1)
    else rest

unfoldable pub plain_end : List ℕ → ℕ → ℕ → ℕ → ℕ → ℕ
unfolding byte_at
plain_end bytes limit zero depth k = k
plain_end bytes limit (suc fuel) depth k =
    let after_escape = plain_end bytes limit fuel depth (k + 2) in
    let deeper = plain_end bytes limit fuel (depth + 1) (k + 1) in
    let shallower = plain_end bytes limit fuel (depth - 1) (k + 1) in
    let rest = plain_end bytes limit fuel depth (k + 1) in
    if leb limit k
    then k
    else if byte_at bytes k == backslash
    then after_escape
    else if byte_at bytes k == b'('
    then deeper
    else if byte_at bytes k == b')'
    then (if depth == 0 then k else shallower)
    else if is_ascii_whitespace (byte_at bytes k)
    then k
    else rest

unfoldable pub parse_destination : List ℕ → ℕ → ℕ → Option Range
unfolding byte_at
parse_destination bytes from limit =
    let start = skip_whitespace bytes (limit - from) from in
    if leb limit start
    then none
    else if byte_at bytes start == b'<'
    then Option.map (λ k. record { start = start; stop = k })
        (angle_end bytes limit (limit - start) (start + 1))
    else (let k = plain_end bytes limit (limit - start) 0 start in
        if ltb start k then some (record { start = start; stop = k }) else none)

-- The loop of `destination_span`, with the bytes left as fuel.
unfoldable pub find_destination : List ℕ → ℕ → ℕ → ℕ → Option Range
unfolding byte_at
find_destination bytes limit zero i = none
find_destination bytes limit (suc fuel) i =
    let rest = find_destination bytes limit fuel (i + 1) in
    if leb limit i || not (is_some (get_elem? bytes i))
    then none
    else if byte_at bytes i == b']' && not (is_escaped bytes i)
    then (if byte_at bytes (i + 1) == b'(' then parse_destination bytes (i + 2) limit else none)
    else rest

unfoldable pub destination_span : Text → Range → ℕ → Option Range
destination_span source span text_end =
    let from = max text_end (span.start + 1) in
    find_destination (as_bytes source) span.stop (span.stop - from) from
