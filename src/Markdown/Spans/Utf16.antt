-- ===== src/Markdown/Spans/Utf16.antt =====
-- The conversions of a UTF-16 offset: they answer exactly between two characters.
use burlmd.Prelude.{
  ℕ, ◌+◌, ◌≤◌, ◌≡◌, refl, ap, ◌∙◌, ◌↔◌, inl, inr, false, Option, none, some, [], ◌∷◌, ◌++◌, arith,
  ltb, ◌==◌, ==_iff, length, Bool-cases, if◌then◌else◌, some_inj,
}
use burlmd.Prelude.Text.{Text}
use burlmd.Prelude.Bytes.{len_utf8, len_utf16, utf16_len, byte_len}
use burlmd.Markdown.Spans.{scalar_loop, utf16_to_scalar_offset, byte_loop, utf16_to_byte_offset}

-- The place in a text after so many code units: between two characters.
pub record Place (text : Text) (units : ℕ) : Type 0 where
  pub before : Text
  pub after : Text
  pub cut : text ≡ before ++ after
  pub measured : utf16_len before ≡ units

module _ (weight : ℕ → ℕ) where
  -- Both loops, with what a character adds to the answer.
  loop : ℕ → ℕ → ℕ → Text → Option ℕ
  loop target units n [] = if target == units then some n else none
  loop target units n (c ∷ s) =
      let rest = loop target (units + len_utf16 c) (n + weight c) s in
      if target == units then some n else if ltb target (units + len_utf16 c) then none else rest

  total : Text → ℕ
  total [] = 0
  total (c ∷ s) = weight c + total s

  record Reached (target units n : ℕ) (s : Text) (r : ℕ) : Type 0 where
    before : Text
    after : Text
    cut : s ≡ before ++ after
    measured : units + utf16_len before ≡ target
    answer : r ≡ n + total before

  loop-Reached :
      (target units n : ℕ) (s : Text) {r : ℕ}
      → loop target units n s ≡ some r
      → Reached target units n s r
  unfolding loop total utf16_len
  loop-Reached target units n [] {r} h = elim (Bool-cases (target == units)) [
    | inl e ↦
        let same : target ≡ units = (==_iff target units).0 e in
        let answer : n ≡ r = some_inj (rw e at h) in
        record { before = []; after = []; cut = refl; measured = omega arith; answer = omega arith }
    | inr e ↦ cc (rw e at h)
  ]
  loop-Reached target units n (c ∷ s) {r} h = elim (Bool-cases (target == units)) [
    | inl e ↦
        let same : target ≡ units = (==_iff target units).0 e in
        let answer : n ≡ r = some_inj (rw e at h) in
        record {
          before = [];
          after = c ∷ s;
          cut = refl;
          measured = omega arith;
          answer = omega arith;
        }
    | inr e ↦ elim (Bool-cases (ltb target (units + len_utf16 c))) [
      | inl f ↦ cc (rw (e, f) at h)
      | inr f ↦
          let k = loop-Reached target (units + len_utf16 c) (n + weight c) s (rw (e, f) at h) in
          record {
            before = c ∷ k.before;
            after = k.after;
            cut = ap (λ t. c ∷ t) k.cut;
            measured = omega (arith, k.measured);
            answer = omega (arith, k.answer);
          }
    ]
  ]

  -- A character that ends no later than the target is passed.
  loop-pass :
      (target units n c : ℕ) (s : Text)
      → units + len_utf16 c ≤ target
      → loop target units n (c ∷ s) ≡ loop target (units + len_utf16 c) (n + weight c) s
  unfolding loop
  loop-pass target units n c s h =
      let later : (target == units) ≡ false = ground arith in
      let whole : ltb target (units + len_utf16 c) ≡ false = ground arith in rw (later, whole)

  reached-loop :
      (target units n : ℕ) (a b : Text)
      → target ≡ units + utf16_len a
      → loop target units n (a ++ b) ≡ some (n + total a)
  unfolding loop total utf16_len
  reached-loop target units n [] [] h = ground arith
  reached-loop target units n [] (c ∷ b) h = ground arith
  reached-loop target units n (c ∷ a) b h =
      let more : n + weight c + total a ≡ n + (weight c + total a) = omega arith in
      loop-pass target units n c (a ++ b) (omega arith)
      ∙ reached-loop target (units + len_utf16 c) (n + weight c) a b (omega arith)
      ∙ ap some more

  answered :
      (text : Text) {units : ℕ} (p : Place text units) → loop units 0 0 text ≡ some (total p.before)
  answered text {units} p =
      let t : total p.before ≡ 0 + total p.before = omega arith in
      rw (p.cut, t) (reached-loop units 0 0 p.before p.after (omega (arith, p.measured)))

scalar_loop-eq-loop :
    (target units n : ℕ) (s : Text) → scalar_loop target units n s ≡ loop (λ _. 1) target units n s
unfolding scalar_loop loop
scalar_loop-eq-loop target units n [] = refl
scalar_loop-eq-loop target units n (c ∷ s) =
    rw (scalar_loop-eq-loop target (units + len_utf16 c) (n + 1) s)

byte_loop-eq-loop :
    (target units n : ℕ) (s : Text) → byte_loop target units n s ≡ loop len_utf8 target units n s
unfolding byte_loop loop
byte_loop-eq-loop target units n [] = refl
byte_loop-eq-loop target units n (c ∷ s) =
    rw (byte_loop-eq-loop target (units + len_utf16 c) (n + len_utf8 c) s)

total-length : (s : Text) → total (λ _. 1) s ≡ length s
unfolding total
total-length [] = refl
total-length (c ∷ s) = omega (arith, total-length s)

total-byte_len : (s : Text) → total len_utf8 s ≡ byte_len s
unfolding total byte_len
total-byte_len [] = refl
total-byte_len (c ∷ s) = omega (arith, total-byte_len s)

-- A UTF-16 offset has a character offset exactly where it stands between two characters of the
-- text, and it is the number of characters before it. Inside a surrogate pair, or past the end,
-- there is none.
pub utf16_to_scalar_offset_iff :
    (text : Text) (units n : ℕ)
    → (utf16_to_scalar_offset text units ≡ some n)
      ↔ ((p : Place text units) × (n ≡ length p.before))
unfolding utf16_to_scalar_offset
utf16_to_scalar_offset_iff text units n = (
  λ h.
      let k = loop-Reached (λ _. 1) units 0 0 text (rw scalar_loop-eq-loop at h) in
      (
        record {
          before = k.before;
          after = k.after;
          cut = k.cut;
          measured = omega (arith, k.measured);
        },
        omega (arith, k.answer, total-length k.before),
      ),
  λ (p, e). rw (scalar_loop-eq-loop, e, ← total-length p.before) (answered (λ _. 1) text p),
)

-- A UTF-16 offset has a byte offset exactly where it stands between two characters of the text, and
-- it is the byte length of what stands before.
pub utf16_to_byte_offset_iff :
    (text : Text) (units n : ℕ)
    → (utf16_to_byte_offset text units ≡ some n)
      ↔ ((p : Place text units) × (n ≡ byte_len p.before))
unfolding utf16_to_byte_offset
utf16_to_byte_offset_iff text units n = (
  λ h.
      let k = loop-Reached len_utf8 units 0 0 text (rw byte_loop-eq-loop at h) in
      (
        record {
          before = k.before;
          after = k.after;
          cut = k.cut;
          measured = omega (arith, k.measured);
        },
        omega (arith, k.answer, total-byte_len k.before),
      ),
  λ (p, e). rw (byte_loop-eq-loop, e, ← total-byte_len p.before) (answered len_utf8 text p),
)
