-- ===== src/Workspace/Title/Laws.antt =====
-- What a YAML reader makes of a written title.
use burlmd.Prelude.{
  ℕ, ◌/◌, ◌%◌, ◌≡◌, refl, ap, ◌∙◌, ◌⊎◌, inl, inr, Bool, true, false, not, &&-true, ◌==◌, ==_iff,
  ◌≤◌, [], ◌∷◌, ◌++◌, append_assoc, all, Bool-cases, arith,
}
use burlmd.Prelude.Text.{Text, contains, ends_with}
use burlmd.Okf.Links.{backslash}
use burlmd.Workspace.Title.{
  is_control, hex, hex_digit, escape, escape_all, is_plain_char, is_plain, yaml_scalar,
  starts_alphabetic,
}

-- What a YAML parser (saphyr, a third-party crate) reads after the opening quote of a double-quoted
-- scalar: its value and what follows the closing quote. YAML 1.2 §5.7 and §7.3.1: these escapes stand
-- for these characters; a character that is neither a quote, a backslash nor a control character
-- stands for itself.
pub record Reader : Type 0 where
  pub scan : Text → Text × Text
  pub closing : (s : Text) → scan (b'"' ∷ s) ≡ ([], s)
  pub quote : (s : Text) → scan (backslash ∷ b'"' ∷ s) ≡ (b'"' ∷ (scan s).0, (scan s).1)
  pub backslashes :
      (s : Text) → scan (backslash ∷ backslash ∷ s) ≡ (backslash ∷ (scan s).0, (scan s).1)
  pub feed : (s : Text) → scan (backslash ∷ b'n' ∷ s) ≡ (10 ∷ (scan s).0, (scan s).1)
  pub return : (s : Text) → scan (backslash ∷ b'r' ∷ s) ≡ (13 ∷ (scan s).0, (scan s).1)
  pub tab : (s : Text) → scan (backslash ∷ b't' ∷ s) ≡ (9 ∷ (scan s).0, (scan s).1)
  pub unicode :
      (c : ℕ) (s : Text)
      → is_control c ≡ true
      → scan (backslash ∷ b'u' ∷ (hex c ++ s)) ≡ (c ∷ (scan s).0, (scan s).1)
  pub plain :
      (c : ℕ) (s : Text)
      → (c == b'"') ≡ false
      → (c == backslash) ≡ false
      → is_control c ≡ false
      → scan (c ∷ s) ≡ (c ∷ (scan s).0, (scan s).1)

module _ (r : Reader) where
  scan-escape : (c : ℕ) (s : Text) → r.scan (escape c ++ s) ≡ (c ∷ (r.scan s).0, (r.scan s).1)
  unfolding escape
  scan-escape c s = elim (Bool-cases (c == b'"')) [
    | inl e ↦ rw (e, (==_iff c b'"').0 e) (r.quote s)
    | inr q ↦ elim (Bool-cases (c == backslash)) [
      | inl e ↦ rw (q, e, (==_iff c backslash).0 e) (r.backslashes s)
      | inr b ↦ elim (Bool-cases (c == 10)) [
        | inl e ↦ rw (q, b, e, (==_iff c 10).0 e) (r.feed s)
        | inr n ↦ elim (Bool-cases (c == 13)) [
          | inl e ↦ rw (q, b, n, e, (==_iff c 13).0 e) (r.return s)
          | inr t ↦ elim (Bool-cases (c == 9)) [
            | inl e ↦ rw (q, b, n, t, e, (==_iff c 9).0 e) (r.tab s)
            | inr u ↦ elim (Bool-cases (is_control c)) [
              | inl e ↦ rw (q, b, n, t, u, e) (r.unicode c s e)
              | inr e ↦ rw (q, b, n, t, u, e) (r.plain c s q b e)
            ]
          ]
        ]
      ]
    ]
  ]

  scan-escape_all : (value rest : Text) → r.scan (escape_all value ++ b'"' ∷ rest) ≡ (value, rest)
  unfolding escape_all
  scan-escape_all [] rest = r.closing rest
  scan-escape_all (c ∷ s) rest =
      ap r.scan (append_assoc (escape c) (escape_all s) (b'"' ∷ rest))
      ∙ scan-escape c (escape_all s ++ b'"' ∷ rest)
      ∙ ap (λ (x : Text × Text). (c ∷ x.0, x.1)) (scan-escape_all s rest)

  -- A title is written plainly, as it is, only if it starts with a letter and is made of letters,
  -- digits and the few allowed marks; otherwise it is written between double quotes, and a reader of
  -- YAML's double-quoted scalars gets back this very title and stops at the closing quote, whatever
  -- follows.
  pub yaml_scalar-scan :
      (is_alphanumeric : ℕ → Bool) (value rest : Text)
      → ((yaml_scalar is_alphanumeric value ≡ value)
          × (starts_alphabetic value ≡ true)
          × (all (is_plain_char is_alphanumeric) value ≡ true))
        ⊎ ((inside : Text) × (yaml_scalar is_alphanumeric value ≡ b'"' ∷ (inside ++ b'"' ∷ []))
            × (r.scan (inside ++ b'"' ∷ rest) ≡ (value, rest)))
  unfolding yaml_scalar is_plain
  yaml_scalar-scan is_alphanumeric value rest = elim (Bool-cases (is_plain is_alphanumeric value)) [
    | inl e ↦
        let (a, b) = &&-true (starts_alphabetic value) _ e in
        let (_, c) = &&-true (not (ends_with (b' ' ∷ []) value)) _ b in
        let (_, d) = &&-true _ _ c in
        let (_, f) = &&-true _ _ d in
        let (g, _) = &&-true (all (is_plain_char is_alphanumeric) value) _ f in inl (rw e, a, g)
    | inr e ↦ inr (escape_all value, rw e, scan-escape_all value rest)
  ]

high_digit : (d k : ℕ) → k ≤ 31 → (hex_digit d == k) ≡ false
high_digit d k h = ground arith

contains-hex : (c k : ℕ) → k ≤ 31 → contains k (hex c) ≡ false
unfolding hex
contains-hex c k h = rw (
  high_digit (c / 4096 % 16) k h,
  high_digit (c / 256 % 16) k h,
  high_digit (c / 16 % 16) k h,
  high_digit (c % 16) k h,
)

apart : (a k : ℕ) → k ≤ 31 → 32 ≤ a → (a == k) ≡ false
apart a k low high = ground arith

printed : (k c : ℕ) → k ≤ 31 → is_control c ≡ false → (c == k) ≡ false
unfolding is_control
printed k c h e = ground arith

contains-escape : (k c : ℕ) → k ≤ 31 → contains k (escape c) ≡ false
unfolding escape
contains-escape k c h =
    let b = apart backslash k h (omega arith) in
    elim (Bool-cases (c == b'"')) [
      | inl e ↦ rw (e, b, apart b'"' k h (omega arith))
      | inr q ↦ elim (Bool-cases (c == backslash)) [
        | inl e ↦ rw (q, e, b)
        | inr s ↦ elim (Bool-cases (c == 10)) [
          | inl e ↦ rw (q, s, e, b, apart b'n' k h (omega arith))
          | inr n ↦ elim (Bool-cases (c == 13)) [
            | inl e ↦ rw (q, s, n, e, b, apart b'r' k h (omega arith))
            | inr t ↦ elim (Bool-cases (c == 9)) [
              | inl e ↦ rw (q, s, n, t, e, b, apart b't' k h (omega arith))
              | inr u ↦ elim (Bool-cases (is_control c)) [
                | inl e ↦
                    rw (q, s, n, t, u, e, b, apart b'u' k h (omega arith)) (contains-hex c k h)
                | inr e ↦ rw (q, s, n, t, u, e, printed k c h e)
              ]
            ]
          ]
        ]
      ]
    ]

contains-append :
    (k : ℕ) (s t : Text) → contains k s ≡ false → contains k t ≡ false → contains k (s ++ t) ≡ false
contains-append k [] t h g = g
contains-append k (c ∷ s) t h g = elim (Bool-cases (c == k)) [
  | inl e ↦ cc (rw e at h)
  | inr e ↦ rw e (contains-append k s t (rw e at h) g)
]

contains-escape_all : (k : ℕ) (s : Text) → k ≤ 31 → contains k (escape_all s) ≡ false
unfolding escape_all
contains-escape_all k [] h = refl
contains-escape_all k (c ∷ s) h =
    contains-append k (escape c) (escape_all s) (contains-escape k c h) (contains-escape_all k s h)

control_is_plain_char :
    (is_alphanumeric : ℕ → Bool) (k : ℕ)
    → k ≤ 31
    → is_alphanumeric k ≡ false
    → is_plain_char is_alphanumeric k ≡ false
unfolding is_plain_char
control_is_plain_char is_alphanumeric k h n = rw (
  n,
  apart' b' ' k h (omega arith),
  apart' b'_' k h (omega arith),
  apart' b'-' k h (omega arith),
  apart' b'.' k h (omega arith),
  apart' b'(' k h (omega arith),
  apart' b')' k h (omega arith),
)
  where
    apart' : (a k : ℕ) → k ≤ 31 → 32 ≤ a → (k == a) ≡ false
    apart' a k low high = ground arith

contains-plain :
    (is_alphanumeric : ℕ → Bool) (k : ℕ) (s : Text)
    → k ≤ 31
    → is_alphanumeric k ≡ false
    → all (is_plain_char is_alphanumeric) s ≡ true
    → contains k s ≡ false
contains-plain is_alphanumeric k [] h n all_plain = refl
contains-plain is_alphanumeric k (c ∷ s) h n all_plain =
    let (p, rest) = &&-true (is_plain_char is_alphanumeric c) _ all_plain in
    elim (Bool-cases (c == k)) [
      | inl e ↦
          let refused = control_is_plain_char is_alphanumeric k h n in
          let same : c ≡ k = (==_iff c k).0 e in cc (rw same at p, refused)
      | inr e ↦ rw e (contains-plain is_alphanumeric k s h n rest)
    ]

-- A written title holds no control character below the space, neither a line feed nor a carriage
-- return nor another, whatever the title is, if that character is no letter or digit: the title stays
-- on its one line of the frontmatter.
pub contains-yaml_scalar :
    (is_alphanumeric : ℕ → Bool) (k : ℕ) (value : Text)
    → k ≤ 31
    → is_alphanumeric k ≡ false
    → contains k (yaml_scalar is_alphanumeric value) ≡ false
unfolding yaml_scalar is_plain
contains-yaml_scalar is_alphanumeric k value h n =
    elim (Bool-cases (is_plain is_alphanumeric value)) [
      | inl e ↦
          let (_, b) = &&-true (starts_alphabetic value) _ e in
          let (_, c) = &&-true (not (ends_with (b' ' ∷ []) value)) _ b in
          let (_, d) = &&-true _ _ c in
          let (_, f) = &&-true _ _ d in
          let (g, _) = &&-true (all (is_plain_char is_alphanumeric) value) _ f in
          rw e (contains-plain is_alphanumeric k value h n g)
      | inr e ↦
          let quote : (b'"' == k) ≡ false = apart b'"' k h (omega arith) in
          rw (e, quote)
            (contains-append k (escape_all value) (b'"' ∷ []) (contains-escape_all k value h)
              (rw quote))
    ]
