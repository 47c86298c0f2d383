-- ===== src/Markdown/Spans/Runs.antt =====
-- A leaf's inline runs: where an offset into its rendered text lands in the source.
use native.Mathlib.Decide.{dec_le}
use burlmd.Prelude.{
  ℕ, zero, suc, ◌+◌, ◌-◌, ◌≤◌, ◌<◌, ◌≡◌, refl, sym, ◌∙◌, inl, inr, Bool, true, false, Option, some,
  List, [], ◌∷◌, arith, ltb, ◌==◌, ==_iff, length, Bool-cases, some_inj, map-eq-some, if◌then◌else◌,
  >>=-eq-some, unwrap_or,
}
use burlmd.Prelude.Text.{Text}
use burlmd.Prelude.Bytes.{byte_len, get, get-eq-some, len_utf8}
use burlmd.Markdown.Spans.{
  InlineRun, SourceResolution, exact, boundary, atomic, res_start, res_end, nth_offset, interpolate,
  resolve_runs, runs_end,
}

-- A run whose source bytes are its rendered text has as many characters in the source.
abbrev pub IsFaithful : Text → InlineRun → Type 0
IsFaithful source run =
    run.interpolable ≡ true
    → (t : Text) × (get source run.source ≡ some t)
      × (length t + run.rendered.start ≡ run.rendered.stop)

-- Runs tile the rendered text from `r` to `total`, and come in source order from byte `s` on.
abbrev pub Tiled : Text → ℕ → ℕ → ℕ → List InlineRun → Type 0
Tiled source total r s [] = r ≡ total
Tiled source total r s (run ∷ runs) =
    (run.rendered.start ≡ r)
    × (r < run.rendered.stop)
    × (s ≤ run.source.start)
    × (run.source.start ≤ run.source.stop)
    × IsFaithful source run
    × Tiled source total run.rendered.stop run.source.stop runs

nth_offset_total :
    (t : Text) (n : ℕ) → n < length t → (b : ℕ) × (nth_offset t n ≡ some b) × (b ≤ byte_len t)
unfolding nth_offset byte_len
nth_offset_total [] n h = absurd (omega arith)
nth_offset_total (c ∷ t) zero h = (0, refl, omega arith)
nth_offset_total (c ∷ t) (suc n) h =
    let (b, e, low) = nth_offset_total t n (omega arith) in (len_utf8 c + b, rw e, omega arith)

nth_offset_mono :
    (t : Text) (n k : ℕ) {a b : ℕ}
    → n ≤ k
    → nth_offset t n ≡ some a
    → nth_offset t k ≡ some b
    → a ≤ b
unfolding nth_offset
nth_offset_mono [] n k h p q = cc
nth_offset_mono (c ∷ t) zero k h p q = omega (arith, some_inj p)
nth_offset_mono (c ∷ t) (suc n) zero h p q = absurd (omega arith)
nth_offset_mono (c ∷ t) (suc n) (suc k) h p q =
    let (a', pa, ea) = map-eq-some (λ x. len_utf8 c + x) (nth_offset t n) p in
    let (b', pb, eb) = map-eq-some (λ x. len_utf8 c + x) (nth_offset t k) q in
    omega (arith, nth_offset_mono t n k {a = a'} {b = b'} (omega arith) pa pb)

-- What `resolve_runs` does at its first run, by where the offset lies.
module _ (source : Text) (stop : ℕ) (prev : Option ℕ) (run : InlineRun)
    (runs : List InlineRun) where
  at_start :
      (off : ℕ)
      → off ≡ run.rendered.start
      → resolve_runs source stop prev (run ∷ runs) off
        ≡ some (boundary (unwrap_or prev run.source.start) run.source.start)
  unfolding resolve_runs
  at_start off h = rw ((==_iff off run.rendered.start).1 h)

  at_inside :
      (off : ℕ)
      → run.rendered.start < off
      → off < run.rendered.stop
      → resolve_runs source stop prev (run ∷ runs) off
        ≡ (if run.interpolable then interpolate source run off else some (atomic run.source))
  unfolding resolve_runs
  at_inside off low high =
      let apart : (off == run.rendered.start) ≡ false = ground arith in
      let within : ltb off run.rendered.stop ≡ true = ground arith in rw (apart, within)

  at_rest :
      (off : ℕ)
      → run.rendered.start < run.rendered.stop
      → run.rendered.stop ≤ off
      → resolve_runs source stop prev (run ∷ runs) off
        ≡ resolve_runs source stop (some run.source.stop) runs off
  unfolding resolve_runs
  at_rest off low high =
      let apart : (off == run.rendered.start) ≡ false = ground arith in
      let beyond : ltb off run.rendered.stop ≡ false = ground arith in rw (apart, beyond)

-- The resolution lies between two bytes of the source.
pub record Within (low high : ℕ) (r : SourceResolution) : Type 0 where
  pub start_low : low ≤ res_start r
  pub start_high : res_start r ≤ high
  pub end_low : low ≤ res_end r
  pub end_high : res_end r ≤ high

interpolate_total :
    (source : Text) (run : InlineRun) (off : ℕ)
    → run.interpolable ≡ true
    → IsFaithful source run
    → run.rendered.start < off
    → off < run.rendered.stop
    → (r : SourceResolution) × (interpolate source run off ≡ some r)
      × Within run.source.start run.source.stop r
unfolding interpolate
interpolate_total source run off i faithful low high =
    let (t, g, chars) = faithful i in
    let (b, e, fits) = nth_offset_total t (off - run.rendered.start) (omega arith) in
    let (x, y, text, starts, stops) = get-eq-some source run.source g in
    (exact (run.source.start + b), rw (g, e), omega arith)

by_flag_true : {A : Type 0} {b : Bool} (x y : A) → b ≡ true → (if b then x else y) ≡ x
by_flag_true x y e = rw e

-- Inside a run the answer is there, and lies in the run's source.
inside_total :
    (source : Text) (run : InlineRun) (off : ℕ)
    → IsFaithful source run
    → run.source.start ≤ run.source.stop
    → run.rendered.start < off
    → off < run.rendered.stop
    → (r : SourceResolution) × ((if run.interpolable
          then interpolate source run off
          else some (atomic run.source))
        ≡ some r)
      × Within run.source.start run.source.stop r
inside_total source run off faithful ordered low high = elim (Bool-cases run.interpolable) [
  | inl i ↦
      let (a, e, w) = interpolate_total source run off i faithful low high in
      (a, by_flag_true _ _ i ∙ e, w)
  | inr a ↦ (atomic run.source, rw a, omega arith)
]

data Spot (run : InlineRun) (off : ℕ) : Type 0 where
  starts : off ≡ run.rendered.start → Spot run off
  inside : run.rendered.start < off → off < run.rendered.stop → Spot run off
  beyond : run.rendered.stop ≤ off → Spot run off

spot : (run : InlineRun) (off : ℕ) → run.rendered.start ≤ off → Spot run off
spot run off h = elim (dec_le run.rendered.stop off) [
  | yes p ↦ beyond p
  | no p ↦ elim (dec_le off run.rendered.start) [
    | yes q ↦ starts (omega arith)
    | no q ↦ inside (omega arith) (omega arith)
  ]
]

-- The end of the source of the last run.
pub runs_end_low :
    (source : Text) (total r s : ℕ) (runs : List InlineRun)
    → Tiled source total r s runs
    → s ≤ runs_end s runs
unfolding runs_end
runs_end_low source total r s [] h = omega arith
runs_end_low source total r s (run ∷ runs) h =
    omega (arith, runs_end_low source total run.rendered.stop run.source.stop runs h.5)

-- An offset that the runs cover resolves, to a place between the first byte given and the end of the
-- last run.
pub resolve_runs_total :
    (source : Text) (total r s : ℕ) (runs : List InlineRun) (off : ℕ)
    → Tiled source total r s runs
    → r ≤ off
    → off ≤ total
    → (a : SourceResolution) × (resolve_runs source (runs_end s runs) (some s) runs off ≡ some a)
      × Within s (runs_end s runs) a
unfolding resolve_runs runs_end
resolve_runs_total source total r s [] off h low high = (boundary s s, refl, omega arith)
resolve_runs_total source total r s (run ∷ runs) off h low high =
    let later = h.5 in
    let tail = runs_end_low source total run.rendered.stop run.source.stop runs later in
    elim (spot run off (omega arith)) [
      | starts e ↦ (
        boundary s run.source.start,
        at_start source _ (some s) run runs off e,
        record {
          start_low = h.2;
          start_high = omega arith;
          end_low = omega arith;
          end_high = omega arith;
        },
      )
      | inside p q ↦
          let (a, e, w) = inside_total source run off h.4 h.3 p q in
          (
            a,
            at_inside source _ (some s) run runs off p q ∙ e,
            record {
              start_low = omega (arith, w.start_low);
              start_high = omega (arith, w.start_high);
              end_low = omega (arith, w.end_low);
              end_high = omega (arith, w.end_high);
            },
          )
      | beyond p ↦
          let (a, e, w) =
            resolve_runs_total source total run.rendered.stop run.source.stop runs off later p
              high in
          (
            a,
            at_rest source _ (some s) run runs off (omega arith) p ∙ e,
            record {
              start_low = omega (arith, w.start_low);
              start_high = w.start_high;
              end_low = omega (arith, w.end_low);
              end_high = w.end_high;
            },
          )
    ]

interpolate_mono :
    (source : Text) (run : InlineRun) (i j : ℕ) {a b : SourceResolution}
    → i ≤ j
    → interpolate source run i ≡ some a
    → interpolate source run j ≡ some b
    → res_start a ≤ res_end b
unfolding interpolate
interpolate_mono source run i j h p q =
    let (t, g, p') = >>=-eq-some (get source run.source) _ p in
    let (u, k, q') = >>=-eq-some (get source run.source) _ q in
    let same : t ≡ u = some_inj (sym g ∙ k) in
    let (x, ex, ax) = map-eq-some _ (nth_offset t (i - run.rendered.start)) p' in
    let (y, ey, ay) = map-eq-some _ (nth_offset u (j - run.rendered.start)) q' in
    let less =
      nth_offset_mono t (i - run.rendered.start) (j - run.rendered.start) {a = x} {b = y}
        (omega arith) ex (rw same ey) in
    rw (← ax, ← ay) (omega arith)
