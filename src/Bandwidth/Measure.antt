-- ===== src/Bandwidth/Measure.antt =====
-- What one pass of `recalc` measures, against sums written independently of the loops.
use tcp_fsm.Base.{
  ℕ, suc, ◌+◌, ◌^◌, ◌<◌, ◌≡◌, ◌≢◌, refl, List, [], ◌∷◌, Option, none, some, Bool, ◌==◌, ltb,
  if◌then◌else◌, u32, arith, Option-cases, Bool-cases, inl, inr,
}
use tcp_fsm.Base.OrderedMap
use tcp_fsm.Bandwidth.{
  Timeb, BwRecord, BwState, Bwstop, Double, Tally, Sweep, is_stale, tally, tally_one, measure,
  measure_one, guess_one, guess_all, recalc, make_bw, excess_after,
}

-- The bytes of the records that are not older than the validity period.
unfoldable pub fresh_bytes : Timeb → List BwRecord → ℕ
fresh_bytes now [] = 0
fresh_bytes now (r ∷ rs) =
    if is_stale now r then fresh_bytes now rs else r.size + fresh_bytes now rs

-- The same over all connections.
unfoldable pub all_fresh_bytes : Timeb → List (ℕ × BwState) → ℕ
all_fresh_bytes now [] = 0
all_fresh_bytes now ((c, st) ∷ rest) = fresh_bytes now st.records + all_fresh_bytes now rest

tally-sums :
    (now : Timeb) (i : ℕ) (rs : List BwRecord) (t : Tally)
    → t.total < 2 ^ 32
    → t.mine < 2 ^ 32
    → ((tally now i rs t).total ≡ u32 (t.total + fresh_bytes now rs))
      × ((tally now i rs t).mine ≡ u32 (t.mine + fresh_bytes now rs))
unfolding tally fresh_bytes
tally-sums now i [] t h k = omega arith
tally-sums now i (r ∷ rs) t h k = ground (arith, tally-sums now (suc i) rs (tally_one now i r t))

-- One connection: what it sent lately, and the running total.
measure_one-sums :
    (now : Timeb) (st : BwState) (s : Sweep)
    → s.total < 2 ^ 32
    → ((measure_one now st s).0.cur_bw ≡ u32 (fresh_bytes now st.records))
      × ((measure_one now st s).1.total ≡ u32 (s.total + fresh_bytes now st.records))
      × ((measure_one now st s).0.active ≡ st.active)
unfolding measure_one
measure_one-sums now st s h = ground (
  arith,
  tally-sums now 0 st.records (record { total = s.total; mine = 0; zed = none }) h (omega arith),
)

pub measure-total :
    (now : Timeb) (states : List (ℕ × BwState)) (s : Sweep)
    → s.total < 2 ^ 32
    → (measure now states s).1.total ≡ u32 (s.total + all_fresh_bytes now states)
unfolding measure all_fresh_bytes
measure-total now [] s h = omega arith
measure-total now ((c, st) ∷ rest) s h =
    let e = measure_one-sums now st s h in
    omega (arith, e.1, measure-total now rest (measure_one now st s).1 (omega (arith, e.1)))

-- What the pass says of one connection, given what was recorded of it.
abbrev pub Measured : Timeb → BwState → BwState → Type 0
Measured now st st' = (st'.cur_bw ≡ u32 (fresh_bytes now st.records)) × (st'.active ≡ st.active)

pub measure-find :
    (now : Timeb) (states : List (ℕ × BwState)) (s : Sweep) (c : ℕ) (st : BwState)
    → s.total < 2 ^ 32
    → OrderedMap.find c states ≡ some st
    → (st' : BwState) × (OrderedMap.find c (measure now states s).0 ≡ some st')
      × Measured now st st'
unfolding measure OrderedMap.find
measure-find now [] s c st h e = cc
measure-find now ((d, x) ∷ rest) s c st h e =
    let one = measure_one-sums now x s h in
    elim (Bool-cases (d == c)) [
      | inl hit ↦ ((measure_one now x s).0, rw hit refl, ground (arith, one.0, one.2))
      | inr miss ↦
          rw miss (
            measure-find now rest (measure_one now x s).1 c st (omega (arith, one.1))
              (rw miss at e))
    ]

-- The second pass changes `guess` alone.
abbrev KeepsMeasure : BwState → BwState → Type 0
KeepsMeasure st st' =
    (st'.records ≡ st.records) × (st'.active ≡ st.active) × (st'.cur_bw ≡ st.cur_bw)

module _ (fp : Double) where
  guess_one-KeepsMeasure :
      (makebw to_excess : ℕ) (s : Sweep) (st st' : BwState)
      → guess_one fp makebw to_excess s st ≡ some st'
      → KeepsMeasure st st'
  unfolding guess_one
  guess_one-KeepsMeasure makebw to_excess s st st' e = ground arith

  -- A pass that ends took every connection.
  pub guess_all-cons :
      (makebw to_excess : ℕ) (s : Sweep) (c : ℕ) (st : BwState) (rest states' : List (ℕ × BwState))
      → guess_all fp makebw to_excess s ((c, st) ∷ rest) ≡ some states'
      → (st' : BwState) × (rest' : List (ℕ × BwState)) × (guess_one fp makebw to_excess s st
          ≡ some st')
        × (guess_all fp makebw to_excess s rest ≡ some rest')
        × (states' ≡ (c, st') ∷ rest')
  unfolding guess_all
  guess_all-cons makebw to_excess s c st rest states' g =
      elim (Option-cases (guess_one fp makebw to_excess s st)) [
        | inl p ↦ absurd (ground arith)
        | inr (st', p) ↦ elim (Option-cases (guess_all fp makebw to_excess s rest)) [
          | inl q ↦ absurd (ground arith)
          | inr (rest', q) ↦ (st', rest', p, q, ground arith)
        ]
      ]

  guess_all-find :
      (makebw to_excess : ℕ) (s : Sweep) (states states' : List (ℕ × BwState)) (c : ℕ)
      (st : BwState)
      → guess_all fp makebw to_excess s states ≡ some states'
      → OrderedMap.find c states ≡ some st
      → (st' : BwState) × (OrderedMap.find c states' ≡ some st') × KeepsMeasure st st'
  unfolding OrderedMap.find
  guess_all-find makebw to_excess s [] states' c st g e = cc
  guess_all-find makebw to_excess s ((d, x) ∷ rest) states' c st g e =
      let (x', rest', p, q, r) = guess_all-cons makebw to_excess s d x rest states' g in
      let k = guess_one-KeepsMeasure makebw to_excess s x x' p in
      elim (Bool-cases (d == c)) [
        | inl hit ↦ (x', rw (r, hit) refl, ground arith)
        | inr miss ↦
            rw (r, miss) (guess_all-find makebw to_excess s rest rest' c st q (rw miss at e))
      ]

  -- While the limiter is on, a `recalc` that ends has for its total, modulo 2^32, the bytes of all
  -- records within the validity period, answers whether that exceeds the limit, and has for each
  -- connection that it knows the bytes, modulo 2^32, of that connection's records in the period;
  -- whether the connection is active and the limit stay as they were.
  pub recalc_measures :
      (now : Timeb) (b b' : Bwstop) (over : Bool)
      → b.max_bw ≢ 0
      → recalc fp now b ≡ some (b', over)
      → (b'.cur_bw ≡ u32 (all_fresh_bytes now b.states))
        × (over ≡ ltb b.max_bw b'.cur_bw)
        × (b'.max_bw ≡ b.max_bw)
        × ((c : ℕ) (st : BwState)
            → OrderedMap.find c b.states ≡ some st
            → (st' : BwState) × (OrderedMap.find c b'.states ≡ some st') × Measured now st st')
  unfolding recalc
  recalc_measures now b b' over h e = elim (Option-cases passed) [
    | inl p ↦ absurd (ground arith)
    | inr (states', p) ↦ (
      ground (arith, total),
      ground arith,
      ground arith,
      λ c st f.
          let (x, fx, m) = measure-find now b.states start c st (omega arith) f in
          let (y, fy, k) = guess_all-find _ _ _ _ states' c x p fx in
          (y, ground arith, ground arith),
    )
  ]
    where
      start : Sweep
      start = record { total = 0; min_bw = b.max_bw; min_count = 0 }

      after : Sweep
      after = (measure now b.states start).1

      total : after.total ≡ u32 (0 + all_fresh_bytes now b.states)
      total = measure-total now b.states start (omega arith)

      passed : Option (List (ℕ × BwState))
      passed =
          guess_all fp (make_bw fp b.max_bw after.total)
            (excess_after b.max_bw after (make_bw fp b.max_bw after.total)) after
            (measure now b.states start).0
