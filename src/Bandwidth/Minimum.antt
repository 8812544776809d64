-- ===== src/Bandwidth/Minimum.antt =====
-- The least bandwidth that `recalc` looks for, and the division by the number of its holders.
use tcp_fsm.Base.{
  ℕ, suc, ◌+◌, ◌^◌, ◌≤◌, ◌<◌, ◌≡◌, ◌≢◌, List, [], ◌∷◌, none, true, length, arith, All,
}
use tcp_fsm.Bandwidth.{
  Timeb, BwState, Bwstop, Double, Sweep, measure, measure_one, note_minimum, guess_one, guess_all,
  recalc, make_bw, excess_after, quotient,
}

-- An active connection is not below the minimum, and one at the minimum is counted.
abbrev IsCounted : Sweep → BwState → Type 0
IsCounted s st =
    st.active ≡ true → (s.min_bw ≤ st.cur_bw) × (s.min_bw ≡ st.cur_bw → 0 < s.min_count)

-- How the minimum and its count move: down, or with a count that does not fall.
abbrev Lower : Sweep → Sweep → Type 0
Lower s s' = (s'.min_bw ≤ s.min_bw) × (s'.min_bw ≡ s.min_bw → s.min_count ≤ s'.min_count)

measure_one-Lower :
    (now : Timeb) (st : BwState) (s : Sweep) (n : ℕ)
    → s.min_count + suc n < 2 ^ 32
    → Lower s (measure_one now st s).1
      × IsCounted (measure_one now st s).1 (measure_one now st s).0
      × ((measure_one now st s).1.min_count + n < 2 ^ 32)
unfolding measure_one note_minimum
measure_one-Lower now st s n h = ground arith

measure-IsCounted :
    (now : Timeb) (states : List (ℕ × BwState)) (s : Sweep)
    → s.min_count + length states < 2 ^ 32
    → Lower s (measure now states s).1
      × All (λ e. IsCounted (measure now states s).1 e.1) (measure now states s).0
unfolding measure
measure-IsCounted now [] s h = (omega arith, tt)
measure-IsCounted now ((c, st) ∷ rest) s h =
    let (low, here, left) = measure_one-Lower now st s (length rest) h in
    let (low', there) = measure-IsCounted now rest (measure_one now st s).1 left in
    (omega arith, ((λ a. let now_here = here a in omega arith), there))

module _ (fp : Double) where
  guess_one-ne-none :
      (makebw to_excess : ℕ) (s : Sweep) (st : BwState)
      → IsCounted s st
      → guess_one fp makebw to_excess s st ≢ none
  unfolding guess_one quotient
  guess_one-ne-none makebw to_excess s st c e = ground arith

  guess_all-ne-none :
      (makebw to_excess : ℕ) (s : Sweep) (states : List (ℕ × BwState))
      → All (λ e. IsCounted s e.1) states
      → guess_all fp makebw to_excess s states ≢ none
  unfolding guess_all
  guess_all-ne-none makebw to_excess s [] a e = cc
  guess_all-ne-none makebw to_excess s ((c, st) ∷ rest) a e = ground (
    arith,
    guess_one-ne-none makebw to_excess s st a.0,
    guess_all-ne-none makebw to_excess s rest a.1,
  )

  -- `recalc` of fewer than 2^32 connections never divides by zero: whenever an active connection is
  -- given a part of the increase, the number of connections that share it is not 0.
  pub recalc-ne-none :
      (now : Timeb) (b : Bwstop) → length b.states < 2 ^ 32 → recalc fp now b ≢ none
  unfolding recalc
  recalc-ne-none now b h e = ground (
    arith,
    guess_all-ne-none (make_bw fp b.max_bw after.total)
        (excess_after b.max_bw after (make_bw fp b.max_bw after.total)) after
        (measure now b.states start).0 (measure-IsCounted now b.states start (omega arith)).1,
  )
    where
      start : Sweep
      start = record { total = 0; min_bw = b.max_bw; min_count = 0 }

      after : Sweep
      after = (measure now b.states start).1
