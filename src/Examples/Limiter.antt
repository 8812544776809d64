-- ===== src/Examples/Limiter.antt =====
-- The theorems on the limiter at concrete inputs.
use tcp_fsm.Base.{
  ℕ, ◌≤◌, ◌≡◌, ◌≢◌, refl, ltb, [], ◌∷◌, ◌++◌, none, some, true, false, arith, inl, inr, u32,
}
use tcp_fsm.Base.OrderedMap
use tcp_fsm.Bandwidth.{
  Timeb, BwRecord, BwState, Bwstop, Double, Sweep, VirtualClock, measure_one, recalc, insert, on,
  off, erase, guess, can,
}
use tcp_fsm.Bandwidth.Measure.{fresh_bytes, all_fresh_bytes, Measured, recalc_measures}
use tcp_fsm.Bandwidth.Minimum.{recalc-ne-none}
use tcp_fsm.Bandwidth.Prune.{stale_count, measure_one_prunes}
use tcp_fsm.Bandwidth.States.{state_of, insert_lem}
use tcp_fsm.Bandwidth
use tcp_fsm.Examples.{whole}

-- Two connections: one sent 40 and 30 bytes, the first of them too long ago, the other nothing.
abbrev busy : BwState
busy = record {
  records =
      record { t = record { time = 10; millitm = 0 }; size = 40 }
      ∷ record { t = record { time = 12; millitm = 500 }; size = 30 }
      ∷ [];
  active = true;
  cur_bw = 0;
  guess = 0;
}

abbrev still : BwState
still = record { records = []; active = true; cur_bw = 0; guess = 0 }

abbrev limited : Bwstop
limited = record { states = (7, busy) ∷ (9, still) ∷ []; max_bw = 100; cur_bw = 0 }

abbrev noon : Timeb
noon = record { time = 13; millitm = 0 }

abbrev busy_after : BwState
busy_after = record busy { cur_bw = 30; guess = 4294967295 }

abbrev limited_after : Bwstop
limited_after = record {
  states = (7, busy_after) ∷ (9, record still { guess = 71 }) ∷ [];
  max_bw = 100;
  cur_bw = 30;
}

limited_measured : recalc whole noon limited ≡ some (limited_after, false)
unfolding recalc Bandwidth.measure measure_one Bandwidth.tally Bandwidth.is_stale Bandwidth.prune
    Bandwidth.make_bw Bandwidth.guess_all Bandwidth.guess_one Bandwidth.portion Bandwidth.quotient
limited_measured = refl

recalc_measures_example :
    (30 ≡ u32 (all_fresh_bytes noon limited.states))
    × (false ≡ ltb 100 30)
    × (limited_after.max_bw ≡ limited.max_bw)
    × ((c : ℕ) (st : BwState)
        → OrderedMap.find c limited.states ≡ some st
        → (st' : BwState) × (OrderedMap.find c limited_after.states ≡ some st')
          × Measured noon st st')
recalc_measures_example =
    recalc_measures whole noon limited limited_after false (λ e. omega (arith, e)) limited_measured

recalc-ne-none_example : recalc whole noon limited ≢ none
recalc-ne-none_example = recalc-ne-none whole noon limited (omega arith)

abbrev first_sweep : Sweep
first_sweep = record { total = 0; min_bw = 100; min_count = 0 }

measure_one_prunes_example :
    (stale_count noon (measure_one noon busy first_sweep).0.records ≤ 1)
    × (fresh_bytes noon (measure_one noon busy first_sweep).0.records
        ≡ fresh_bytes noon busy.records)
measure_one_prunes_example =
    measure_one_prunes noon noon busy first_sweep (inr (refl, omega arith)) (inl (omega arith), tt)

insert_lem_example :
    (OrderedMap.find 7 (insert 0 noon 7 8 limited).states
      ≡ some (record (state_of 0 7 limited) {
        records = (state_of 0 7 limited).records ++ (record { t = noon; size = 8 } ∷ []);
      }))
    × (OrderedMap.find 9 (insert 0 noon 7 8 limited).states ≡ OrderedMap.find 9 limited.states)
insert_lem_example = insert_lem 0 noon 7 8 9 limited (λ e. omega (arith, e)) (λ e. omega (arith, e))

abbrev unlimited : Bwstop
unlimited = record limited { max_bw = 0 }

abbrev clock_at_noon : VirtualClock
clock_at_noon = record { emulator = true; vtime = noon }
