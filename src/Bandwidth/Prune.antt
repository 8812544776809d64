-- ===== src/Bandwidth/Prune.antt =====
-- The removal of old records: `erase(begin, zed)` with `zed` at the last record that is too old.
use tcp_fsm.Base.{
  ℕ, zero, suc, ◌+◌, ◌-◌, ◌≤◌, ◌<◌, ◌≡◌, refl, List, [], ◌∷◌, none, some, true, false, ◌==◌, ◌⊎◌,
  inl, inr, drop, if◌then◌else◌, arith, Bool-cases,
}
use tcp_fsm.Bandwidth.{
  Timeb, BwRecord, BwState, Tally, Sweep, is_stale, tally, tally_one, prune, measure_one,
}
use tcp_fsm.Bandwidth.Measure.{fresh_bytes}

-- `s` is no earlier than `t`.
abbrev pub IsBefore : Timeb → Timeb → Type 0
IsBefore t s = (t.time < s.time) ⊎ ((t.time ≡ s.time) × (t.millitm ≤ s.millitm))

-- The records stand in the order in which a clock that does not go back stamped them.
abbrev pub InOrder : List BwRecord → Type 0
InOrder [] = Unit {0}
InOrder (r ∷ []) = Unit {0}
InOrder (r ∷ s ∷ rs) = IsBefore r.t s.t × InOrder (s ∷ rs)

-- The number of records that are too old.
pub stale_count : Timeb → List BwRecord → ℕ
stale_count now [] = 0
stale_count now (r ∷ rs) = if is_stale now r then suc (stale_count now rs) else stale_count now rs

is_stale-IsBefore :
    (now later : Timeb) (r s : BwRecord)
    → IsBefore now later
    → IsBefore r.t s.t
    → is_stale now s ≡ true
    → is_stale later r ≡ true
unfolding is_stale
is_stale-IsBefore now later r s h k e = ground arith

-- In order, nothing is too old behind a record that is not.
fresh_head :
    (now : Timeb) (r : BwRecord) (rs : List BwRecord)
    → InOrder (r ∷ rs)
    → is_stale now r ≡ false
    → stale_count now rs ≡ 0
unfolding stale_count
fresh_head now r [] o e = refl
fresh_head now r (s ∷ rs) o e = elim (Bool-cases (is_stale now s)) [
  | inl p ↦ absurd (ground (arith, is_stale-IsBefore now now r s (inr (refl, omega arith)) o.0 p))
  | inr q ↦ rw q (fresh_head now s rs o.1 q)
]

InOrder-tail : (r : BwRecord) (rs : List BwRecord) → InOrder (r ∷ rs) → InOrder rs
InOrder-tail r [] o = tt
InOrder-tail r (s ∷ rs) o = o.1

tally-zed :
    (now : Timeb) (i : ℕ) (rs : List BwRecord) (t : Tally)
    → InOrder rs
    → (tally now i rs t).zed
      ≡ (if stale_count now rs == 0 then t.zed else some (i + stale_count now rs - 1))
unfolding tally stale_count
tally-zed now i [] t o = refl
tally-zed now i (r ∷ rs) t o = ground (
  arith,
  fresh_head now r rs o,
  tally-zed now (suc i) rs (tally_one now i r t) (InOrder-tail r rs o),
)

-- Dropping records that are too old now changes no later measurement.
fresh_bytes-drop :
    (now later : Timeb) (k : ℕ) (rs : List BwRecord)
    → IsBefore now later
    → InOrder rs
    → k ≤ stale_count now rs
    → fresh_bytes later (drop k rs) ≡ fresh_bytes later rs
unfolding stale_count fresh_bytes
fresh_bytes-drop now later zero rs h o l = refl
fresh_bytes-drop now later (suc k) [] h o l = refl
fresh_bytes-drop now later (suc k) (r ∷ rs) h o l = ground (
  arith,
  fresh_head now r rs o,
  is_stale-IsBefore now later r r h (inr (refl, omega arith)),
  fresh_bytes-drop now later k rs h (InOrder-tail r rs o),
)

stale_count-drop :
    (now : Timeb) (k : ℕ) (rs : List BwRecord)
    → InOrder rs
    → k ≤ stale_count now rs
    → stale_count now (drop k rs) + k ≡ stale_count now rs
unfolding stale_count
stale_count-drop now zero rs o l = omega arith
stale_count-drop now (suc k) [] o l = omega arith
stale_count-drop now (suc k) (r ∷ rs) o l =
    ground (arith, fresh_head now r rs o, stale_count-drop now k rs (InOrder-tail r rs o))

-- Where the records of a connection stand in the order of their times, the removal that `recalc`
-- makes at one time leaves at most one record that is too old at that time, and a measurement at
-- that time or any later one counts the same bytes as if nothing had been removed.
pub measure_one_prunes :
    (now later : Timeb) (st : BwState) (s : Sweep)
    → IsBefore now later
    → InOrder st.records
    → (stale_count now (measure_one now st s).0.records ≤ 1)
      × (fresh_bytes later (measure_one now st s).0.records ≡ fresh_bytes later st.records)
unfolding measure_one prune
measure_one_prunes now later st s h o =
    let n = stale_count now st.records in
    rw (tally-zed now 0 st.records (record { total = s.total; mine = 0; zed = none }) o) (
      ground (
        arith,
        stale_count-drop now (n - 1) st.records o,
        fresh_bytes-drop now later (n - 1) st.records h o,
      ))
