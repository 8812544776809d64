-- ===== src/Bandwidth.antt =====
-- The limiter of the outgoing bandwidth: bwstop.h and bwstop.cpp. A connection is its address, the
-- time that `ftime` returns is an argument.
pub mod Measure
pub mod Minimum
pub mod Prune
pub mod States
pub mod Clock
use tcp_fsm.Base.{
  ℕ, suc, ◌+◌, ◌/◌, ◌%◌, ◌^◌, List, [], ◌∷◌, ◌++◌, Option, none, some, Bool, true, false, not, ◌&&◌,
  ◌||◌, ltb, ◌==◌, if◌then◌else◌, drop, add32, sub32, mul32, u32,
}
use tcp_fsm.Base.OrderedMap

-- `timeb`: seconds, and milliseconds below 1000.
pub record Timeb : Type 0 where
  pub time : ℕ
  pub millitm : ℕ

abbrev pub valid_period : ℕ
valid_period = 1

pub record BwRecord : Type 0 where
  pub t : Timeb
  pub size : ℕ

pub record BwState : Type 0 where
  pub records : List BwRecord
  pub active : Bool
  pub cur_bw : ℕ
  pub guess : ℕ

pub record Bwstop : Type 0 where
  pub states : List (ℕ × BwState)
  pub max_bw : ℕ
  pub cur_bw : ℕ

-- The arithmetic on `double` that `recalc` does, with the conversions from and to integers.
pub record Double : Type 1 where
  pub D : Type 0
  pub of_uint32 : ℕ → D
  pub add : D → D → D
  pub mul : D → D → D
  pub div : D → D → D
  pub tenth : D  -- the literal 0.1
  pub half : D  -- the literal 0.5
  pub to_int : D → ℕ  -- the bit pattern of the int
  pub to_uint32 : D → ℕ

-- A new limiter. The constructor leaves `cur_bw` unset: `junk` is what it holds.
unfoldable pub make_bwstop : ℕ → ℕ → Bwstop
make_bwstop junk limit = record { states = []; max_bw = limit; cur_bw = junk }

unfoldable pub set_limit : ℕ → Bwstop → Bwstop
set_limit nbytes b = record b { max_bw = nbytes }

unfoldable pub is_enable : Bwstop → Bool
is_enable b = not (b.max_bw == 0)

unfoldable pub excess : Bwstop → Bool
excess b = if not (b.max_bw == 0) then ltb b.max_bw b.cur_bw else false

-- What `find` makes for a connection that is not there; `guess` is left unset.
abbrev pub new_state : ℕ → BwState
new_state junk = record { records = []; active = true; cur_bw = 0; guess = junk }

-- `find` of the source: the entry is there afterwards.
unfoldable pub find_or_make : ℕ → ℕ → List (ℕ × BwState) → List (ℕ × BwState)
find_or_make junk conn states = elim (OrderedMap.find conn states) [
  | none ↦ OrderedMap.insert conn (new_state junk) states
  | some s ↦ states
]

set_active : Bool → BwState → BwState
set_active a s = record s { active = a }

unfoldable pub on : ℕ → Bwstop → Bwstop
unfolding set_active
on conn b =
    if b.max_bw == 0
    then b
    else record b { states = OrderedMap.modify conn (set_active true) b.states }

unfoldable pub off : ℕ → Bwstop → Bwstop
unfolding set_active
off conn b =
    if b.max_bw == 0
    then b
    else record b { states = OrderedMap.modify conn (set_active false) b.states }

push_back : BwRecord → BwState → BwState
push_back r s = record s { records = s.records ++ (r ∷ []) }

unfoldable pub insert : ℕ → Timeb → ℕ → ℕ → Bwstop → Bwstop
unfolding push_back find_or_make
insert junk now conn size b = if b.max_bw == 0 then b else record b {
  states =
      OrderedMap.modify conn (push_back (record { t = now; size = size }))
        (find_or_make junk conn b.states);
}

unfoldable pub erase : ℕ → Bwstop → Bwstop
erase conn b = record b { states = OrderedMap.erase conn b.states }

unfoldable pub guess : ℕ → Bwstop → ℕ
guess conn b = elim (OrderedMap.find conn b.states) [ none ↦ 0 | some s ↦ s.guess ]

-- `can` writes to `*guess` where it returns true.
unfoldable pub can : ℕ → ℕ → Bwstop → Bool × ℕ
can conn g b = elim (OrderedMap.find conn b.states) [
  | none ↦ (false, g)
  | some s ↦ if s.active then (true, s.guess) else (false, g)
]

-- Older than `since`, which is `valid_period` before `now`. Both sides are taken
-- `valid_period` later than in the source, so that nothing is subtracted.
unfoldable pub is_stale : Timeb → BwRecord → Bool
is_stale now r =
    ltb (r.t.time + valid_period) now.time
    || (r.t.time + valid_period == now.time && ltb r.t.millitm now.millitm)

-- The variables of the loop over one connection's records; `zed` is `none` while `unused` is false.
pub record Tally : Type 0 where
  pub total : ℕ
  pub mine : ℕ
  pub zed : Option ℕ

tally_one : Timeb → ℕ → BwRecord → Tally → Tally
unfolding is_stale
tally_one now i r t =
    if not (is_stale now r)
    then record t { total = add32 t.total r.size; mine = add32 t.mine r.size }
    else record t { zed = some i }

unfoldable pub tally : Timeb → ℕ → List BwRecord → Tally → Tally
unfolding tally_one
tally now i [] t = t
tally now i (r ∷ rs) t = tally now (suc i) rs (tally_one now i r t)

-- `erase(begin, zed)` keeps the record at `zed`.
unfoldable pub prune : Option ℕ → List BwRecord → List BwRecord
prune none rs = rs
prune (some z) rs = drop z rs

-- The variables of the loop over the connections.
pub record Sweep : Type 0 where
  pub total : ℕ
  pub min_bw : ℕ
  pub min_count : ℕ

note_minimum : Bool → ℕ → Sweep → Sweep
note_minimum active cur s =
    let counted : Sweep =
      if s.min_bw == cur then record s { min_count = u32 (s.min_count + 1) } else s in
    if not active
    then s
    else if ltb cur counted.min_bw
    then record counted { min_bw = cur; min_count = 1 }
    else counted

unfoldable pub measure_one : Timeb → BwState → Sweep → BwState × Sweep
unfolding tally prune note_minimum
measure_one now st s =
    let t = tally now 0 st.records (record { total = s.total; mine = 0; zed = none }) in
    (
      record st { records = prune t.zed st.records; cur_bw = t.mine; guess = 0 },
      note_minimum st.active t.mine (record s { total = t.total }),
    )

unfoldable pub measure : Timeb → List (ℕ × BwState) → Sweep → List (ℕ × BwState) × Sweep
unfolding measure_one
measure now [] s = ([], s)
measure now ((c, st) ∷ rest) s =
    let (st', s') = measure_one now st s in
    let (rest', s'') = measure now rest s' in ((c, st') ∷ rest', s'')

-- `none` is the division by zero of `makebw / min_count`.
unfoldable pub quotient : ℕ → ℕ → Option ℕ
quotient makebw min_count = if min_count == 0 then none else some (makebw / min_count)

-- What is left below the limit, less the part that goes to the slowest connections.
abbrev pub excess_after : ℕ → Sweep → ℕ → ℕ
excess_after max_bw s makebw =
    if ltb 0 s.min_count then sub32 (sub32 max_bw s.total) makebw else sub32 max_bw s.total

module _ (fp : Double) where
  open fp use {of_uint32, tenth, half, to_int, to_uint32}

  -- `(int)(0.1 * (max_bw - cur_bw) + 0.5)`
  unfoldable pub make_bw : ℕ → ℕ → ℕ
  make_bw max_bw cur_bw = to_int (fp.add (fp.mul tenth (of_uint32 (sub32 max_bw cur_bw))) half)

  -- `uint32_t (((double)mine / (double)total) * to_excess)`
  unfoldable pub portion : ℕ → ℕ → ℕ → ℕ
  portion mine total to_excess =
      to_uint32 (fp.mul (fp.div (of_uint32 mine) (of_uint32 total)) (of_uint32 to_excess))

  unfoldable pub guess_one : ℕ → ℕ → Sweep → BwState → Option BwState
  unfolding portion quotient
  guess_one makebw to_excess s st =
      let base = portion st.cur_bw s.total to_excess in
      if not st.active
      then some st
      else if s.min_bw == st.cur_bw
      then elim (quotient makebw s.min_count) [
        | none ↦ none
        | some q ↦ some (record st { guess = add32 base q })
      ]
      else some (record st { guess = base })

  unfoldable pub guess_all : ℕ → ℕ → Sweep → List (ℕ × BwState) → Option (List (ℕ × BwState))
  unfolding guess_one
  guess_all makebw to_excess s [] = some []
  guess_all makebw to_excess s ((c, st) ∷ rest) = elim (guess_one makebw to_excess s st) [
    | none ↦ none
    | some st' ↦ elim (guess_all makebw to_excess s rest) [
      | none ↦ none
      | some rest' ↦ some ((c, st') ∷ rest')
    ]
  ]

  -- The new limiter and what `recalc` returns; `none` is a division by zero.
  unfoldable pub recalc : Timeb → Bwstop → Option (Bwstop × Bool)
  unfolding measure make_bw guess_all
  recalc now b =
      let (states, s) =
        measure now b.states (record { total = 0; min_bw = b.max_bw; min_count = 0 }) in
      let makebw = make_bw b.max_bw s.total in
      if b.max_bw == 0
      then some (b, false)
      else elim (guess_all makebw (excess_after b.max_bw s makebw) s states) [
        | none ↦ none
        | some states' ↦
            some (record b { states = states'; cur_bw = s.total }, ltb b.max_bw s.total)
      ]

-- `mod` of the source, which is named for the remainder.
unfoldable pub mod_of : ℕ → ℕ → ℕ
mod_of value factor = sub32 value (mul32 (value % factor) factor)

-- The virtual clock of the limiter.
pub record VirtualClock : Type 0 where
  pub emulator : Bool
  pub vtime : Timeb

unfoldable pub get_time : Timeb → VirtualClock → Timeb
get_time now c = if c.emulator then c.vtime else now

-- `millitm` is an unsigned short.
unfoldable pub turn : ℕ → VirtualClock → VirtualClock
unfolding mod_of
turn msecs c =
    let seconds = c.vtime.time + msecs % 1000 in
    let rest = mod_of msecs 1000 in
    let moved = add32 c.vtime.millitm rest in
    record c {
      vtime = record {
        time = if ltb 1000 moved then seconds + 1 else seconds;
        millitm = mod_of moved 1000 % 2 ^ 16;
      };
    }
