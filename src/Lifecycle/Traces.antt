-- ===== src/Lifecycle/Traces.antt =====
-- The same order as a system of steps: which callback may come after which. A log keeps to the
-- automaton exactly when the callbacks of the connection are a trace of this system.
use tcp_fsm.Base.{ℕ, ◌≡◌, List, [], ◌∷◌, true, ◌==◌, if◌then◌else◌, arith, inl, inr, Bool-cases}
use tcp_fsm.Connection.{ConnState, Callbacks}
use tcp_fsm.Effects.{
  Effect, addref, release, connected_cb, closed_cb, read_cb, sent_cb, accepted_cb, transmitted,
  submitted, sent_so_far, socket_closed, watched,
}
use tcp_fsm.Lifecycle.{
  Life, pending, up, over, refused, opens, refuses, closes, reads, advance, life, agrees,
  not_broken,
}

-- The callbacks of one connection: connected() with it and with null, accepted(), read(), closed().
pub data Callback : Type 0 where
  connects connects_null accepts read closed : Callback

unfoldable pub callback_of : ℕ → Effect → List Callback → List Callback
callback_of h (connected_cb j x) cs =
    if j == h then (if x == 0 then connects_null ∷ cs else connects ∷ cs) else cs
callback_of h (accepted_cb j) cs = if j == h then accepts ∷ cs else cs
callback_of h (closed_cb j) cs = if j == h then closed ∷ cs else cs
callback_of h (read_cb j bytes) cs = if j == h then read ∷ cs else cs
callback_of h (sent_cb s b) cs = cs
callback_of h (addref o) cs = cs
callback_of h (release o) cs = cs
callback_of h (transmitted s i n) cs = cs
callback_of h (submitted s i n) cs = cs
callback_of h (sent_so_far s n) cs = cs
callback_of h (socket_closed s) cs = cs
callback_of h (watched j) cs = cs

-- The callbacks of `h`, the newest first.
unfoldable pub callbacks : ℕ → List Effect → List Callback
unfolding callback_of
callbacks h [] = []
callbacks h (e ∷ log) = callback_of h e (callbacks h log)

-- One step of the interface.
pub data Step : Life → Callback → Life → Type 0 where
  connect : Step pending connects up
  refuse : Step pending connects_null refused
  accept : Step pending accepts up
  read_early : Step pending read pending
  read_up : Step up read up
  close : Step up closed over

pub data Trace : List Callback → Life → Type 0 where
  start : Trace [] pending
  next :
      {cs : List Callback} {l m : Life} (c : Callback) → Trace cs l → Step l c m → Trace (c ∷ cs) m

-- What the automaton does with one callback.
abbrev on_callback : Callback → Life → Life
on_callback connects l = opens l
on_callback connects_null l = refuses l
on_callback accepts l = opens l
on_callback read l = reads l
on_callback closed l = closes l

on_callback-Step :
    (c : Callback) (l : Life) → not_broken (on_callback c l) ≡ true → Step l c (on_callback c l)
on_callback-Step connects pending e = connect
on_callback-Step connects_null pending e = refuse
on_callback-Step accepts pending e = accept
on_callback-Step read pending e = read_early
on_callback-Step read up e = read_up
on_callback-Step closed up e = close
on_callback-Step connects l e = cc
on_callback-Step connects_null l e = cc
on_callback-Step accepts l e = cc
on_callback-Step read l e = cc
on_callback-Step closed l e = cc

on_callback-unbroken :
    (c : Callback) (l : Life) → not_broken (on_callback c l) ≡ true → not_broken l ≡ true
on_callback-unbroken connects l e = ground arith
on_callback-unbroken connects_null l e = ground arith
on_callback-unbroken accepts l e = ground arith
on_callback-unbroken read l e = ground arith
on_callback-unbroken closed l e = ground arith

-- A trace to the automaton's state, given one up to its last callback.
longer :
    (c : Callback) (cs : List Callback) (l : Life)
    → (not_broken l ≡ true → Trace cs l)
    → not_broken (on_callback c l) ≡ true
    → Trace (c ∷ cs) (on_callback c l)
longer c cs l t e = next c (t (on_callback-unbroken c l e)) (on_callback-Step c l e)

-- The callbacks of a log that the automaton accepts are a trace of the system of steps, to the state
-- in which the automaton is.
pub life-Trace :
    (h : ℕ) (log : List Effect)
    → not_broken (life h log) ≡ true
    → Trace (callbacks h log) (life h log)
unfolding life advance callbacks callback_of
life-Trace h [] n = start
life-Trace h (connected_cb j x ∷ log) n = elim (Bool-cases (j == h)) [
  | inl same ↦ elim (Bool-cases (x == 0)) [
    | inl null ↦
        rw (same, null)
          (longer connects_null (callbacks h log) (life h log) (life-Trace h log)
            (rw (same, null) at n))
    | inr conn ↦
        rw (same, conn)
          (longer connects (callbacks h log) (life h log) (life-Trace h log) (rw (same, conn) at n))
  ]
  | inr other ↦ rw other (life-Trace h log (rw other at n))
]
life-Trace h (accepted_cb j ∷ log) n = elim (Bool-cases (j == h)) [
  | inl same ↦
      rw same (longer accepts (callbacks h log) (life h log) (life-Trace h log) (rw same at n))
  | inr other ↦ rw other (life-Trace h log (rw other at n))
]
life-Trace h (closed_cb j ∷ log) n = elim (Bool-cases (j == h)) [
  | inl same ↦
      rw same (longer closed (callbacks h log) (life h log) (life-Trace h log) (rw same at n))
  | inr other ↦ rw other (life-Trace h log (rw other at n))
]
life-Trace h (read_cb j bytes ∷ log) n = elim (Bool-cases (j == h)) [
  | inl same ↦
      rw same (longer read (callbacks h log) (life h log) (life-Trace h log) (rw same at n))
  | inr other ↦ rw other (life-Trace h log (rw other at n))
]
life-Trace h (sent_cb s b ∷ log) n = life-Trace h log n
life-Trace h (addref o ∷ log) n = life-Trace h log n
life-Trace h (release o ∷ log) n = life-Trace h log n
life-Trace h (transmitted s i k ∷ log) n = life-Trace h log n
life-Trace h (submitted s i k ∷ log) n = life-Trace h log n
life-Trace h (sent_so_far s k ∷ log) n = life-Trace h log n
life-Trace h (socket_closed s ∷ log) n = life-Trace h log n
life-Trace h (watched j ∷ log) n = life-Trace h log n

agrees-unbroken :
    (s : ConnState) (l : Life) (cbs : Callbacks) → agrees s l cbs ≡ true → not_broken l ≡ true
agrees-unbroken s l cbs a = ground arith

-- The callbacks of `h` in the log are a trace of the steps.
abbrev pub Traced : ℕ → List Effect → Type 0
Traced h log = (l : Life) × Trace (callbacks h log) l

-- They are, to a point of the order where a connection of this state and these callbacks may be.
abbrev pub TracedAt : ℕ → List Effect → ConnState → Callbacks → Type 0
TracedAt h log s cbs = (l : Life) × (Trace (callbacks h log) l × agrees s l cbs ≡ true)

pub life-Traced : (h : ℕ) (log : List Effect) → not_broken (life h log) ≡ true → Traced h log
life-Traced h log n = (life h log, life-Trace h log n)

pub life-TracedAt :
    (h : ℕ) (log : List Effect) (s : ConnState) (cbs : Callbacks)
    → agrees s (life h log) cbs ≡ true
    → TracedAt h log s cbs
life-TracedAt h log s cbs a =
    (life h log, (life-Trace h log (agrees-unbroken s (life h log) cbs a), a))
