-- ===== src/Biocp/Listening.antt =====
-- listening_thread of tcp_dispatcher_biocp.cpp.
use tcp_fsm.Base.{ℕ, List, [], ◌∷◌, Bool, true, false, ◌==◌, ◌&&◌, if◌then◌else◌}
use tcp_fsm.Messages.{external_code}
use tcp_fsm.Monad.{pure, ◌>>=◌, ◌>>◌, crash, get, modify, when, update}
use tcp_fsm.Wsa
use tcp_fsm.Wsa.{Waits, Enumerated, Interrupted, returns, throws, polls, faults, invalid_socket}
use tcp_fsm.Biocp.State.{Calls, B, call}
use tcp_fsm.Biocp.Api.{post}

module _ (p : Calls) where
  -- `new external_struct(sock, events)` for the dispatcher's thread.
  unfoldable pub tell : ℕ → ℕ → B (Unit {0})
  unfolding post
  tell sock events = do
    x ← call p.new_object
    modify λ w. record w {
      external_at = update w.external_at x (record { sock = sock; events = events });
    }
    post external_code x

  -- The loop of listening_thread over the interrupts: `false` for its return.
  unfoldable pub hear_all : List (ℕ × ℕ) → B Bool
  unfolding tell
  hear_all [] = pure true
  hear_all ((sock, events) ∷ rest) = do
    w ← get
    if sock == invalid_socket
        then pure false
        else if sock == w.listening_socket && events == 0
        then pure true
        else (do tell sock events; hear_all rest)

  -- One round of listening_thread, after `get_interrupt`.
  unfoldable pub heard : Interrupted → B (Unit {0})
  unfolding hear_all
  heard (returns more r result) = do
    modify λ w. record w { wsa_r = r }
    go_on ← (if more then hear_all result else pure false)
    modify λ w. record w { hearing = go_on }
  heard throws = modify λ w. record w { hearing = false }
  heard polls = pure tt
  heard faults = crash

  unfoldable pub hear : ℕ → Waits → Bool → (ℕ → ℕ → Enumerated) → B (Unit {0})
  unfolding heard Wsa.get_interrupt
  hear fuel wait reset enumerate = do
    w ← get
    when w.hearing (heard (Wsa.get_interrupt fuel wait reset enumerate w.wsa_r []))
