-- ===== src/Dispatcher/Schedule.antt =====
-- What happens to a dispatcher, in order: calls of its methods by other threads, and rounds of its own
-- thread. The mutex of the queue makes a call of a method one step, and a method that waits is the
-- part before the wait. A callback's own calls of methods stand after the round: they only push.
use tcp_fsm.Base.{ℕ, List, [], ◌∷◌, Bool, true, false, if◌then◌else◌}
use tcp_fsm.Connection.{Callbacks}
use tcp_fsm.Platform.{Platform}
use tcp_fsm.Reactor.{WaitResult}
use tcp_fsm.World.{M, pure, ◌>>=◌, ◌>>◌}
use tcp_fsm.Dispatcher.Api.{
  make_conn, connect, connect_new, send, send_plain, close_conn, close_conn_wait, addref_conn,
  release_conn, release_send, stop_accepting, set_bandwidth, break_send_request, break_send_init,
  shut_down,
}
use tcp_fsm.Dispatcher.Loop.{round}

pub data Action : Type 0 where
  makes_conn : Action
  connects : ℕ → ℕ → ℕ → Callbacks → Action
  connects_new : ℕ → ℕ → Callbacks → Action
  sends : ℕ → List ℕ → Bool → Action
  sends_plain : ℕ → List ℕ → Action
  closes closes_wait addrefs releases releases_send breaks inits_break : ℕ → Action
  stops_accepting shuts_down : Action
  sets_bandwidth : ℕ → Action
  rounds : ℕ → List WaitResult → Action

-- The actions of other threads.
abbrev pub IsCall : Action → Type 0
IsCall (rounds fuel waits) = ⊥
IsCall _ = Unit {0}

module _ (p : Platform) where
  -- A call of another thread.
  unfoldable pub perform : Action → M (Unit {0})
  perform makes_conn = do make_conn p; pure tt
  perform (connects h ip port cb) = connect p h ip port cb
  perform (connects_new ip port cb) = do connect_new p ip port cb; pure tt
  perform (sends h bytes cb) = do send p h bytes cb; pure tt
  perform (sends_plain h bytes) = do send_plain p h bytes; pure tt
  perform (closes h) = close_conn h
  perform (closes_wait h) = close_conn_wait h
  perform (addrefs h) = addref_conn h
  perform (releases h) = release_conn h
  perform (releases_send s) = release_send s
  perform (breaks s) = break_send_request s
  perform (inits_break s) = break_send_init s
  perform stops_accepting = stop_accepting
  perform shuts_down = shut_down
  perform (sets_bandwidth n) = set_bandwidth n
  perform (rounds fuel waits) = pure tt

  -- A step, where `alive` says whether the thread is in its loop: it returns after _P_EXIT, and has no
  -- more rounds.
  unfoldable pub step : Bool → Action → M Bool
  unfolding perform
  step alive (rounds fuel waits) = if alive then round p fuel waits else pure false
  step alive a = do perform a; pure alive

  -- Whether the thread is in its loop at the end. An exception that leaves a round ends the program.
  unfoldable pub run_from : Bool → List Action → M Bool
  unfolding step
  run_from alive [] = pure alive
  run_from alive (a ∷ rest) = do on ← step alive a; run_from on rest

  unfoldable pub run : List Action → M Bool
  unfolding run_from
  run schedule = run_from true schedule
