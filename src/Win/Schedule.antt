-- ===== src/Win/Schedule.antt =====
-- What happens to a win_tcp_dispatcher, in order: calls of its methods by other threads, and packets
-- of the completion port that its own thread takes.
use tcp_fsm.Base.{ℕ, List, [], ◌∷◌, Bool}
use tcp_fsm.Completion.{Packet}
use tcp_fsm.Connection.{Callbacks}
use tcp_fsm.Monad.{pure, ◌>>◌}
use tcp_fsm.Win.State.{Windows, W}
use tcp_fsm.Win.Api.{
  make_conn, connect, connect_new, send, send_plain, close_conn, close_conn_wait, addref_conn,
  release_conn, release_send, stop_accepting, set_bandwidth, break_send_request, break_send_init,
  shut_down,
}
use tcp_fsm.Win.Loop.{Overlap, serve}

pub data Action : Type 0 where
  makes_conn : Action
  connects : ℕ → ℕ → ℕ → Callbacks → Action
  connects_new : ℕ → ℕ → Callbacks → Action
  sends : ℕ → List ℕ → Bool → Action
  sends_plain : ℕ → List ℕ → Action
  closes closes_wait addrefs releases releases_send breaks inits_break : ℕ → Action
  stops_accepting shuts_down : Action
  sets_bandwidth : ℕ → Action
  serves : Packet → Overlap → Action

-- The actions of other threads.
abbrev pub IsCall : Action → Type 0
IsCall (serves k ov) = ⊥
IsCall _ = Unit {0}

module _ (p : Windows) where
  unfoldable pub perform : Action → W (Unit {0})
  perform makes_conn = do make_conn p; pure tt
  perform (connects h ip port cb) = connect p h ip port cb
  perform (connects_new ip port cb) = do connect_new p ip port cb; pure tt
  perform (sends h bytes cb) = do send p h bytes cb; pure tt
  perform (sends_plain h bytes) = do send_plain p h bytes; pure tt
  perform (closes h) = close_conn h
  perform (closes_wait h) = close_conn_wait h
  perform (addrefs h) = addref_conn h
  perform (releases h) = release_conn h
  perform (releases_send s) = release_send s
  perform (breaks s) = break_send_request s
  perform (inits_break s) = break_send_init s
  perform stops_accepting = stop_accepting
  perform shuts_down = shut_down
  perform (sets_bandwidth n) = set_bandwidth n
  perform (serves k ov) = serve p k ov

  unfoldable pub run : List Action → W (Unit {0})
  run [] = pure tt
  run (a ∷ rest) = do perform a; run rest
