-- ===== src/Biocp/Schedule.antt =====
-- What happens to a tcp_dispatcher_biocp, in order: calls of its methods by other threads, rounds of
-- its listening thread, and packets of the completion port that its own thread takes.
use tcp_fsm.Base.{ℕ, List, [], ◌∷◌, Bool}
use tcp_fsm.Completion.{Packet}
use tcp_fsm.Connection.{Callbacks}
use tcp_fsm.Monad.{pure, ◌>>◌}
use tcp_fsm.Wsa.{Waits, Enumerated}
use tcp_fsm.Biocp.State.{Calls, B}
use tcp_fsm.Biocp.Api.{
  make_conn, connect, connect_new, send, send_plain, close_conn, close_conn_wait, addref_conn,
  release_conn, release_send, stop_accepting, break_send, shut_down,
}
use tcp_fsm.Biocp.Listening.{hear}
use tcp_fsm.Biocp.Loop.{Overlapped, serve}

pub data Action : Type 0 where
  makes_conn : Action
  connects : ℕ → ℕ → ℕ → Callbacks → Action
  connects_new : ℕ → ℕ → Callbacks → Action
  sends : ℕ → List ℕ → Bool → Action
  sends_plain : ℕ → List ℕ → Action
  closes closes_wait addrefs releases releases_send breaks : ℕ → Action
  stops_accepting shuts_down : Action
  hears : ℕ → Waits → Bool → (ℕ → ℕ → Enumerated) → Action
  serves : Packet → Overlapped → Action

-- The actions of other threads than the dispatcher's own.
abbrev pub IsOther : Action → Type 0
IsOther (serves k ov) = ⊥
IsOther _ = Unit {0}

module _ (p : Calls) where
  unfoldable pub perform : Action → B (Unit {0})
  perform makes_conn = do make_conn p; pure tt
  perform (connects h ip port cb) = connect p h ip port cb
  perform (connects_new ip port cb) = do connect_new p ip port cb; pure tt
  perform (sends h bytes cb) = do send p h bytes cb; pure tt
  perform (sends_plain h bytes) = do send_plain p h bytes; pure tt
  perform (closes h) = close_conn h
  perform (closes_wait h) = close_conn_wait h
  perform (addrefs h) = addref_conn h
  perform (releases h) = release_conn h
  perform (releases_send s) = release_send s
  perform (breaks s) = break_send s
  perform stops_accepting = stop_accepting
  perform shuts_down = shut_down
  perform (hears fuel wait reset enumerate) = hear p fuel wait reset enumerate
  perform (serves k ov) = serve p k ov

  unfoldable pub run : List Action → B (Unit {0})
  run [] = pure tt
  run (a ∷ rest) = do perform a; run rest
