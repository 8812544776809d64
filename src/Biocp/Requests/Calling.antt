-- ===== src/Biocp/Requests/Calling.antt =====
-- The methods that other threads call and the listening thread keep a request in accord with the log, when
-- the allocator does not hand out its address.
use tcp_fsm.Base.{
  ℕ, ◌+◌, List, [], ◌∷◌, Bool, true, false, arith, inl, inr, Option-cases, ◌==◌, ◌&&◌,
  if◌then◌else◌,
}
use tcp_fsm.Connection.{Callbacks, SockAddr, no_callbacks}
use tcp_fsm.Monad.{pure, ◌>>◌}
use tcp_fsm.Monad.Post.{Keeps, and_then-Post, bind-Keeps, if-Keeps, when-Keeps, option-Keeps}
use tcp_fsm.Wsa
use tcp_fsm.Wsa.{Interrupted, returns, throws, polls, faults, invalid_socket, Waits, Enumerated}
use tcp_fsm.Biocp.State.{
  Calls, ConnectAnswer, connect_at_once, connect_going_on, connect_timed_out, connect_refused,
}
use tcp_fsm.Biocp.Accept.{new_conn, set_addr}
use tcp_fsm.Biocp.Api.{
  open_socket, start_connection, after_connect, after_new_connect, connect_to, make_conn, connect,
  connect_new, send, send_plain, close_conn, close_conn_wait, addref_conn, release_conn,
  release_send, stop_accepting, break_send, shut_down,
}
use tcp_fsm.Biocp.Listening.{tell, hear_all, heard, hear}
use tcp_fsm.Biocp.Schedule.{
  Action, makes_conn, connects, connects_new, sends, sends_plain, closes, closes_wait, addrefs,
  releases, releases_send, breaks, stops_accepting, shuts_down, hears, serves, perform, IsOther,
}
use tcp_fsm.Biocp.Requests.{report_on, Answered}
use tcp_fsm.Biocp.Protocol.{NeverNew}

module _ (p : Calls) (s total : ℕ) where
  open_socket-Answered : Keeps (Answered s total) (Answered s total) (open_socket p)
  unfolding open_socket report_on
  open_socket-Answered w l = elim (Option-cases (p.wsa_socket w.calls)) [
    | inl e ↦ ground arith
    | inr (sock, e) ↦ ground arith
  ]

  after_connect-Answered :
      (j : ℕ) (answer : ConnectAnswer)
      → Keeps (Answered s total) (Answered s total) (after_connect p j answer)
  unfolding after_connect
  after_connect-Answered j connect_at_once w l = ground arith
  after_connect-Answered j connect_going_on w l = ground arith
  after_connect-Answered j connect_timed_out w l = l
  after_connect-Answered j connect_refused w l = l

  connect-Answered :
      (j ip port : ℕ) (cb : Callbacks)
      → Keeps (Answered s total) (Answered s total) (connect p j ip port cb)
  unfolding connect after_connect
  connect-Answered j ip port cb w l = ground arith

  tell-Answered :
      (sock events : ℕ) → Keeps (Answered s total) (Answered s total) (tell p sock events)
  unfolding tell
  tell-Answered sock events w l = ground arith

  hear_all-Answered :
      (result : List (ℕ × ℕ)) → Keeps (Answered s total) (Answered s total) (hear_all p result)
  unfolding hear_all
  hear_all-Answered [] w l = l
  hear_all-Answered ((sock, events) ∷ rest) w l =
      if-Keeps (Answered s total) (Answered s total) (sock == invalid_socket) (pure false)
        (if sock == w.listening_socket && events == 0
          then pure true
          else (tell p sock events >> hear_all p rest))
        (λ v k. k)
        (if-Keeps (Answered s total) (Answered s total) (sock == w.listening_socket && events == 0)
          (pure true) (tell p sock events >> hear_all p rest) (λ v k. k)
          (bind-Keeps (Answered s total) (Answered s total) (tell p sock events)
            (λ _. hear_all p rest) (tell-Answered sock events) λ _. hear_all-Answered rest))
        w l

  heard-Answered : (i : Interrupted) → Keeps (Answered s total) (Answered s total) (heard p i)
  unfolding heard
  heard-Answered (returns more r result) w l =
      and_then-Post (Answered s total) (Answered s total)
        ((if more then hear_all p result else pure false) (record w { wsa_r = r })) _
        (if-Keeps (Answered s total) (Answered s total) more (hear_all p result) (pure false)
          (hear_all-Answered result) (λ v k. k) (record w { wsa_r = r }) (ground arith))
        λ go_on v k. ground arith
  heard-Answered throws w l = ground arith
  heard-Answered polls w l = l
  heard-Answered faults w l = tt

  hear-Answered :
      (fuel : ℕ) (wait : Waits) (reset : Bool) (enumerate : ℕ → ℕ → Enumerated)
      → Keeps (Answered s total) (Answered s total) (hear p fuel wait reset enumerate)
  unfolding hear
  hear-Answered fuel wait reset enumerate w l =
      let i = Wsa.get_interrupt fuel wait reset enumerate w.wsa_r [] in
      when-Keeps (Answered s total) (Answered s total) w.hearing (heard p i) (heard-Answered i) w l

  new_conn-Answered :
      (sock : ℕ) (cbs : Callbacks)
      → Keeps (Answered s total) (Answered s total) (new_conn p sock cbs)
  unfolding new_conn report_on
  new_conn-Answered sock cbs w l = ground arith

  start_connection-Answered :
      (sock : ℕ) (addr : SockAddr) (cb : Callbacks)
      → Keeps (Answered s total) (Answered s total) (start_connection p sock addr cb)
  unfolding start_connection set_addr new_conn report_on
  start_connection-Answered sock addr cb w l = ground arith

  after_new_connect-Answered :
      (sock : ℕ) (addr : SockAddr) (cb : Callbacks) (answer : ConnectAnswer)
      → Keeps (Answered s total) (Answered s total) (after_new_connect p sock addr cb answer)
  unfolding after_new_connect report_on
  after_new_connect-Answered sock addr cb connect_at_once = start_connection-Answered sock addr cb
  after_new_connect-Answered sock addr cb connect_going_on = start_connection-Answered sock addr cb
  after_new_connect-Answered sock addr cb connect_timed_out = λ w l. l
  after_new_connect-Answered sock addr cb connect_refused = λ w l. ground arith

  connect_to-Answered :
      (sock : ℕ) (addr : SockAddr) (cb : Callbacks)
      → Keeps (Answered s total) (Answered s total) (connect_to p sock addr cb)
  unfolding connect_to
  connect_to-Answered sock addr cb w l =
      after_new_connect-Answered sock addr cb (p.wsa_connect w.calls sock addr)
        (record w { calls = w.calls + 1 }) (ground arith)

  make_conn-Answered : Keeps (Answered s total) (Answered s total) (make_conn p)
  unfolding make_conn
  make_conn-Answered w l =
      and_then-Post (Answered s total) (Answered s total) (open_socket p w) _
        (open_socket-Answered w l)
        λ found.
          option-Keeps (Answered s total) (Answered s total) found (pure 0)
            (λ sock. new_conn p sock no_callbacks) (λ v k. k)
            (λ sock. new_conn-Answered sock no_callbacks)

  connect_new-Answered :
      (ip port : ℕ) (cb : Callbacks)
      → Keeps (Answered s total) (Answered s total) (connect_new p ip port cb)
  unfolding connect_new
  connect_new-Answered ip port cb w l =
      let addr : SockAddr = record { ip = ip; port = p.htons port } in
      and_then-Post (Answered s total) (Answered s total) (open_socket p w) _
        (open_socket-Answered w l)
        λ found.
          option-Keeps (Answered s total) (Answered s total) found (pure 0)
            (λ sock. connect_to p sock addr cb) (λ v k. k)
            (λ sock. connect_to-Answered sock addr cb)

  pub perform-Answered :
      NeverNew p s
      → (a : Action) → IsOther a
      → Keeps (Answered s total) (Answered s total) (perform p a)
  unfolding perform
  perform-Answered kept makes_conn c w l =
      and_then-Post (Answered s total) (Answered s total) (make_conn p w) _ (make_conn-Answered w l)
        λ _ v m. m
  perform-Answered kept (connects j ip port cb) c w l = connect-Answered j ip port cb w l
  perform-Answered kept (connects_new ip port cb) c w l =
      and_then-Post (Answered s total) (Answered s total) (connect_new p ip port cb w) _
        (connect_new-Answered ip port cb w l) λ _ v m. m
  perform-Answered kept (sends j bytes cb) c w l =
      unfold send report_on in ground (arith, kept w.calls)
  perform-Answered kept (sends_plain j bytes) c w l =
      unfold send_plain send report_on in ground (arith, kept w.calls)
  perform-Answered kept (closes j) c w l = unfold close_conn report_on in ground arith
  perform-Answered kept (closes_wait j) c w l = unfold close_conn_wait report_on in ground arith
  perform-Answered kept (addrefs j) c w l = unfold addref_conn report_on in ground arith
  perform-Answered kept (releases j) c w l = unfold release_conn report_on in ground arith
  perform-Answered kept (releases_send q) c w l = unfold release_send report_on in ground arith
  perform-Answered kept (breaks q) c w l = unfold break_send report_on in ground arith
  perform-Answered kept stops_accepting c w l = unfold stop_accepting report_on in ground arith
  perform-Answered kept shuts_down c w l = unfold shut_down report_on in ground arith
  perform-Answered kept (hears fuel wait reset enumerate) c w l =
      hear-Answered fuel wait reset enumerate w l
  perform-Answered kept (serves k ov) c w l = elim c [ ]
