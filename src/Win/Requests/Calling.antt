-- ===== src/Win/Requests/Calling.antt =====
-- The methods that other threads call keep a request in accord with the log, when the allocator does
-- not hand out its address.
use tcp_fsm.Base.{ℕ, arith, inl, inr, Option-cases}
use tcp_fsm.Connection.{Callbacks, SockAddr, no_callbacks}
use tcp_fsm.Monad.{pure}
use tcp_fsm.Monad.Post.{Keeps, and_then-Post, option-Keeps}
use tcp_fsm.Win.State.{Windows}
use tcp_fsm.Win.Accept.{add_socket, new_conn}
use tcp_fsm.Win.Api.{
  prepare, open_socket, start_connection, make_conn, connect, connect_new, send, send_plain,
  close_conn, close_conn_wait, addref_conn, release_conn, release_send, stop_accepting,
  set_bandwidth, break_send_request, break_send_init, shut_down,
}
use tcp_fsm.Win.Schedule.{
  Action, makes_conn, connects, connects_new, sends, sends_plain, closes, closes_wait, addrefs,
  releases, releases_send, breaks, inits_break, stops_accepting, shuts_down, sets_bandwidth, serves,
  perform, IsCall,
}
use tcp_fsm.Win.Protocol.{NeverNew}
use tcp_fsm.Win.Requests.{report_on, Answered}

module _ (p : Windows) (s total : ℕ) where
  open_socket-Answered : Keeps (Answered s total) (Answered s total) (open_socket p)
  unfolding open_socket prepare add_socket report_on
  open_socket-Answered w l = elim (Option-cases (p.wsa_socket w.calls)) [
    | inl e ↦ ground arith
    | inr (sock, e) ↦ ground arith
  ]

  new_conn-Answered :
      (sock : ℕ) (cbs : Callbacks)
      → Keeps (Answered s total) (Answered s total) (new_conn p sock cbs)
  unfolding new_conn report_on
  new_conn-Answered sock cbs w l = ground arith

  start_connection-Answered :
      (sock : ℕ) (addr : SockAddr) (cb : Callbacks)
      → Keeps (Answered s total) (Answered s total) (start_connection p sock addr cb)
  unfolding start_connection new_conn report_on
  start_connection-Answered sock addr cb w l = ground arith

  make_conn-Answered : Keeps (Answered s total) (Answered s total) (make_conn p)
  unfolding make_conn
  make_conn-Answered w l =
      and_then-Post (Answered s total) (Answered s total) (open_socket p w) _
        (open_socket-Answered w l)
        λ found.
          option-Keeps (Answered s total) (Answered s total) found (pure 0)
            (λ sock. new_conn p sock no_callbacks) (λ v k. k)
            (λ sock. new_conn-Answered sock no_callbacks)

  connect_new-Answered :
      (ip port : ℕ) (cb : Callbacks)
      → Keeps (Answered s total) (Answered s total) (connect_new p ip port cb)
  unfolding connect_new
  connect_new-Answered ip port cb w l =
      let addr : SockAddr = record { ip = ip; port = p.htons port } in
      and_then-Post (Answered s total) (Answered s total) (open_socket p w) _
        (open_socket-Answered w l)
        λ found.
          option-Keeps (Answered s total) (Answered s total) found (pure 0)
            (λ sock. start_connection p sock addr cb) (λ v k. k)
            (λ sock. start_connection-Answered sock addr cb)

  pub perform-Answered :
      NeverNew p s
      → (a : Action) → IsCall a
      → Keeps (Answered s total) (Answered s total) (perform p a)
  unfolding perform
  perform-Answered kept makes_conn c w l =
      and_then-Post (Answered s total) (Answered s total) (make_conn p w) _ (make_conn-Answered w l)
        λ _ v m. m
  perform-Answered kept (connects j ip port cb) c w l = unfold connect report_on in ground arith
  perform-Answered kept (connects_new ip port cb) c w l =
      and_then-Post (Answered s total) (Answered s total) (connect_new p ip port cb w) _
        (connect_new-Answered ip port cb w l) λ _ v m. m
  perform-Answered kept (sends j bytes cb) c w l =
      unfold send report_on in ground (arith, kept w.calls)
  perform-Answered kept (sends_plain j bytes) c w l =
      unfold send_plain send report_on in ground (arith, kept w.calls)
  perform-Answered kept (closes j) c w l = unfold close_conn report_on in ground arith
  perform-Answered kept (closes_wait j) c w l = unfold close_conn_wait report_on in ground arith
  perform-Answered kept (addrefs j) c w l = unfold addref_conn report_on in ground arith
  perform-Answered kept (releases j) c w l = unfold release_conn report_on in ground arith
  perform-Answered kept (releases_send j) c w l = unfold release_send report_on in ground arith
  perform-Answered kept (breaks j) c w l = unfold break_send_request report_on in ground arith
  perform-Answered kept (inits_break j) c w l = unfold break_send_init report_on in ground arith
  perform-Answered kept stops_accepting c w l = unfold stop_accepting report_on in ground arith
  perform-Answered kept shuts_down c w l = unfold shut_down report_on in ground arith
  perform-Answered kept (sets_bandwidth m) c w l = unfold set_bandwidth report_on in ground arith
  perform-Answered kept (serves k ov) c w l = elim c [ ]
