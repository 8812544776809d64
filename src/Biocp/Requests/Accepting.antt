-- ===== src/Biocp/Requests/Accepting.antt =====
-- Connecting and accepting keep a request in accord with the log.
use tcp_fsm.Base.{ℕ, ◌+◌, ◌∷◌, Bool, true, arith, inl, inr, Option-cases, not}
use tcp_fsm.Connection.{SockAddr, TcpConn, tcp_conn_struct, no_callbacks}
use tcp_fsm.Effects.{addref, conn_object, connected_cb}
use tcp_fsm.Monad.{◌>>◌, ◌>>=◌, pure, when, update}
use tcp_fsm.Monad.Post.{Keeps, and_then-Post, bind-Keeps, if-Post, when-Keeps}
use tcp_fsm.Wsa
use tcp_fsm.Biocp.State.{
  Calls, call, require, invoke, AcceptAnswer, accepted_socket, nothing_to_accept, accept_refused,
}
use tcp_fsm.Biocp.Close.{close_connection}
use tcp_fsm.Biocp.Transfer.{activate_receiving}
use tcp_fsm.Biocp.Accept.{
  create_connection, new_conn, set_addr, mark_connected, add_conn, receive_or_close, ask_user,
  welcome, admit, accept_answered, accept_connection, establish, connection_established,
}
use tcp_fsm.Biocp.Requests.{report_on, Reported, Honest}
use tcp_fsm.Biocp.Requests.Handling.{close_connection-Reported, activate_receiving-Reported}

module _ (p : Calls) (s total : ℕ) where
  pub create_connection-Reported :
      (j : ℕ) → Keeps (Reported s total) (Honest s total) (create_connection p j)
  unfolding create_connection Wsa.add_event
  create_connection-Reported j w l = elim (Option-cases (p.create_event w.calls)) [
    | inl e ↦ ground arith
    | inr (event, e) ↦ ground arith
  ]

  receive_or_close-Reported :
      (j : ℕ) → Keeps (Reported s total) (Honest s total) (receive_or_close p j)
  unfolding receive_or_close
  receive_or_close-Reported j w l =
      and_then-Post (Reported s total) (Honest s total) (activate_receiving p j w) _
        (activate_receiving-Reported p s total j w l)
        λ active.
          bind-Keeps (Reported s total) (Honest s total)
            (when (not active) (close_connection p j true)) (λ _. pure active)
            (when-Keeps (Reported s total) (Honest s total) (not active) (close_connection p j true)
              (close_connection-Reported p s total j true))
            (λ _ v k. k)

  add_conn-Reported : (j : ℕ) → Keeps (Reported s total) (Honest s total) (add_conn p j)
  unfolding add_conn
  add_conn-Reported j w l = ground arith

  marked-Reported : (j : ℕ) → Keeps (Reported s total) (Honest s total) (mark_connected p j)
  unfolding mark_connected
  marked-Reported j w l = ground arith

  added-Reported :
      (j : ℕ) → Keeps (Reported s total) (Honest s total) (add_conn p j >> receive_or_close p j)
  added-Reported j =
      bind-Keeps (Reported s total) (Honest s total) (add_conn p j) (λ _. receive_or_close p j)
        (add_conn-Reported j) λ _. receive_or_close-Reported j

  connected-Reported :
      (j : ℕ) (there : Bool)
      → Keeps (Reported s total) (Honest s total) (invoke p there (connected_cb j j))
  unfolding report_on
  connected-Reported j there w l = ground arith

  awake-Reported : Keeps (Reported s total) (Honest s total) (require p.set_event)
  awake-Reported w l = ground arith

  establish-Reported : (j : ℕ) → Keeps (Reported s total) (Honest s total) (establish p j)
  unfolding establish
  establish-Reported j w l =
      let start = mark_connected p j >> (add_conn p j >> receive_or_close p j) in
      let there = (w.conn_at j).cbs.connected in
      bind-Keeps (Reported s total) (Honest s total) (require p.set_event)
        (λ _. invoke p there (connected_cb j j) >> start) awake-Reported
        (λ _.
          bind-Keeps (Reported s total) (Honest s total) (invoke p there (connected_cb j j))
            (λ _. start) (connected-Reported j there)
            λ _.
              bind-Keeps (Reported s total) (Honest s total) (mark_connected p j)
                (λ _. add_conn p j >> receive_or_close p j) (marked-Reported j)
                λ _. added-Reported j)
        (record w { wsa_r = Wsa.del_event (w.conn_at j).sock w.wsa_r }) (ground arith)

  pub connection_established-Reported :
      (j : ℕ) → Keeps (Reported s total) (Honest s total) (connection_established p j)
  unfolding connection_established
  connection_established-Reported j w l =
      if-Post (Reported s total) (Honest s total) (w.conn_at j).cbs.connected (establish p j)
        (pure true) w (λ waits. establish-Reported j w l) (λ none_there. l)

  ask_user-Reported : (j : ℕ) → Keeps (Reported s total) (Honest s total) (ask_user p j)
  unfolding ask_user report_on
  ask_user-Reported j w l = ground arith

  welcome-Reported : (j : ℕ) → Keeps (Reported s total) (Honest s total) (welcome p j)
  unfolding welcome
  welcome-Reported j w l =
      and_then-Post (Reported s total) (Honest s total) (ask_user p j w) _ (ask_user-Reported j w l)
        λ _.
          bind-Keeps (Reported s total) (Honest s total) (add_conn p j)
            (λ _. mark_connected p j >> (receive_or_close p j >> pure tt)) (add_conn-Reported j)
            λ _.
              bind-Keeps (Reported s total) (Honest s total) (mark_connected p j)
                (λ _. receive_or_close p j >> pure tt) (marked-Reported j)
                λ _.
                  bind-Keeps (Reported s total) (Honest s total) (receive_or_close p j)
                    (λ _. pure tt) (receive_or_close-Reported j) (λ _ v k. k)

  admit-Reported :
      (sock : ℕ) (addr : SockAddr) → Keeps (Reported s total) (Honest s total) (admit p sock addr)
  unfolding admit new_conn set_addr report_on
  admit-Reported sock addr w l =
      let j = p.new_object w.calls in
      let c : TcpConn = tcp_conn_struct p.junk_addr sock no_callbacks in
      let made = record w {
        conn_at = update (update w.conn_at j c) j (record (update w.conn_at j c j) { addr = addr });
        calls = w.calls + 1;
        log = addref (conn_object j) ∷ addref (conn_object j) ∷ w.log;
      } in
      welcome-Reported j made (ground arith)

  accept_answered-Reported :
      (answer : AcceptAnswer) → Keeps (Reported s total) (Honest s total) (accept_answered p answer)
  unfolding accept_answered
  accept_answered-Reported (accepted_socket sock addr) w l = admit-Reported sock addr w l
  accept_answered-Reported nothing_to_accept w l = l
  accept_answered-Reported accept_refused w l = ground arith

  pub accept_connection-Reported : Keeps (Reported s total) (Honest s total) (accept_connection p)
  unfolding accept_connection
  accept_connection-Reported w l =
      when-Keeps (Reported s total) (Honest s total) w.accepted
        (call (λ n. p.wsa_accept n w.listening_socket) >>= accept_answered p)
        (λ v k.
          accept_answered-Reported (p.wsa_accept v.calls w.listening_socket)
            (record v { calls = v.calls + 1 }) (ground arith))
        w l
