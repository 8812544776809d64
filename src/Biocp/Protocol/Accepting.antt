-- ===== src/Biocp/Protocol/Accepting.antt =====
-- Connecting and accepting keep the order of callbacks of the connections that are there: the
-- allocator hands out other addresses.
use tcp_fsm.Base.{ℕ, ◌+◌, ◌≡◌, ◌≢◌, ◌∷◌, true, arith, inl, inr, Option-cases, not}
use tcp_fsm.Connection.{SockAddr, TcpConn, tcp_conn_struct, no_callbacks}
use tcp_fsm.Effects.{addref, conn_object, connected_cb}
use tcp_fsm.Monad.{◌>>◌, ◌>>=◌, pure, when, update}
use tcp_fsm.Monad.Post.{Post, Keeps, and_then-Post, bind-Keeps, if-Post, when-Keeps}
use tcp_fsm.Wsa
use tcp_fsm.Biocp.State.{
  Calls, BiocpWorld, call, AcceptAnswer, accepted_socket, nothing_to_accept, accept_refused,
}
use tcp_fsm.Biocp.Close.{close_connection}
use tcp_fsm.Biocp.Transfer.{activate_receiving}
use tcp_fsm.Biocp.Accept.{
  create_connection, new_conn, set_addr, mark_connected, add_conn, receive_or_close, ask_user,
  welcome, admit, accept_answered, accept_connection, establish, connection_established,
}
use tcp_fsm.Biocp.Protocol.{life, InLife, InOrder, NeverNew}
use tcp_fsm.Biocp.Protocol.Handling.{close_connection-InLife, activate_receiving-InLife}

module _ (p : Calls) (h : ℕ) where
  pub create_connection-InLife : (j : ℕ) → Keeps (InLife h) (InOrder h) (create_connection p j)
  unfolding create_connection Wsa.add_event
  create_connection-InLife j w l = elim (Option-cases (p.create_event w.calls)) [
    | inl e ↦ ground arith
    | inr (event, e) ↦ ground arith
  ]

  receive_or_close-InLife : (j : ℕ) → Keeps (InLife h) (InOrder h) (receive_or_close p j)
  unfolding receive_or_close
  receive_or_close-InLife j w l =
      and_then-Post (InLife h) (InOrder h) (activate_receiving p j w) _
        (activate_receiving-InLife p h j w l)
        λ active.
          bind-Keeps (InLife h) (InOrder h) (when (not active) (close_connection p j true))
            (λ _. pure active)
            (when-Keeps (InLife h) (InOrder h) (not active) (close_connection p j true)
              (close_connection-InLife p h j true))
            (λ _ v k. k)

  add_conn-InLife : (j : ℕ) → Keeps (InLife h) (InOrder h) (add_conn p j)
  unfolding add_conn
  add_conn-InLife j w l = ground arith

  marked-InLife : (j : ℕ) → j ≢ h → Keeps (InLife h) (InOrder h) (mark_connected p j)
  unfolding mark_connected
  marked-InLife j other w l = ground arith

  added-InLife : (j : ℕ) → Keeps (InLife h) (InOrder h) (add_conn p j >> receive_or_close p j)
  added-InLife j =
      bind-Keeps (InLife h) (InOrder h) (add_conn p j) (λ _. receive_or_close p j)
        (add_conn-InLife j) λ _. receive_or_close-InLife j

  start-InLife :
      (j : ℕ) (w : BiocpWorld)
      → Post (InLife h) (InOrder h) (mark_connected p j w)
      → Post
          (InLife h)
          (InOrder h)
          ((mark_connected p j >> (add_conn p j >> receive_or_close p j)) w)
  start-InLife j w l =
      and_then-Post (InLife h) (InOrder h) (mark_connected p j w)
        (λ _. add_conn p j >> receive_or_close p j) l λ _. added-InLife j

  -- Only a connection that waits has `connected`.
  establish-InLife :
      h ≢ 0
      → (j : ℕ) (w : BiocpWorld) → (w.conn_at j).cbs.connected ≡ true
      → InLife h w
      → Post (InLife h) (InOrder h) (establish p j w)
  unfolding establish mark_connected life
  establish-InLife real j w c l = ground (
    arith,
    start-InLife j (record w {
      wsa_r = Wsa.del_event (w.conn_at j).sock w.wsa_r;
      calls = w.calls + 1 + 1;
      log = connected_cb j j ∷ w.log;
    }),
  )

  pub connection_established-InLife :
      h ≢ 0 → (j : ℕ) → Keeps (InLife h) (InOrder h) (connection_established p j)
  unfolding connection_established
  connection_established-InLife real j w l =
      if-Post (InLife h) (InOrder h) (w.conn_at j).cbs.connected (establish p j) (pure true) w
        (λ waits. establish-InLife real j w waits l) (λ none_there. l)

  module _ (kept : NeverNew p h) where
    ask_user-InLife : (j : ℕ) → j ≢ h → Keeps (InLife h) (InOrder h) (ask_user p j)
    unfolding ask_user life
    ask_user-InLife j other w l = ground arith

    welcome-InLife : (j : ℕ) → j ≢ h → Keeps (InLife h) (InOrder h) (welcome p j)
    unfolding welcome
    welcome-InLife j other w l =
        and_then-Post (InLife h) (InOrder h) (ask_user p j w) _ (ask_user-InLife j other w l) λ _.
          bind-Keeps (InLife h) (InOrder h) (add_conn p j)
            (λ _. mark_connected p j >> (receive_or_close p j >> pure tt)) (add_conn-InLife j)
            λ _.
              bind-Keeps (InLife h) (InOrder h) (mark_connected p j)
                (λ _. receive_or_close p j >> pure tt) (marked-InLife j other)
                λ _.
                  bind-Keeps (InLife h) (InOrder h) (receive_or_close p j) (λ _. pure tt)
                    (receive_or_close-InLife j) (λ _ v k. k)

    admit-InLife : (sock : ℕ) (addr : SockAddr) → Keeps (InLife h) (InOrder h) (admit p sock addr)
    unfolding admit new_conn set_addr life
    admit-InLife sock addr w l =
        let j = p.new_object w.calls in
        let c : TcpConn = tcp_conn_struct p.junk_addr sock no_callbacks in
        let made = record w {
          conn_at =
              update (update w.conn_at j c) j (record (update w.conn_at j c j) { addr = addr });
          calls = w.calls + 1;
          log = addref (conn_object j) ∷ addref (conn_object j) ∷ w.log;
        } in
        welcome-InLife j (kept w.calls) made (ground (arith, kept w.calls))

    accept_answered-InLife :
        (answer : AcceptAnswer) → Keeps (InLife h) (InOrder h) (accept_answered p answer)
    unfolding accept_answered
    accept_answered-InLife (accepted_socket sock addr) w l = admit-InLife sock addr w l
    accept_answered-InLife nothing_to_accept w l = l
    accept_answered-InLife accept_refused w l = ground arith

    pub accept_connection-InLife : Keeps (InLife h) (InOrder h) (accept_connection p)
    unfolding accept_connection
    accept_connection-InLife w l =
        when-Keeps (InLife h) (InOrder h) w.accepted
          (call (λ n. p.wsa_accept n w.listening_socket) >>= accept_answered p)
          (λ v k.
            accept_answered-InLife (p.wsa_accept v.calls w.listening_socket)
              (record v { calls = v.calls + 1 }) k)
          w l
