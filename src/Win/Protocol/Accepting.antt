-- ===== src/Win/Protocol/Accepting.antt =====
-- Connecting and accepting keep the order of callbacks of the connections that are there: the
-- allocator hands out other addresses.
use tcp_fsm.Base.{ℕ, ◌+◌, ◌≡◌, ◌≢◌, ◌∷◌, true, arith, inl, inr, Bool-cases, Option-cases, not}
use tcp_fsm.Connection.{TcpConn, tcp_conn_struct, no_callbacks}
use tcp_fsm.Effects.{addref, conn_object, connected_cb}
use tcp_fsm.Monad.{◌>>◌, when, update}
use tcp_fsm.Monad.Post.{Post, Keeps, and_then-Post, bind-Keeps, when-Keeps}
use tcp_fsm.Win.State.{Windows, WinWorld}
use tcp_fsm.Win.Close.{
  close_connection, free_completed_accept, free_completed_overlap, free_completed_conn,
}
use tcp_fsm.Win.Transfer.{activate_receiving, record_bandwidth}
use tcp_fsm.Win.Accept.{
  add_socket, new_conn, create, mark_connected, receive_or_close, start_receiving, establish,
  complete_connect, accept_request, ask_user, admit, complete_accept,
}
use tcp_fsm.Win.Protocol.{life, InLife, InOrder, NeverNew}
use tcp_fsm.Win.Protocol.Closing.{
  close_connection-InLife, free_conn-InLife, free_overlap-InLife, free_accept-InLife,
}
use tcp_fsm.Win.Protocol.Transferring.{activate_receiving-InLife}

module _ (p : Windows) (h : ℕ) where
  receive_or_close-InLife : (j : ℕ) → Keeps (InLife h) (InOrder h) (receive_or_close p j)
  unfolding receive_or_close
  receive_or_close-InLife j w l =
      and_then-Post (InLife h) (InOrder h) (activate_receiving p j w) _
        (activate_receiving-InLife p h j w l)
        λ active.
          when-Keeps (InLife h) (InOrder h) (not active) (close_connection p j true)
            (close_connection-InLife p h j true)

  pub create-InLife : (j : ℕ) → Keeps (InLife h) (InOrder h) (create p j)
  unfolding create life
  create-InLife j w l = ground arith

  marked-InLife : (j : ℕ) → j ≢ h → Keeps (InLife h) (InOrder h) (mark_connected p j)
  unfolding mark_connected
  marked-InLife j other w l = ground arith

  record_bandwidth-InLife : (j n : ℕ) → Keeps (InLife h) (InOrder h) (record_bandwidth p j n)
  unfolding record_bandwidth
  record_bandwidth-InLife j n w l = l

  recorded-InLife :
      (j : ℕ) → Keeps (InLife h) (InOrder h) (record_bandwidth p j 0 >> receive_or_close p j)
  recorded-InLife j =
      bind-Keeps (InLife h) (InOrder h) (record_bandwidth p j 0) (λ _. receive_or_close p j)
        (record_bandwidth-InLife j 0) λ _. receive_or_close-InLife j

  start_receiving-InLife :
      (j : ℕ) (w : WinWorld)
      → Post (InLife h) (InOrder h) (mark_connected p j w)
      → Post (InLife h) (InOrder h) (start_receiving p j w)
  unfolding start_receiving
  start_receiving-InLife j w l =
      and_then-Post (InLife h) (InOrder h) (mark_connected p j w) _ l λ _. recorded-InLife j

  -- Only a connection that waits has `connected`.
  establish-InLife :
      h ≢ 0
      → (j : ℕ) (w : WinWorld) → (w.conn_at j).cbs.connected ≡ true
      → InLife h w
      → Post (InLife h) (InOrder h) (establish p j w)
  unfolding establish mark_connected life
  establish-InLife real j w c l = ground (
    arith,
    start_receiving-InLife j (record w { calls = w.calls + 1; log = connected_cb j j ∷ w.log }),
  )

  pub accept_request-InLife : Keeps (InLife h) (InOrder h) (accept_request p)
  unfolding accept_request add_socket life
  accept_request-InLife w l = elim (Option-cases (p.wsa_socket w.calls)) [
    | inl e ↦ ground arith
    | inr (sock, e) ↦ ground arith
  ]

  established-InLife :
      h ≢ 0
      → (j : ℕ) (w : WinWorld) → InLife h w
      → Post (InLife h) (InOrder h) (when (w.conn_at j).cbs.connected (establish p j) w)
  established-InLife real j w l = elim (Bool-cases (w.conn_at j).cbs.connected) [
    | inl waits ↦ simp waits (establish-InLife real j w waits l)
    | inr none_there ↦ simp none_there l
  ]

  pub complete_connect-InLife :
      h ≢ 0 → (o : ℕ) → Keeps (InLife h) (InOrder h) (complete_connect p o)
  unfolding complete_connect
  complete_connect-InLife real o w l =
      let j = (w.overlap_at o).conn in
      and_then-Post (InLife h) (InOrder h) (when (w.conn_at j).cbs.connected (establish p j) w)
        (λ _. free_completed_overlap o >> free_completed_conn j) (established-InLife real j w l)
        λ _.
          bind-Keeps (InLife h) (InOrder h) (free_completed_overlap o) (λ _. free_completed_conn j)
            (free_overlap-InLife h o) (λ _. free_conn-InLife h j)

  module _ (kept : NeverNew p h) where
    ask_user-InLife : (j : ℕ) → j ≢ h → Keeps (InLife h) (InOrder h) (ask_user p j)
    unfolding ask_user life
    ask_user-InLife j other w l = ground arith

    asked-InLife :
        (j : ℕ) → j ≢ h → Keeps (InLife h) (InOrder h) (ask_user p j >> start_receiving p j)
    asked-InLife j other =
        bind-Keeps (InLife h) (InOrder h) (ask_user p j) (λ _. start_receiving p j)
          (ask_user-InLife j other)
          (λ _ v k. start_receiving-InLife j v (marked-InLife j other v k))

    admit-InLife : (sock : ℕ) → Keeps (InLife h) (InOrder h) (admit p sock)
    unfolding admit new_conn life
    admit-InLife sock w l =
        let j = p.new_object w.calls in
        let c : TcpConn = tcp_conn_struct p.junk_addr sock no_callbacks in
        let made = record w {
          conn_at =
              update (update w.conn_at j c) j
                (record (update w.conn_at j c j) { addr = p.peer (w.calls + 1) });
          calls = w.calls + 1 + 1;
          log = addref (conn_object j) ∷ addref (conn_object j) ∷ w.log;
        } in
        asked-InLife j (kept w.calls) made (ground (arith, kept w.calls))

    pub complete_accept-InLife : (a : ℕ) → Keeps (InLife h) (InOrder h) (complete_accept p a)
    unfolding complete_accept
    complete_accept-InLife a w l =
        and_then-Post (InLife h) (InOrder h) (when w.accepted (admit p (w.accept_at a).sock) w) _
          (when-Keeps (InLife h) (InOrder h) w.accepted (admit p (w.accept_at a).sock)
            (admit-InLife (w.accept_at a).sock) w l)
          λ _ v k.
            and_then-Post (InLife h) (InOrder h) (free_completed_accept a v) _
              (free_accept-InLife h a v k) λ _. accept_request-InLife
