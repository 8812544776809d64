-- ===== src/Biocp/Accept.antt =====
-- Connecting and accepting of tcp_dispatcher_biocp.cpp.
use tcp_fsm.Base.{ℕ, ◌+◌, Bool, true, false, not, if◌then◌else◌}
use tcp_fsm.Connection.{
  cs_connected, Callbacks, no_callbacks, SockAddr, tcp_conn_struct, fd_connect, fd_close,
}
use tcp_fsm.Effects.{conn_object, addref, connected_cb, accepted_cb}
use tcp_fsm.Monad.{pure, ◌>>=◌, ◌>>◌, throw, get, modify, when, update}
use tcp_fsm.Wsa
use tcp_fsm.Biocp.State.{
  AcceptAnswer, accepted_socket, nothing_to_accept, accept_refused, Calls, B, emit, call, require,
  set_conn, invoke, watch, unwatch,
}
use tcp_fsm.Biocp.Close.{close_connection}
use tcp_fsm.Biocp.Transfer.{activate_receiving}

module _ (p : Calls) where
  -- `create_connection(conn)`
  unfoldable pub create_connection : ℕ → B (Unit {0})
  unfolding Wsa.add_event
  create_connection h = do
    w ← get
    watch p (w.conn_at h).sock (fd_connect + fd_close)
    require p.set_event

  -- `new tcp_conn_struct(sock, cbs)` and its two references.
  unfoldable pub new_conn : ℕ → Callbacks → B ℕ
  unfolding tcp_conn_struct
  new_conn sock cbs = do
    h ← call p.new_object
    set_conn h (tcp_conn_struct p.junk_addr sock cbs)
    emit (addref (conn_object h))
    emit (addref (conn_object h))
    pure h

  unfoldable pub set_addr : ℕ → SockAddr → B (Unit {0})
  set_addr h addr =
      modify λ w. record w { conn_at = update w.conn_at h (record (w.conn_at h) { addr = addr }) }

  unfoldable pub mark_connected : ℕ → B (Unit {0})
  mark_connected h = modify λ w. record w {
    conn_at = update w.conn_at h (record (w.conn_at h) {
      cbs = record (w.conn_at h).cbs { connected = false };
      state = cs_connected;
    });
  }

  -- `iocp_r->add_conn(conn)`
  unfoldable pub add_conn : ℕ → B (Unit {0})
  add_conn h = do w ← get; require (λ n. p.add_conn n (w.conn_at h).sock)

  -- `if( activate_receiving(conn) ) …; close_connection(conn, true);`: whether it receives.
  unfoldable pub receive_or_close : ℕ → B Bool
  unfolding activate_receiving close_connection
  receive_or_close h = do
    active ← activate_receiving p h
    when (not active) (close_connection p h true)
    pure active

  -- `accepted(conn, conn->cbs)`, which fills the callbacks.
  unfoldable pub ask_user : ℕ → B (Unit {0})
  ask_user h = do
    w ← get
    invoke p w.accepted (accepted_cb h)
    cbs ← call p.fill_callbacks
    modify λ v. record v { conn_at = update v.conn_at h (record (v.conn_at h) { cbs = cbs }) }

  unfoldable pub welcome : ℕ → B (Unit {0})
  unfolding ask_user add_conn mark_connected receive_or_close
  welcome h = do ask_user h; add_conn h; mark_connected h; receive_or_close h; pure tt

  unfoldable pub admit : ℕ → SockAddr → B (Unit {0})
  unfolding new_conn set_addr welcome
  admit sock addr = do h ← new_conn sock no_callbacks; set_addr h addr; welcome h

  unfoldable pub accept_answered : AcceptAnswer → B (Unit {0})
  unfolding admit
  accept_answered (accepted_socket sock addr) = admit sock addr
  accept_answered nothing_to_accept = pure tt
  accept_answered accept_refused = throw

  -- `accept_connection()`, whose result is not used.
  unfoldable pub accept_connection : B (Unit {0})
  unfolding accept_answered
  accept_connection = do
    w ← get
    when w.accepted
        (do answer ← call (λ n. p.wsa_accept n w.listening_socket); accept_answered answer)

  unfoldable pub establish : ℕ → B Bool
  unfolding mark_connected add_conn receive_or_close Wsa.del_event
  establish h = do
    w ← get
    unwatch (w.conn_at h).sock
    require p.set_event
    invoke p (w.conn_at h).cbs.connected (connected_cb h h)
    mark_connected h
    add_conn h
    receive_or_close h

  -- `connection_established(conn)`: `false` where it closed the connection.
  unfoldable pub connection_established : ℕ → B Bool
  unfolding establish
  connection_established h = do
    w ← get
    if (w.conn_at h).cbs.connected then establish h else pure true
