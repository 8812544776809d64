-- ===== src/Dispatcher/Close.antt =====
-- create_connection, close_connection and connection_established of tcp_dispatcher.cpp.
use tcp_fsm.Base.{ℕ, false, ◌==◌, if◌then◌else◌, sub32}
use tcp_fsm.Bandwidth
use tcp_fsm.Connection.{ConnState, cs_wait4connect, cs_connected, cs_closed, no_callbacks}
use tcp_fsm.Platform.{Platform}
use tcp_fsm.World.{
  conn_object, recv_object, release, connected_cb, closed_cb, socket_closed, watched, M, pure,
  ◌>>=◌, ◌>>◌, throw, crash, get, modify, emit, call, update, invoke, when,
}

module _ (p : Platform) where
  -- `mr->add_conn(conn)`
  unfoldable pub add_conn : ℕ → M (Unit {0})
  add_conn h = do
    w ← get
    ok ← call (λ n. p.epoll_add n (w.conns h).sock)
    if ok then emit (watched h) else throw

  unfoldable pub create_connection : ℕ → M (Unit {0})
  unfolding add_conn
  create_connection h = add_conn h

  -- The callbacks are taken away and the connection is closed.
  unfoldable pub forget : ℕ → M (Unit {0})
  forget h = modify λ w. record w {
    conns = update w.conns h (record (w.conns h) { cbs = no_callbacks; state = cs_closed });
  }

  -- `if( close( conn->sock ) ) throw …`
  unfoldable pub close_socket : ℕ → M (Unit {0})
  close_socket h = do
    w ← get
    emit (socket_closed (w.conns h).sock)
    ok ← call (λ n. p.close n (w.conns h).sock)
    if ok then pure tt else throw

  -- What follows the switch. `recv` may be null.
  unfoldable pub finish_close : ℕ → M (Unit {0})
  finish_close h = do
    modify λ w. record w { bws = Bandwidth.erase h w.bws }
    w ← get
    if (w.conns h).recv == 0 then crash else emit (release (recv_object (w.conns h).recv))
    emit (release (conn_object h))
    modify λ w'. record w' { sockets_counter = sub32 w'.sockets_counter 1 }

  unfoldable pub close_in_state : ConnState → ℕ → M (Unit {0})
  unfolding forget close_socket finish_close
  close_in_state cs_wait4connect h = do
    w ← get
    invoke p (w.conns h).cbs.connected (connected_cb h 0)
    forget h
    emit (release (conn_object h))
    close_socket h
    finish_close h
  close_in_state cs_connected h = do
    w ← get
    invoke p (w.conns h).cbs.closed (closed_cb h)
    forget h
    close_socket h
    finish_close h
  close_in_state cs_closed h = pure tt

  unfoldable pub close_connection : ℕ → M (Unit {0})
  unfolding close_in_state
  close_connection h = do w ← get; close_in_state (w.conns h).state h

  -- `bws->insert(conn, size)`, which reads the clock.
  unfoldable pub record_bandwidth : ℕ → ℕ → M (Unit {0})
  record_bandwidth h size = do
    now ← call p.ftime
    modify λ w. record w { bws = Bandwidth.insert p.junk now h size w.bws }

  unfoldable pub mark_connected : ℕ → M (Unit {0})
  mark_connected h = modify λ w. record w {
    conns = update w.conns h (record (w.conns h) {
      cbs = record (w.conns h).cbs { connected = false };
      state = cs_connected;
    });
  }

  unfoldable pub establish : ℕ → M (Unit {0})
  unfolding mark_connected record_bandwidth
  establish h = do
    w ← get
    invoke p (w.conns h).cbs.connected (connected_cb h h)
    mark_connected h
    record_bandwidth h 0

  unfoldable pub connection_established : ℕ → M (Unit {0})
  unfolding establish
  connection_established h = do w ← get; when (w.conns h).cbs.connected (establish h)
