-- ===== src/Win/Accept.antt =====
-- Connecting and accepting of win_tcp_dispatcher.cpp: what is posted, and what is done when it
-- completes.
use tcp_fsm.Base.{ℕ, [], ◌∷◌, ◌++◌, none, some, true, false, not, if◌then◌else◌}
use tcp_fsm.Connection.{
  cs_connected, TcpConn, Callbacks, no_callbacks, tcp_conn_struct, fd_accept, fd_connect,
}
use tcp_fsm.Effects.{conn_object, overlap_object, accept_object, addref, connected_cb, accepted_cb}
use tcp_fsm.Monad.{pure, ◌>>=◌, ◌>>◌, throw, crash, get, modify, when, update}
use tcp_fsm.Win.State.{Windows, W, emit, call, set_conn, set_overlap, set_accept, invoke}
use tcp_fsm.Win.Close.{
  close_connection, free_completed_conn, free_completed_overlap, free_completed_accept,
}
use tcp_fsm.Win.Structures.{overlap_struct, accept_struct}
use tcp_fsm.Win.Transfer.{is_begun, record_bandwidth, activate_receiving}

module _ (p : Windows) where
  -- `cp_r->add_socket(sock)`
  unfoldable pub add_socket : ℕ → W (Unit {0})
  add_socket sock = do ok ← call (λ n. p.add_socket n sock); if ok then pure tt else throw

  -- `new tcp_conn_struct(sock, cbs)` and its two references.
  unfoldable pub new_conn : ℕ → Callbacks → W ℕ
  unfolding tcp_conn_struct
  new_conn sock cbs = do
    h ← call p.new_object
    set_conn h (tcp_conn_struct p.junk_addr sock cbs)
    emit (addref (conn_object h))
    emit (addref (conn_object h))
    pure h

  -- The call through lpfnConnectEx.
  unfoldable pub call_connect_ex : ℕ → TcpConn → W (Unit {0})
  call_connect_ex o c = do
    w ← get
    when (not w.connect_ex_loaded) crash
    answer ← call (λ n. p.connect_ex n c.sock c.addr)
    if is_begun answer then modify (λ v. record v { overlaps = v.overlaps ++ (o ∷ []) }) else throw

  -- `create(conn)`: the message _P_CREATE_CONNECTION.
  unfoldable pub create : ℕ → W (Unit {0})
  unfolding overlap_struct call_connect_ex
  create h = do
    modify λ w. record w { conns = w.conns ++ (h ∷ []) }
    emit (addref (conn_object h))
    o ← call p.new_object
    w ← get
    let c = w.conn_at h
    set_overlap o (record (overlap_struct p.junk c.sock fd_connect) { conn = h })
    emit (addref (overlap_object o))
    call_connect_ex o c

  unfoldable pub mark_connected : ℕ → W (Unit {0})
  mark_connected h = modify λ w. record w {
    conn_at = update w.conn_at h (record (w.conn_at h) {
      cbs = record (w.conn_at h).cbs { connected = false };
      state = cs_connected;
    });
  }

  -- `if( !activate_receiving(conn) ) close_connection(conn, true);`
  unfoldable pub receive_or_close : ℕ → W (Unit {0})
  unfolding activate_receiving close_connection
  receive_or_close h = do
    active ← activate_receiving p h
    when (not active) (close_connection p h true)

  unfoldable pub start_receiving : ℕ → W (Unit {0})
  unfolding mark_connected record_bandwidth receive_or_close
  start_receiving h = do mark_connected h; record_bandwidth p h 0; receive_or_close h

  unfoldable pub establish : ℕ → W (Unit {0})
  unfolding start_receiving
  establish h = do
    w ← get
    invoke p (w.conn_at h).cbs.connected (connected_cb h h)
    start_receiving h

  -- `complete(overlap_struct*)`
  unfoldable pub complete_connect : ℕ → W (Unit {0})
  unfolding establish free_completed_overlap free_completed_conn
  complete_connect o = do
    w ← get
    let h = (w.overlap_at o).conn
    when (w.conn_at h).cbs.connected (establish h)
    free_completed_overlap o
    free_completed_conn h

  -- A socket for the next connection. A failure of AcceptEx is only traced. The call goes through
  -- lpfnAcceptEx.
  unfoldable pub accept_request : W (Unit {0})
  unfolding add_socket accept_struct
  accept_request = do
    found ← call p.wsa_socket
    elim found [
      | none ↦ throw
      | some asocket ↦ do
        a ← call p.new_object
        set_accept a (accept_struct p.junk asocket fd_accept)
        emit (addref (accept_object a))
        w ← get
        when (not w.accept_ex_loaded) crash
        call (λ n. p.accept_ex n w.listening_socket asocket)
        modify λ v. record v { accepts = v.accepts ++ (a ∷ []) }
        add_socket asocket
    ]

  -- `accepted(conn, conn->cbs)`, which fills the callbacks.
  unfoldable pub ask_user : ℕ → W (Unit {0})
  ask_user h = do
    w ← get
    invoke p w.accepted (accepted_cb h)
    cbs ← call p.fill_callbacks
    modify λ v. record v { conn_at = update v.conn_at h (record (v.conn_at h) { cbs = cbs }) }

  unfoldable pub admit : ℕ → W (Unit {0})
  unfolding new_conn ask_user start_receiving
  admit sock = do
    h ← new_conn sock no_callbacks
    addr ← call p.peer
    modify λ v. record v { conn_at = update v.conn_at h (record (v.conn_at h) { addr = addr }) }
    ask_user h
    start_receiving h

  -- `complete(accept_struct*)`
  unfoldable pub complete_accept : ℕ → W (Unit {0})
  unfolding admit free_completed_accept accept_request
  complete_accept a = do
    w ← get
    when w.accepted (admit (w.accept_at a).sock)
    free_completed_accept a
    accept_request
