-- ===== src/Biocp/Api.antt =====
-- The methods of tcp_dispatcher_biocp.cpp that other threads call, up to where they wait, with the
-- constructor and the destructor.
use tcp_fsm.Base.{
  ℕ, ◌+◌, List, [], Option, none, some, Bool, true, false, ◌==◌, if◌then◌else◌, u32, length,
}
use tcp_fsm.Completion
use tcp_fsm.Connection.{Callbacks, no_callbacks, SockAddr, fd_accept, fd_close}
use tcp_fsm.Win.Structures.{send_req_struct}
use tcp_fsm.Effects.{conn_object, send_object, addref, release, socket_closed}
use tcp_fsm.Messages
use tcp_fsm.Messages.{
  close_connection_code, create_connection_code, close_connection_wait_code, stop_accepting_code,
  send_request_code, break_send_code, exit_code, empty_queue,
}
use tcp_fsm.Monad.{pure, ◌>>=◌, ◌>>◌, try_catch, throw, get, modify, update}
use tcp_fsm.Wsa
use tcp_fsm.Biocp.State.{
  ConnectAnswer, connect_at_once, connect_going_on, connect_timed_out, connect_refused, Calls,
  BiocpWorld, B, emit, call, require, set_send, watch,
}
use tcp_fsm.Biocp.Close.{socket_error}
use tcp_fsm.Biocp.Accept.{new_conn, set_addr}

-- `i_messages->push(code, ptr); iocp_r->stop();`
unfoldable pub post : ℕ → ℕ → B (Unit {0})
unfolding Messages.push_ptr Completion.stop
post code ptr = modify λ w. record w {
  i_messages = Messages.push_ptr code ptr w.i_messages;
  iocp_r = Completion.stop w.iocp_r;
}

-- `i_messages->push(code); iocp_r->stop();`
unfoldable pub post_plain : ℕ → B (Unit {0})
unfolding Messages.push Completion.stop
post_plain code = modify λ w. record w {
  i_messages = Messages.push code w.i_messages;
  iocp_r = Completion.stop w.iocp_r;
}

module _ (p : Calls) where
  -- `none` after an exception; the socket is closed then.
  unfoldable pub open_socket : B (Option ℕ)
  open_socket = do
    found ← call p.wsa_socket
    elim found [
      | none ↦ pure none
      | some sock ↦
          try_catch (do require (λ n. p.set_nonblock n sock); pure (some sock))
            (do emit (socket_closed sock); pure none)
    ]

  -- The address of a new connection, or 0.
  unfoldable pub make_conn : B ℕ
  unfolding open_socket new_conn
  make_conn = do
    found ← open_socket
    elim found [ none ↦ pure 0 | some sock ↦ new_conn p sock no_callbacks ]

  -- What `connect(conn, …)` does after WSAConnect.
  unfoldable pub after_connect : ℕ → ConnectAnswer → B (Unit {0})
  unfolding post
  after_connect h connect_at_once = post create_connection_code h
  after_connect h connect_going_on = post create_connection_code h
  after_connect h connect_timed_out = pure tt
  after_connect h connect_refused = pure tt

  unfoldable pub connect : ℕ → ℕ → ℕ → Callbacks → B (Unit {0})
  unfolding after_connect
  connect h ip port cb = do
    let addr : SockAddr = record { ip = ip; port = p.htons port }
    modify λ w. record w {
      conn_at = update w.conn_at h (record (w.conn_at h) { addr = addr; cbs = cb });
    }
    w ← get
    answer ← call (λ n. p.wsa_connect n (w.conn_at h).sock addr)
    after_connect h answer

  unfoldable pub start_connection : ℕ → SockAddr → Callbacks → B ℕ
  unfolding new_conn set_addr post
  start_connection sock addr cb = do
    h ← new_conn p sock cb
    set_addr p h addr
    post create_connection_code h
    pure h

  -- What `connect(ip, …)` does after WSAConnect. After a timeout the socket stays open.
  unfoldable pub after_new_connect : ℕ → SockAddr → Callbacks → ConnectAnswer → B ℕ
  unfolding start_connection
  after_new_connect sock addr cb connect_at_once = start_connection sock addr cb
  after_new_connect sock addr cb connect_going_on = start_connection sock addr cb
  after_new_connect sock addr cb connect_timed_out = pure 0
  after_new_connect sock addr cb connect_refused = do emit (socket_closed sock); pure 0

  unfoldable pub connect_to : ℕ → SockAddr → Callbacks → B ℕ
  unfolding after_new_connect
  connect_to sock addr cb = do
    answer ← call (λ n. p.wsa_connect n sock addr)
    after_new_connect sock addr cb answer

  unfoldable pub connect_new : ℕ → ℕ → Callbacks → B ℕ
  unfolding open_socket connect_to
  connect_new ip port cb = do
    found ← open_socket
    elim found [
      | none ↦ pure 0
      | some sock ↦ connect_to sock (record { ip = ip; port = p.htons port }) cb
    ]

  -- The address of the new request. `break_sem` is left unset.
  unfoldable pub send : ℕ → List ℕ → Bool → B ℕ
  unfolding send_req_struct post
  send h bytes cb = do
    s ← call p.new_object
    w ← get
    emit (addref (conn_object h))
    set_send s (record (send_req_struct p.junk h (w.conn_at h)) {
      total_bytes = u32 (length bytes);
      sent_bytes = 0;
      sent_cb = cb;
      bytes = bytes;
    })
    emit (addref (send_object s))
    emit (addref (send_object s))
    post send_request_code s
    pure s

  unfoldable pub send_plain : ℕ → List ℕ → B Bool
  unfolding send
  send_plain h bytes = do s ← send h bytes false; emit (release (send_object s)); pure true

  -- What the constructor does in its `try` for a port. The queue is made last.
  unfoldable pub listen_on : ℕ → Bool → B (Unit {0})
  unfolding Wsa.add_event empty_queue Completion.add_thread
  listen_on port accepted = do
    modify λ w. record w { accepted = accepted; stop_accepting_sem = 0 }
    found ← call p.wsa_socket
    elim found [
      | none ↦ throw
      | some sock ↦ do
        modify λ w. record w { listening_socket = sock }
        require (λ n. p.bind n sock (p.htons port))
        require (λ n. p.listen n sock)
        require p.make_events
        modify λ w. record w { wsa_r = record w.wsa_r { wait_events = [] } }
        require p.create_thread
        modify λ w. record w { hearing = true }
        watch p sock (fd_accept + fd_close)
        require p.create_port
        modify λ w. record w { iocp_r = record { threads = []; posted = [] } }
        require p.create_thread
        modify λ w. record w { running = true; iocp_r = Completion.add_thread 1 w.iocp_r }
        modify λ w. record w { i_messages = empty_queue }
    ]

  -- `if( -1!=listening_socket ) closesocket(listening_socket); throw;`
  unfoldable pub give_up : B (Unit {0})
  give_up = do
    w ← get
    if w.listening_socket == socket_error
        then throw
        else (do emit (socket_closed w.listening_socket); throw)

  -- `tcp_dispatcher_biocp(listen_port, accepted)`, given the memory as it is. Without a port
  -- `accepted` is copied from itself, unset.
  unfoldable pub construct : ℕ → Bool → B (Unit {0})
  unfolding listen_on give_up
  construct port accepted = do
    modify λ w. record w {
      listening_socket = socket_error;
      conns = [];
      recvs = [];
      sends = [];
      running = false;
      hearing = false;
    }
    if port == 0 then pure tt else try_catch (listen_on port accepted) give_up

unfoldable pub close_conn : ℕ → B (Unit {0})
unfolding post
close_conn h = do emit (addref (conn_object h)); post close_connection_code h

unfoldable pub close_conn_wait : ℕ → B (Unit {0})
unfolding post
close_conn_wait h = do emit (addref (conn_object h)); post close_connection_wait_code h

unfoldable pub addref_conn : ℕ → B (Unit {0})
addref_conn h = emit (addref (conn_object h))

unfoldable pub release_conn : ℕ → B (Unit {0})
release_conn h = emit (release (conn_object h))

unfoldable pub release_send : ℕ → B (Unit {0})
release_send s = emit (release (send_object s))

-- Up to the wait for `stop_accepting_sem`.
unfoldable pub stop_accepting : B (Unit {0})
unfolding post_plain
stop_accepting = post_plain stop_accepting_code

unfoldable pub get_ip_port : ℕ → BiocpWorld → SockAddr
get_ip_port h w = (w.conn_at h).addr

-- `break_send` up to the wait for `break_sem`, which it does not initialise.
unfoldable pub break_send : ℕ → B (Unit {0})
unfolding post
break_send s = do emit (addref (send_object s)); post break_send_code s

-- The destructor, up to the wait for the thread.
unfoldable pub shut_down : B (Unit {0})
unfolding post_plain
shut_down = post_plain exit_code
