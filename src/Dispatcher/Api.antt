-- ===== src/Dispatcher/Api.antt =====
-- The methods of tcp_dispatcher.cpp that other threads call. Each ends before it waits for a
-- semaphore; the waits are `can_return_…` below.
use tcp_fsm.Base.{ℕ, List, none, some, Bool, true, false, ◌==◌, not, if◌then◌else◌, u32, length}
use tcp_fsm.Bandwidth
use tcp_fsm.Connection.{Callbacks, no_callbacks, SockAddr, send_req_struct}
use tcp_fsm.Messages
use tcp_fsm.Messages.{
  close_connection_code, create_connection_code, close_connection_wait_code, stop_accepting_code,
  send_request_code, break_send_code, exit_code,
}
use tcp_fsm.Platform.{Platform, ConnectResult, connect_done, connect_in_progress, connect_failed}
use tcp_fsm.Reactor
use tcp_fsm.World.{
  conn_object, send_object, addref, release, socket_closed, World, M, pure, ◌>>=◌, ◌>>◌, get,
  modify, emit, call, set_send, update, when,
}
use tcp_fsm.Dispatcher.Accept.{new_conn, new_recv, set_addr, count_socket}

-- `i_messages->push(code, ptr); mr->stop();` on a thread that is not the dispatcher's.
unfoldable pub post : ℕ → ℕ → M (Unit {0})
unfolding Messages.push_ptr Reactor.stop
post code ptr = modify λ w. record w {
  i_messages = Messages.push_ptr code ptr w.i_messages;
  mr = Reactor.stop 0 0 w.mr;
}

-- `i_messages->push(code); mr->stop();`
unfoldable pub post_plain : ℕ → M (Unit {0})
unfolding Messages.push Reactor.stop
post_plain code =
    modify
      λ w. record w { i_messages = Messages.push code w.i_messages; mr = Reactor.stop 0 0 w.mr }

abbrev pub connects : ConnectResult → Bool
connects connect_done = true
connects connect_in_progress = true
connects connect_failed = false

module _ (p : Platform) where
  abbrev pub close_new : ℕ → M ℕ
  close_new sock = do emit (socket_closed sock); call (λ n. p.close n sock); pure 0

  -- The address of a new connection, or 0.
  unfoldable pub make_conn : M ℕ
  unfolding new_conn
  make_conn = do
    found ← call p.socket
    elim found [
      | none ↦ pure 0
      | some sock ↦ do
        ok ← call (λ n. p.set_nonblock n sock)
        if ok then new_conn p sock no_callbacks else close_new sock
    ]

  -- `connect(conn, ip, port, cb)`. An exception ends it without a word.
  unfoldable pub connect : ℕ → ℕ → ℕ → Callbacks → M (Unit {0})
  unfolding new_recv post
  connect h ip port cb = do
    let addr : SockAddr = record { ip = ip; port = p.htons port }
    modify λ w. record w { conns = update w.conns h (record (w.conns h) { addr = addr; cbs = cb }) }
    w ← get
    answer ← call (λ n. p.connect n (w.conns h).sock addr)
    when (connects answer) (do new_recv p h; post create_connection_code h)

  unfoldable pub start_connection : ℕ → SockAddr → Callbacks → M ℕ
  unfolding new_conn set_addr new_recv post
  start_connection sock addr cb = do
    h ← new_conn p sock cb
    set_addr p h addr
    new_recv p h
    post create_connection_code h
    count_socket
    pure h

  -- `connect(ip, port, cb)`: the address of a new connection, or 0.
  unfoldable pub connect_new : ℕ → ℕ → Callbacks → M ℕ
  unfolding start_connection
  connect_new ip port cb = do
    found ← call p.socket
    elim found [
      | none ↦ pure 0
      | some sock ↦ do
        let addr : SockAddr = record { ip = ip; port = p.htons port }
        ok ← call (λ n. p.set_nonblock n sock)
        if not ok then close_new sock else (do
          answer ← call (λ n. p.connect n sock addr)
          if connects answer then start_connection sock addr cb else close_new sock)
    ]

  -- `send(conn, buf, size, oob, cb)`: the address of the new request.
  unfoldable pub send : ℕ → List ℕ → Bool → M ℕ
  unfolding send_req_struct post
  send h bytes cb = do
    s ← call p.new_object
    w ← get
    emit (addref (conn_object h))
    set_send s (record (send_req_struct p.junk h (w.conns h)) {
      total_bytes = u32 (length bytes);
      sent_bytes = 0;
      sent_cb = cb;
      bytes = bytes;
    })
    emit (addref (send_object s))
    emit (addref (send_object s))
    post send_request_code s
    pure s

  -- `send(conn, buf, size, oob)`: true where there is no request.
  unfoldable pub send_plain : ℕ → List ℕ → M Bool
  unfolding send
  send_plain h bytes = do
    s ← send h bytes false
    if s == 0 then pure true else (do emit (release (send_object s)); pure false)

unfoldable pub close_conn : ℕ → M (Unit {0})
unfolding post
close_conn h = do emit (addref (conn_object h)); post close_connection_code h

-- Up to `sem_wait(&conn->close_sem)`.
unfoldable pub close_conn_wait : ℕ → M (Unit {0})
unfolding post
close_conn_wait h = do emit (addref (conn_object h)); post close_connection_wait_code h

-- A thread that waits for `close_sem` may go on.
abbrev pub can_return_close : ℕ → World → Bool
can_return_close h w = not ((w.conns h).close_sem == 0)

unfoldable pub addref_conn : ℕ → M (Unit {0})
addref_conn h = emit (addref (conn_object h))

unfoldable pub release_conn : ℕ → M (Unit {0})
release_conn h = emit (release (conn_object h))

unfoldable pub release_send : ℕ → M (Unit {0})
release_send s = emit (release (send_object s))

unfoldable pub stop_accepting : M (Unit {0})
unfolding post_plain
stop_accepting = post_plain stop_accepting_code

unfoldable pub get_ip_port : ℕ → World → SockAddr
get_ip_port h w = (w.conns h).addr

unfoldable pub set_bandwidth : ℕ → M (Unit {0})
set_bandwidth n = modify λ w. record w { bws = Bandwidth.set_limit n w.bws }

-- `break_send` up to `mr->stop()`.
unfoldable pub break_send_request : ℕ → M (Unit {0})
unfolding post
break_send_request s = do emit (addref (send_object s)); post break_send_code s

-- `sem_init(&send_req->break_sem, 0, 0)`, which `break_send` calls next.
unfoldable pub break_send_init : ℕ → M (Unit {0})
break_send_init s =
    modify λ w. record w { sends = update w.sends s (record (w.sends s) { break_sem = 0 }) }

-- A thread that waits for `break_sem` may go on.
abbrev pub can_return_break : ℕ → World → Bool
can_return_break s w = not ((w.sends s).break_sem == 0)

-- The destructor, up to the wait for the thread.
unfoldable pub shut_down : M (Unit {0})
unfolding post_plain
shut_down = post_plain exit_code
