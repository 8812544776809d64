-- ===== src/Dispatcher/Accept.antt =====
-- accept_connection of tcp_dispatcher.cpp, and the loop that calls it.
pub mod Draining
use tcp_fsm.Base.{
  ℕ, zero, suc, Option, none, some, Bool, true, false, ◌==◌, not, if◌then◌else◌, add32,
}
use tcp_fsm.Connection.{Callbacks, no_callbacks, SockAddr, tcp_conn_struct, recv_req_struct}
use tcp_fsm.Platform.{Platform, AcceptResult, accept_done, accept_again, accept_failed}
use tcp_fsm.World.{
  conn_object, recv_object, addref, accepted_cb, socket_closed, M, pure, ◌>>=◌, ◌>>◌, throw, get,
  modify, emit, call, set_conn, set_recv, update, invoke,
}
use tcp_fsm.Dispatcher.Close.{add_conn, record_bandwidth, mark_connected}

-- `atomic_inc(&sockets_counter)`
abbrev pub count_socket : M (Unit {0})
count_socket = modify λ w. record w { sockets_counter = add32 w.sockets_counter 1 }

module _ (p : Platform) where
  -- `new tcp_conn_struct(sock, cbs)` and its two references.
  unfoldable pub new_conn : ℕ → Callbacks → M ℕ
  unfolding tcp_conn_struct
  new_conn sock cbs = do
    h ← call p.new_object
    set_conn h (tcp_conn_struct p.junk_addr sock cbs)
    emit (addref (conn_object h))
    emit (addref (conn_object h))
    pure h

  -- `conn->addr = addr; conn->recv = new recv_req_struct(conn); conn->recv->addref(…)`. The
  -- constructor of the request takes a reference to the connection.
  unfoldable pub new_recv : ℕ → M (Unit {0})
  unfolding recv_req_struct
  new_recv h = do
    r ← call p.new_object
    w ← get
    set_recv r (recv_req_struct p.junk h (w.conns h))
    emit (addref (conn_object h))
    set_conn h (record (w.conns h) { recv = r })
    emit (addref (recv_object r))

  unfoldable pub set_addr : ℕ → SockAddr → M (Unit {0})
  set_addr h addr =
      modify λ w. record w { conns = update w.conns h (record (w.conns h) { addr = addr }) }

  -- `accepted(conn, conn->cbs)`, which fills the callbacks.
  unfoldable pub ask_user : ℕ → M (Unit {0})
  ask_user h = do
    w ← get
    invoke p w.accepted (accepted_cb h)
    cbs ← call p.fill_callbacks
    modify λ v. record v { conns = update v.conns h (record (v.conns h) { cbs = cbs }) }

  -- A connection over the new socket; the address of the object is returned.
  unfoldable pub admit : ℕ → SockAddr → M ℕ
  unfolding new_conn new_recv set_addr ask_user add_conn mark_connected record_bandwidth
  admit sock addr = do
    h ← new_conn sock no_callbacks
    set_addr h addr
    new_recv h
    ask_user h
    add_conn p h
    mark_connected p h
    record_bandwidth p h 0
    count_socket
    pure h

  -- `if( -1==fcntl(…) ) { close(new_socket); throw …; }` before the rest.
  unfoldable pub admit_nonblocking : ℕ → SockAddr → M ℕ
  admit_nonblocking sock addr = do
    ok ← call (λ n. p.set_nonblock n sock)
    if ok
        then admit sock addr
        else (do emit (socket_closed sock); call (λ n. p.close n sock); throw)

  unfoldable pub accept_result : AcceptResult → M ℕ
  accept_result (accept_done sock addr) = admit_nonblocking sock addr
  accept_result accept_again = pure 0
  accept_result accept_failed = throw

  -- The listening socket is -1 only before the constructor has made one.
  unfoldable pub accept_on : Option ℕ → M ℕ
  accept_on none = throw
  accept_on (some sock) = call (λ n. p.accept n sock) >>= accept_result

  -- The address of the new connection, or 0.
  unfoldable pub accept_connection : M ℕ
  accept_connection = do w ← get; if not w.accepted then pure 0 else accept_on w.listening_socket

  -- `while( 0!=accept_connection() );` with fuel: `false` where the fuel ran out.
  unfoldable pub accept_all : ℕ → M Bool
  accept_all zero = pure false
  accept_all (suc fuel) = do h ← accept_connection; if h == 0 then pure true else accept_all fuel
