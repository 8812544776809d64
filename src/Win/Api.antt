-- ===== src/Win/Api.antt =====
-- The methods of win_tcp_dispatcher.cpp that other threads call, up to where they wait, with the
-- constructor and the destructor.
use tcp_fsm.Base.{
  ℕ, List, [], Option, none, some, Bool, true, false, ◌==◌, not, if◌then◌else◌, u32, length,
}
use tcp_fsm.Bandwidth
use tcp_fsm.Bandwidth.{make_bwstop}
use tcp_fsm.Completion
use tcp_fsm.Completion.{CompletionPort}
use tcp_fsm.Connection.{Callbacks, no_callbacks, SockAddr}
use tcp_fsm.Win.Structures.{send_req_struct}
use tcp_fsm.Effects.{conn_object, send_object, addref, release, socket_closed}
use tcp_fsm.Messages
use tcp_fsm.Messages.{
  close_connection_code, create_connection_code, close_connection_wait_code, stop_accepting_code,
  send_request_code, break_send_code, exit_code, empty_queue,
}
use tcp_fsm.Monad.{pure, ◌>>=◌, ◌>>◌, try_catch, throw, get, modify, update}
use tcp_fsm.Win.State.{Windows, WinWorld, W, emit, call, set_send}
use tcp_fsm.Win.Close.{socket_error}
use tcp_fsm.Win.Accept.{add_socket, new_conn, accept_request}

-- `i_messages->push(code, ptr); cp_r->stop();`
unfoldable pub post : ℕ → ℕ → W (Unit {0})
unfolding Messages.push_ptr Completion.stop
post code ptr = modify λ w. record w {
  i_messages = Messages.push_ptr code ptr w.i_messages;
  cp_r = Completion.stop w.cp_r;
}

-- `i_messages->push(code); cp_r->stop();`
unfoldable pub post_plain : ℕ → W (Unit {0})
unfolding Messages.push Completion.stop
post_plain code =
    modify
      λ w. record w { i_messages = Messages.push code w.i_messages; cp_r = Completion.stop w.cp_r }

module _ (p : Windows) where
  -- `if( !ok ) throw exception(…)`
  abbrev require : (ℕ → Bool) → W (Unit {0})
  require f = do ok ← call f; if ok then pure tt else throw

  -- The steps of make_conn and connect on a new socket, up to its place at the port.
  unfoldable pub prepare : ℕ → W (Unit {0})
  unfolding add_socket
  prepare sock = do
    require (λ n. p.bind n sock 0)
    require (λ n. p.set_nonblock n sock)
    add_socket p sock

  -- `none` after an exception; the socket is closed then.
  unfoldable pub open_socket : W (Option ℕ)
  unfolding prepare
  open_socket = do
    found ← call p.wsa_socket
    elim found [
      | none ↦ pure none
      | some sock ↦
          try_catch (do prepare sock; pure (some sock)) (do emit (socket_closed sock); pure none)
    ]

  -- The address of a new connection, or 0.
  unfoldable pub make_conn : W ℕ
  unfolding open_socket new_conn
  make_conn = do
    found ← open_socket
    elim found [ none ↦ pure 0 | some sock ↦ new_conn p sock no_callbacks ]

  unfoldable pub connect : ℕ → ℕ → ℕ → Callbacks → W (Unit {0})
  unfolding post
  connect h ip port cb = do
    let addr : SockAddr = record { ip = ip; port = p.htons port }
    modify λ w. record w {
      conn_at = update w.conn_at h (record (w.conn_at h) { addr = addr; cbs = cb });
    }
    post create_connection_code h

  unfoldable pub start_connection : ℕ → SockAddr → Callbacks → W ℕ
  unfolding new_conn post
  start_connection sock addr cb = do
    h ← new_conn p sock cb
    modify λ w. record w { conn_at = update w.conn_at h (record (w.conn_at h) { addr = addr }) }
    post create_connection_code h
    pure h

  unfoldable pub connect_new : ℕ → ℕ → Callbacks → W ℕ
  unfolding open_socket start_connection
  connect_new ip port cb = do
    found ← open_socket
    elim found [
      | none ↦ pure 0
      | some sock ↦ start_connection sock (record { ip = ip; port = p.htons port }) cb
    ]

  -- The address of the new request. `break_sem` is left unset.
  unfoldable pub send : ℕ → List ℕ → Bool → W ℕ
  unfolding send_req_struct post
  send h bytes cb = do
    s ← call p.new_object
    w ← get
    emit (addref (conn_object h))
    set_send s (record (send_req_struct p.junk h (w.conn_at h)) {
      total_bytes = u32 (length bytes);
      sent_bytes = 0;
      sent_cb = cb;
      bytes = bytes;
    })
    emit (addref (send_object s))
    emit (addref (send_object s))
    post send_request_code s
    pure s

  unfoldable pub send_plain : ℕ → List ℕ → W Bool
  unfolding send
  send_plain h bytes = do s ← send h bytes false; emit (release (send_object s)); pure true

  -- What the constructor does in its `try` for a port.
  unfoldable pub listen_on : ℕ → Bool → W (Unit {0})
  unfolding add_socket accept_request empty_queue Completion.add_thread
  listen_on port accepted = do
    modify λ w. record w { accepted = accepted; stop_accepting_sem = 0 }
    found ← call p.wsa_socket
    elim found [
      | none ↦ throw
      | some sock ↦ do
        modify λ w. record w { listening_socket = sock }
        require (λ n. p.bind n sock (p.htons port))
        require (λ n. p.listen n sock)
        accept_ex ← call p.load_accept_ex
        modify λ w. record w { accept_ex_loaded = accept_ex }
        connect_ex ← call p.load_connect_ex
        modify λ w. record w { connect_ex_loaded = connect_ex }
        modify λ w. record w { i_messages = empty_queue }
        require p.create_port
        modify λ w. record w { cp_r = record { threads = []; posted = [] } }
        require p.create_thread
        modify λ w. record w { running = true; cp_r = Completion.add_thread 1 w.cp_r }
        add_socket p sock
        accept_request p
    ]

  -- `if( -1!=listening_socket ) closesocket(listening_socket); throw;`
  unfoldable pub give_up : W (Unit {0})
  give_up = do
    w ← get
    if w.listening_socket == socket_error
        then throw
        else (do emit (socket_closed w.listening_socket); throw)

  -- `win_tcp_dispatcher(listen_port, accepted)`, given the memory as it is. Without a port `accepted`
  -- is copied from itself, unset.
  unfoldable pub construct : ℕ → Bool → W (Unit {0})
  unfolding make_bwstop listen_on give_up
  construct port accepted = do
    modify λ w. record w {
      bws = make_bwstop p.junk 0;
      accept_ex_loaded = false;
      connect_ex_loaded = false;
      listening_socket = socket_error;
      overlaps = [];
      accepts = [];
      conns = [];
      recvs = [];
      sends = [];
      running = false;
    }
    if port == 0 then pure tt else try_catch (listen_on port accepted) give_up

unfoldable pub close_conn : ℕ → W (Unit {0})
unfolding post
close_conn h = do emit (addref (conn_object h)); post close_connection_code h

unfoldable pub close_conn_wait : ℕ → W (Unit {0})
unfolding post
close_conn_wait h = do emit (addref (conn_object h)); post close_connection_wait_code h

unfoldable pub addref_conn : ℕ → W (Unit {0})
addref_conn h = emit (addref (conn_object h))

unfoldable pub release_conn : ℕ → W (Unit {0})
release_conn h = emit (release (conn_object h))

unfoldable pub release_send : ℕ → W (Unit {0})
release_send s = emit (release (send_object s))

-- Up to the wait for `stop_accepting_sem`.
unfoldable pub stop_accepting : W (Unit {0})
unfolding post_plain
stop_accepting = post_plain stop_accepting_code

-- A thread that waits for `stop_accepting_sem` may go on.
abbrev pub can_return_stop : WinWorld → Bool
can_return_stop w = not (w.stop_accepting_sem == 0)

unfoldable pub get_ip_port : ℕ → WinWorld → SockAddr
get_ip_port h w = (w.conn_at h).addr

unfoldable pub set_bandwidth : ℕ → W (Unit {0})
set_bandwidth n = modify λ w. record w { bws = Bandwidth.set_limit n w.bws }

-- `break_send` up to `cp_r->stop()`, and its `sem_init`.
unfoldable pub break_send_request : ℕ → W (Unit {0})
unfolding post
break_send_request s = do emit (addref (send_object s)); post break_send_code s

unfoldable pub break_send_init : ℕ → W (Unit {0})
break_send_init s =
    modify λ w. record w { send_at = update w.send_at s (record (w.send_at s) { break_sem = 0 }) }

-- The destructor, up to the wait for the thread.
unfoldable pub shut_down : W (Unit {0})
unfolding post_plain
shut_down = post_plain exit_code
