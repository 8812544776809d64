-- ===== src/Biocp/Loop.antt =====
-- thread_proc of tcp_dispatcher_biocp.cpp.
use tcp_fsm.Base.{
  ℕ, ◌+◌, ◌++◌, List, [], ◌∷◌, Option, none, some, Bool, true, false, ◌==◌, not, if◌then◌else◌,
}
use tcp_fsm.Completion
use tcp_fsm.Completion.{Packet, Request, Transfer}
use tcp_fsm.Connection.{fd_read, fd_write, fd_accept, fd_connect, fd_close}
use tcp_fsm.Effects.{conn_object, addref, release}
use tcp_fsm.Messages
use tcp_fsm.Messages.{
  InternalMessage, InternalMessages, close_connection_code, create_connection_code,
  close_connection_wait_code, stop_accepting_code, send_request_code, break_send_code,
  do_nothing_code, exit_code, external_code,
}
use tcp_fsm.Monad.{pure, ◌>>=◌, ◌>>◌, try_catch, crash, get, modify, when, update}
use tcp_fsm.Biocp.State.{Calls, External, BiocpWorld, B, emit, require}
use tcp_fsm.Biocp.Close.{close_connection, erase_first, free_not_completed_objects}
use tcp_fsm.Biocp.Transfer.{recv_complete, send_complete, send_request, call_false_cb}
use tcp_fsm.Biocp.Accept.{create_connection, accept_connection, connection_established}

-- The request that an IOVERLAPPED stands in, by its address.
pub data Overlapped : Type 0 where
  of_recv of_send : ℕ → Overlapped

-- What `get_transfer` reads of the request.
abbrev pub as_request : Overlapped → BiocpWorld → Request
as_request (of_recv r) w = record {
  sock = (w.recv_at r).iov.sock;
  code = (w.recv_at r).iov.code;
  conn_sock = (w.conn_at (w.recv_at r).iov.conn).sock;
  transferred = (w.recv_at r).size;
}
as_request (of_send s) w = record {
  sock = (w.send_at s).iov.sock;
  code = (w.send_at s).iov.code;
  conn_sock = (w.conn_at (w.send_at s).iov.conn).sock;
  transferred = (w.send_at s).sent_bytes;
}

-- What `get_transfer` writes into the request.
unfoldable pub store : Overlapped → Request → B (Unit {0})
store (of_recv r) q = modify λ w. record w {
  recv_at = update w.recv_at r (record (w.recv_at r) {
    iov = record (w.recv_at r).iov { sock = q.sock };
    size = q.transferred;
  });
}
store (of_send s) q = modify λ w. record w {
  send_at = update w.send_at s (record (w.send_at s) { sent_bytes = q.transferred });
}

abbrev pub post_close : ℕ → B (Unit {0})
post_close h = modify λ w. record w {
  conn_at = update w.conn_at h (record (w.conn_at h) { close_sem = (w.conn_at h).close_sem + 1 });
}

-- The first connection of `conns` over the socket.
unfoldable pub find_conn : ℕ → List ℕ → BiocpWorld → Option ℕ
find_conn sock [] w = none
find_conn sock (h ∷ hs) w = if (w.conn_at h).sock == sock then some h else find_conn sock hs w

module _ (p : Calls) where
  -- `wsa_r->stop(-1)`, which sets two events.
  unfoldable pub stop_hearing : B (Unit {0})
  stop_hearing = do require p.set_event; require p.set_event

  -- FD_CONNECT, where a connection was found. After a close the iterator that is erased is no longer
  -- one of `conns`.
  unfoldable pub on_connect : Option ℕ → B (Unit {0})
  unfolding connection_established erase_first
  on_connect none = pure tt
  on_connect (some h) = do
    kept ← connection_established p h
    emit (release (conn_object h))
    if kept then modify (λ w. record w { conns = erase_first h w.conns }) else crash

  -- FD_CLOSE: close_connection has erased the connection, and with it the iterator.
  unfoldable pub on_lost : Option ℕ → B (Unit {0})
  unfolding close_connection
  on_lost none = pure tt
  on_lost (some h) = do close_connection p h true; emit (release (conn_object h)); crash

  -- The switch over `em->events`. FD_ACCEPT falls through to FD_CONNECT.
  unfoldable pub handle_external : External → B (Unit {0})
  unfolding accept_connection on_connect on_lost find_conn
  handle_external em = do
    when (em.events == fd_accept) (accept_connection p)
    w ← get
    if em.events == fd_accept
        then on_connect (find_conn em.sock w.conns w)
        else if em.events == fd_connect
        then on_connect (find_conn em.sock w.conns w)
        else if em.events == fd_close
        then on_lost (find_conn em.sock w.conns w)
        else pure tt

  unfoldable pub on_create : ℕ → B (Unit {0})
  unfolding create_connection
  on_create h = do
    modify λ w. record w { conns = w.conns ++ h ∷ [] }
    emit (addref (conn_object h))
    create_connection p h

  unfoldable pub on_close : ℕ → B (Unit {0})
  unfolding close_connection
  on_close h = do
    modify λ w. record w { conns = w.conns ++ h ∷ [] }
    close_connection p h false
    emit (release (conn_object h))

  unfoldable pub on_close_wait : ℕ → B (Unit {0})
  unfolding on_close
  on_close_wait h = do on_close h; post_close h

  -- `accepted = 0; sem_post(&stop_accepting_sem);`
  abbrev on_stop : B (Unit {0})
  on_stop = modify λ w. record w { accepted = false; stop_accepting_sem = w.stop_accepting_sem + 1 }

  -- A message of the code that carries the pointer.
  unfoldable pub handle_pointer : ℕ → ℕ → B (Unit {0})
  unfolding on_create on_close on_close_wait send_request call_false_cb handle_external
  handle_pointer code ptr =
      if code == create_connection_code
      then on_create ptr
      else if code == close_connection_code
      then on_close ptr
      else if code == close_connection_wait_code
      then on_close_wait ptr
      else if code == send_request_code
      then send_request p ptr
      else if code == break_send_code
      then call_false_cb p ptr
      else if code == external_code
      then (do w ← get; handle_external (w.external_at ptr))
      else pure tt

  -- The switch over `*im.code`: false for the return from thread_proc. A code that takes a pointer and
  -- came without one reads an unset pointer.
  unfoldable pub handle_message : InternalMessage → B Bool
  unfolding handle_pointer free_not_completed_objects stop_hearing
  handle_message m =
      if m.code == stop_accepting_code
      then (do on_stop; pure true)
      else if m.code == do_nothing_code
      then pure true
      else if m.code == exit_code
      then (do free_not_completed_objects; stop_hearing; pure false)
      else elim m.ptr [
        | none ↦
            if m.code == create_connection_code
            then crash
            else if m.code == close_connection_code
            then crash
            else if m.code == close_connection_wait_code
            then crash
            else if m.code == send_request_code
            then crash
            else if m.code == break_send_code
            then crash
            else if m.code == external_code
            then crash
            else pure true
        | some ptr ↦ do handle_pointer m.code ptr; pure true
      ]

  -- What is done with what `pop` gave. `pop` of an empty queue has no defined result.
  unfoldable pub handle_popped : Option (InternalMessage × InternalMessages) → B Bool
  unfolding handle_message
  handle_popped none = crash
  handle_popped (some (m, rest)) = do modify λ v. record v { i_messages = rest }; handle_message m

  -- An internal stop.
  unfoldable pub handle_internal : B Bool
  unfolding handle_popped Messages.pop
  handle_internal = do w ← get; handle_popped (Messages.pop w.i_messages)

  -- An external stop. FD_CLOSE closes `r_conn`; the other codes stand in the structure of their request.
  unfoldable pub complete : ℕ → ℕ → Overlapped → B (Unit {0})
  unfolding recv_complete send_complete close_connection
  complete r_conn code (of_recv r) =
      if code == fd_close
      then (if r_conn == 0 then crash else close_connection p r_conn true)
      else if code == fd_read
      then recv_complete p r
      else if code == fd_write
      then crash
      else pure tt
  complete r_conn code (of_send s) =
      if code == fd_close
      then (if r_conn == 0 then crash else close_connection p r_conn true)
      else if code == fd_read
      then crash
      else if code == fd_write
      then send_complete p s
      else pure tt

  -- What is done with what `get_transfer` found: `false` after _P_EXIT.
  unfoldable pub handle : ℕ → Overlapped → List (ℕ × ℕ) → B Bool
  unfolding handle_internal complete
  handle r_conn ov [] = crash
  handle r_conn ov ((sock, code) ∷ more) =
      if sock == 0 then handle_internal else (do complete r_conn code ov; pure true)

  -- `get_transfer` writes into the request that the packet points at.
  unfoldable pub transferred : Packet → Overlapped → Option Transfer → B Bool
  unfolding store handle
  transferred k ov none = crash
  transferred k ov (some t) = do
    when (not (k.overlap == 0)) (store ov (t.requests k.overlap))
    handle t.rconn ov t.result

  -- One round of thread_proc, for a packet whose `overlap` is the address of `ov`. `r_conn` is 0 before the
  -- loop, and only get_transfer is given it to write.
  unfoldable pub round : Packet → Overlapped → B Bool
  unfolding transferred Completion.get_transfer
  round k ov = do w ← get; transferred k ov (Completion.get_transfer 0 k (λ a. as_request ov w) [])

  -- The handler of the exceptions of thread_proc. An exception of its own leaves the thread, which
  -- ends the program.
  unfoldable pub on_exception : B Bool
  unfolding stop_hearing
  on_exception = try_catch (do stop_hearing; pure false) crash

  -- The thread ends after _P_EXIT, and after an exception.
  unfoldable pub serve : Packet → Overlapped → B (Unit {0})
  unfolding round on_exception
  serve k ov = do
    w ← get
    when w.running
        (do go_on ← try_catch (round k ov) on_exception; modify λ v. record v { running = go_on })
