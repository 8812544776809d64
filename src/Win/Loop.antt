-- ===== src/Win/Loop.antt =====
-- thread_proc of win_tcp_dispatcher.cpp: what is done with each packet of the completion port.
use tcp_fsm.Base.{
  ℕ, ◌+◌, ◌++◌, List, [], ◌∷◌, Option, none, some, Bool, true, false, ◌==◌, not, if◌then◌else◌,
}
use tcp_fsm.Bandwidth
use tcp_fsm.Completion
use tcp_fsm.Completion.{Packet, Request}
use tcp_fsm.Connection.{IOverlapped, fd_read, fd_write, fd_accept, fd_connect, fd_close}
use tcp_fsm.Effects.{conn_object, release}
use tcp_fsm.Messages
use tcp_fsm.Messages.{
  InternalMessage, InternalMessages, close_connection_code, create_connection_code,
  close_connection_wait_code, stop_accepting_code, send_request_code, break_send_code,
  do_nothing_code, exit_code,
}
use tcp_fsm.Monad.{pure, ◌>>=◌, ◌>>◌, try_catch, crash, get, modify, when, update}
use tcp_fsm.Win.State.{Windows, WinWorld, W, emit, call}
use tcp_fsm.Win.Close.{close_connection, free_not_completed_objects}
use tcp_fsm.Win.Transfer.{complete_recv, complete_send, send_request, sendbt, call_false_cb}
use tcp_fsm.Win.Accept.{create, complete_connect, complete_accept}

-- The structure that an IOVERLAPPED stands in, by its address.
pub data Overlap : Type 0 where
  of_accept of_connect of_recv of_send : ℕ → Overlap

abbrev pub iov_of : Overlap → WinWorld → IOverlapped
iov_of (of_accept a) w = w.accept_at a
iov_of (of_connect o) w = w.overlap_at o
iov_of (of_recv r) w = (w.recv_at r).iov
iov_of (of_send s) w = (w.send_at s).iov

-- What `get_transfer` reads of the structure.
abbrev pub as_request : IOverlapped → Request
as_request iov = record { sock = iov.sock; code = iov.code; conn_sock = iov.sock; transferred = 0 }

abbrev pub post_close : ℕ → W (Unit {0})
post_close h = modify λ w. record w {
  conn_at = update w.conn_at h (record (w.conn_at h) { close_sem = (w.conn_at h).close_sem + 1 });
}

-- `close` and `close_wait`.
module _ (p : Windows) where
  unfoldable pub close : ℕ → W (Unit {0})
  unfolding close_connection
  close h = do
    modify λ w. record w { conns = w.conns ++ (h ∷ []) }
    close_connection p h false
    emit (release (conn_object h))

  unfoldable pub close_wait : ℕ → W (Unit {0})
  unfolding close_connection
  close_wait h = do
    modify λ w. record w { conns = w.conns ++ (h ∷ []) }
    close_connection p h false
    post_close h
    emit (release (conn_object h))

  -- `accepted = 0; sem_post(&stop_accepting_sem);`
  abbrev on_stop : W (Unit {0})
  on_stop = modify λ w. record w { accepted = false; stop_accepting_sem = w.stop_accepting_sem + 1 }

  -- A message of the code that carries the pointer.
  unfoldable pub handle_pointer : ℕ → ℕ → W (Unit {0})
  unfolding create close close_wait send_request call_false_cb
  handle_pointer code ptr =
      if code == create_connection_code
      then create p ptr
      else if code == close_connection_code
      then close ptr
      else if code == close_connection_wait_code
      then close_wait ptr
      else if code == send_request_code
      then send_request p ptr
      else if code == break_send_code
      then call_false_cb p ptr
      else pure tt

  -- The switch over `*im.code`: false for the return from thread_proc. A code that takes a pointer and
  -- came without one reads an unset pointer.
  unfoldable pub handle_message : InternalMessage → W Bool
  unfolding handle_pointer free_not_completed_objects
  handle_message m =
      if m.code == stop_accepting_code
      then (do on_stop; pure true)
      else if m.code == do_nothing_code
      then pure true
      else if m.code == exit_code
      then (do free_not_completed_objects; pure false)
      else elim m.ptr [
        | none ↦
            if m.code == create_connection_code
            then crash
            else if m.code == close_connection_code
            then crash
            else if m.code == close_connection_wait_code
            then crash
            else if m.code == send_request_code
            then crash
            else if m.code == break_send_code
            then crash
            else pure true
        | some ptr ↦ do handle_pointer m.code ptr; pure true
      ]

  -- What is done with what `pop` gave. `pop` of an empty queue has no defined result.
  unfoldable pub handle_popped : Option (InternalMessage × InternalMessages) → W Bool
  unfolding handle_message
  handle_popped none = crash
  handle_popped (some (m, rest)) = do modify λ v. record v { i_messages = rest }; handle_message m

  -- An internal stop.
  unfoldable pub handle_internal : W Bool
  unfolding handle_popped Messages.pop
  handle_internal = do w ← get; handle_popped (Messages.pop w.i_messages)

  -- `complete(CONTAINING_RECORD(overlap, …))`. FD_CLOSE reads the connection, which an accept_struct
  -- leaves unset; the other codes stand in the structure of their operation.
  unfoldable pub complete : ℕ → Overlap → W (Unit {0})
  unfolding complete_accept complete_connect complete_recv complete_send close_connection
  complete code (of_accept a) =
      if code == fd_close then crash else if code == fd_accept then complete_accept p a else pure tt
  complete code (of_connect o) =
      if code == fd_close
      then (do w ← get; close_connection p (w.overlap_at o).conn true)
      else if code == fd_connect
      then complete_connect p o
      else pure tt
  complete code (of_recv r) =
      if code == fd_close
      then (do w ← get; close_connection p (w.recv_at r).iov.conn true)
      else if code == fd_read
      then complete_recv p r
      else pure tt
  complete code (of_send s) =
      if code == fd_close
      then (do w ← get; close_connection p (w.send_at s).iov.conn true)
      else if code == fd_write
      then complete_send p s
      else pure tt

  -- `bws->recalc()`
  unfoldable pub recalc : W Bool
  recalc = do
    now ← call p.ftime
    w ← get
    elim (Bandwidth.recalc p.double now w.bws) [
      | none ↦ crash
      | some (b, over) ↦ do modify (λ v. record v { bws = b }); pure over
    ]

  -- `if( bws->is_enable() && !bws->recalc() ) sendbt();`
  unfoldable pub idle : W (Unit {0})
  unfolding recalc sendbt
  idle = do w ← get; when (Bandwidth.is_enable w.bws) (do over ← recalc; when (not over) (sendbt p))

  -- What is done with what `get_transfer` found: `false` after _P_EXIT.
  unfoldable pub handle : Overlap → Option (ℕ × List (ℕ × ℕ)) → W Bool
  unfolding idle handle_internal complete
  handle ov none = crash
  handle ov (some (size, [])) = do modify λ w. record w { transfered_bytes = size }; idle; pure true
  handle ov (some (size, (sock, code) ∷ more)) = do
    modify λ w. record w { transfered_bytes = size }
    if sock == 0 then handle_internal else (do complete code ov; pure true)

  -- One round of the loop, for a packet whose `overlap` is the address of `ov`.
  unfoldable pub round : Packet → Overlap → W Bool
  unfolding Completion.get_plain_transfer handle
  round k ov = do
    w ← get
    handle ov (Completion.get_plain_transfer k (λ a. as_request (iov_of ov w)) [])

  -- The thread ends after _P_EXIT, and after an exception, which it only traces.
  unfoldable pub serve : Packet → Overlap → W (Unit {0})
  unfolding round
  serve k ov = do
    w ← get
    when w.running
        (do go_on ← try_catch (round k ov) (pure false); modify λ v. record v { running = go_on })
