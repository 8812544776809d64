-- ===== src/Biocp/Transfer.antt =====
-- Receiving and sending of tcp_dispatcher_biocp.cpp: what is posted, and what is done when it
-- completes.
use tcp_fsm.Base.{
  ℕ, ◌+◌, [], ◌∷◌, ◌++◌, Bool, true, false, ◌==◌, ltb, not, ◌&&◌, if◌then◌else◌, sub32,
}
use tcp_fsm.Win.Structures.{recv_req_struct}
use tcp_fsm.Effects.{
  conn_object, recv_object, send_object, addref, release, read_cb, sent_cb, submitted, sent_so_far,
}
use tcp_fsm.Monad.{pure, ◌>>=◌, ◌>>◌, try_catch, throw, get, modify, when, update}
use tcp_fsm.Win.State.{Posted, at_once, io_pending, not_connected, post_failed}
use tcp_fsm.Win.Transfer.{is_begun}
use tcp_fsm.Biocp.State.{Calls, B, emit, call, set_conn, set_recv, invoke}
use tcp_fsm.Biocp.Close.{socket_error, free_completed_recv, free_completed_send, close_connection}

-- `sends.push_back( sr )`
unfoldable pub keep_send : ℕ → B (Unit {0})
keep_send s = modify λ w. record w { sends = w.sends ++ s ∷ [] }

module _ (p : Calls) where
  unfoldable pub callback : ℕ → Bool → B (Unit {0})
  callback s value = do
    w ← get
    when (w.send_at s).sent_cb (do
      invoke p (w.send_at s).sent_cb (sent_cb s value)
      modify
          λ v. record v { send_at = update v.send_at s (record (v.send_at s) { sent_cb = false }) })

  -- `conn->recv = new recv_req_struct(conn)` with the references that are taken.
  unfoldable pub new_recv : ℕ → B ℕ
  unfolding recv_req_struct
  new_recv h = do
    r ← call p.new_object
    w ← get
    set_recv r (recv_req_struct p.junk h (w.conn_at h))
    emit (addref (conn_object h))
    set_conn h (record (w.conn_at h) { recv = r })
    emit (addref (recv_object r))
    pure r

  unfoldable pub activate_receiving : ℕ → B Bool
  unfolding new_recv
  activate_receiving h = do
    r ← new_recv h
    w ← get
    answer ← call (λ n. p.wsa_recv n (w.conn_at h).sock)
    if is_begun answer
        then (do modify (λ v. record v { recvs = v.recvs ++ r ∷ [] }); pure true)
        else (do
          emit (release (recv_object r))
          modify
              (λ v. record v { conn_at = update v.conn_at h (record (v.conn_at h) { recv = 0 }) })
          pure false)

  -- `sr->callback(false); sr->release(…)`
  unfoldable pub refuse_send : ℕ → B (Unit {0})
  unfolding callback
  refuse_send s = do callback s false; emit (release (send_object s))

  -- What follows the first WSASend of a request. It is kept in `sends` also when it was released.
  unfoldable pub after_first : ℕ → Posted → B (Unit {0})
  unfolding refuse_send keep_send
  after_first s at_once = keep_send s
  after_first s io_pending = keep_send s
  after_first s not_connected = do refuse_send s; keep_send s
  after_first s post_failed = do refuse_send s; throw

  unfoldable pub send_request : ℕ → B (Unit {0})
  unfolding refuse_send after_first
  send_request s = do
    w ← get
    let r = w.send_at s
    if (w.conn_at r.iov.conn).sock == socket_error then refuse_send s else (do
      answer ← call (λ n. p.wsa_send n r.iov.sock r.total_bytes)
      when (is_begun answer) (emit (submitted s 0 r.total_bytes))
      after_first s answer)

  -- `sr->callback(…); free_completed_send(…)`
  unfoldable pub end_send : ℕ → Bool → B (Unit {0})
  unfolding callback free_completed_send
  end_send s value = do callback s value; free_completed_send s

  unfoldable pub after_next : ℕ → Posted → B (Unit {0})
  unfolding end_send
  after_next s at_once = pure tt
  after_next s io_pending = pure tt
  after_next s not_connected = end_send s false
  after_next s post_failed = do end_send s false; throw

  -- `send_complete(sr)`: the rest is posted, or the request is done.
  unfoldable pub send_complete : ℕ → B (Unit {0})
  unfolding after_next end_send
  send_complete s = do
    w ← get
    let r = w.send_at s
    let rest = sub32 r.total_bytes r.sent_bytes
    emit (sent_so_far s r.sent_bytes)
    if ltb r.sent_bytes r.total_bytes
        then (do
          answer ← call (λ n. p.wsa_send n r.iov.sock rest)
          when (is_begun answer) (emit (submitted s r.sent_bytes rest))
          after_next s answer)
        else end_send s true

  -- `if( rr->size && conn->cbs.read ) conn->cbs.read(…)`
  unfoldable pub deliver : ℕ → ℕ → B (Unit {0})
  deliver h size = do
    w ← get
    bytes ← call (λ n. p.filled n size)
    when (not (size == 0) && (w.conn_at h).cbs.read) (invoke p true (read_cb h bytes))

  -- `free_completed_recv(rr, …); close_connection(conn, …)`
  unfoldable pub end_receiving : ℕ → ℕ → Bool → B (Unit {0})
  unfolding free_completed_recv close_connection
  end_receiving r h iocp = do free_completed_recv r; close_connection p h iocp

  -- `false` where the callback threw: the connection is closed then.
  unfoldable pub deliver_or_close : ℕ → ℕ → ℕ → B Bool
  unfolding deliver end_receiving
  deliver_or_close r h size =
      try_catch (do deliver h size; pure true) (do end_receiving r h true; pure false)

  unfoldable pub receive_more : ℕ → ℕ → B (Unit {0})
  unfolding end_receiving
  receive_more r h = do
    w ← get
    answer ← call (λ n. p.wsa_recv n (w.recv_at r).iov.sock)
    if is_begun answer then pure tt else end_receiving r h false

  unfoldable pub recv_complete : ℕ → B (Unit {0})
  unfolding deliver_or_close receive_more end_receiving
  recv_complete r = do
    w ← get
    let h = (w.recv_at r).iov.conn
    let size = (w.recv_at r).size
    go_on ← deliver_or_close r h size
    if not go_on then pure tt else if size == 0 then end_receiving r h true else receive_more r h

  unfoldable pub call_false_cb : ℕ → B (Unit {0})
  unfolding callback
  call_false_cb s = do
    callback s false
    modify λ v. record v {
      send_at =
          update v.send_at s (record (v.send_at s) { break_sem = (v.send_at s).break_sem + 1 });
    }
    emit (release (send_object s))
