-- ===== src/Win/Transfer.antt =====
-- Receiving and sending of win_tcp_dispatcher.cpp: what is posted, and what is done when it completes.
use tcp_fsm.Base.{
  ◌+◌, ℕ, List, [], ◌∷◌, ◌++◌, Option, none, some, Bool, true, false, ◌==◌, ltb, not, ◌&&◌, ◌||◌,
  if◌then◌else◌, add32, sub32,
}
use tcp_fsm.Bandwidth
use tcp_fsm.Connection.{is_closed, SendReq}
use tcp_fsm.Win.Structures.{recv_req_struct}
use tcp_fsm.Effects.{
  conn_object, recv_object, send_object, addref, release, read_cb, sent_cb, transmitted, submitted,
}
use tcp_fsm.Monad.{pure, ◌>>=◌, ◌>>◌, try_catch, throw, get, modify, when, update}
use tcp_fsm.Win.State.{
  Posted, at_once, io_pending, not_connected, post_failed, Windows, W, emit, call, set_conn,
  set_recv, set_send, invoke,
}
use tcp_fsm.Win.Close.{socket_error, free_completed_send, close_connection}

-- The operation has completed or will.
abbrev pub is_begun : Posted → Bool
is_begun at_once = true
is_begun io_pending = true
is_begun not_connected = false
is_begun post_failed = false

-- The length that is posted: the rest of the request, or the guess if that is less.
abbrev pub posted_length : SendReq → Option ℕ → ℕ
posted_length r none = sub32 r.total_bytes r.sent_bytes
posted_length r (some g) =
    if ltb g (sub32 r.total_bytes r.sent_bytes) then g else sub32 r.total_bytes r.sent_bytes

abbrev pub take_off : ℕ → Option ℕ → Option ℕ
take_off k none = none
take_off k (some g) = some (sub32 g k)

-- `if( 0==*conn->guess ) *conn->guess = bws->guess(conn);`
unfoldable pub refresh_guess : ℕ → W (Unit {0})
refresh_guess h = modify λ w. record w {
  conn_at = update w.conn_at h (record (w.conn_at h) {
    guess = if (w.conn_at h).guess == 0 then Bandwidth.guess h w.bws else (w.conn_at h).guess;
  });
}

abbrev pub guess_or : ℕ → Option ℕ → ℕ
guess_or g none = g
guess_or g (some k) = k

unfoldable pub keep_send : ℕ → W (Unit {0})
keep_send s = modify λ w. record w { sends = w.sends ++ (s ∷ []) }

module _ (p : Windows) where
  -- `bws->insert(conn, size)`, which reads the clock.
  unfoldable pub record_bandwidth : ℕ → ℕ → W (Unit {0})
  record_bandwidth h size = do
    now ← call p.ftime
    modify λ w. record w { bws = Bandwidth.insert p.junk now h size w.bws }

  unfoldable pub callback : ℕ → Bool → W (Unit {0})
  callback s value = do
    w ← get
    when (w.send_at s).sent_cb (do
      invoke p (w.send_at s).sent_cb (sent_cb s value)
      modify
          λ v. record v { send_at = update v.send_at s (record (v.send_at s) { sent_cb = false }) })

  -- `conn->recv = new recv_req_struct(conn)` with the references that are taken.
  unfoldable pub new_recv : ℕ → W ℕ
  unfolding recv_req_struct
  new_recv h = do
    r ← call p.new_object
    w ← get
    set_recv r (recv_req_struct p.junk h (w.conn_at h))
    emit (addref (conn_object h))
    set_conn h (record (w.conn_at h) { recv = r })
    emit (addref (recv_object r))
    pure r

  unfoldable pub activate_receiving : ℕ → W Bool
  unfolding new_recv
  activate_receiving h = do
    r ← new_recv h
    w ← get
    answer ← call (λ n. p.wsa_recv n (w.conn_at h).sock)
    if is_begun answer
        then (do modify (λ v. record v { recvs = v.recvs ++ (r ∷ []) }); pure true)
        else (do
          emit (release (recv_object r))
          modify
              (λ v. record v { conn_at = update v.conn_at h (record (v.conn_at h) { recv = 0 }) })
          pure false)

  -- `callback(false); free_completed_send(…)`
  unfoldable pub give_up_send : ℕ → W (Unit {0})
  unfolding callback free_completed_send
  give_up_send s = do callback s false; free_completed_send s

  -- What follows WSASend of `k` bytes.
  unfoldable pub after_post : ℕ → ℕ → Option ℕ → Posted → W (Bool × Option ℕ)
  unfolding give_up_send
  after_post s k guess at_once = pure (false, take_off k guess)
  after_post s k guess io_pending = do
    modify λ w. record w { bws = Bandwidth.off (w.send_at s).iov.conn w.bws }
    pure (false, take_off k guess)
  after_post s k guess not_connected = do
    modify λ w. record w { bws = Bandwidth.off (w.send_at s).iov.conn w.bws }
    give_up_send s
    pure (true, guess)
  after_post s k guess post_failed = do
    modify λ w. record w { bws = Bandwidth.off (w.send_at s).iov.conn w.bws }
    give_up_send s
    throw

  -- `do_send(sr, guess)`: what it returns, and what `*guess` holds then.
  unfoldable pub do_send : ℕ → Option ℕ → W (Bool × Option ℕ)
  unfolding after_post give_up_send
  do_send s guess = do
    w ← get
    let conn = w.conn_at (w.send_at s).iov.conn
    let k = posted_length (w.send_at s) guess
    if conn.sock == socket_error || is_closed conn.state
        then (do give_up_send s; pure (true, guess))
        else (do
          answer ← call (λ n. p.wsa_send n (w.send_at s).iov.sock k)
          when (is_begun answer) (emit (submitted s (w.send_at s).sent_bytes k))
          after_post s k guess answer)

  unfoldable pub send_request : ℕ → W (Unit {0})
  unfolding do_send keep_send
  send_request s = do
    w ← get
    if Bandwidth.is_enable w.bws
        then keep_send s
        else (do (over, guess) ← do_send s none; when (not over) (keep_send s))

  -- `do_send(sr, conn->guess)`: `*guess` is the field of the connection.
  unfoldable pub send_up_to_guess : ℕ → ℕ → W Bool
  unfolding do_send
  send_up_to_guess s h = do
    v ← get
    (over, guess) ← do_send s (some (v.conn_at h).guess)
    modify λ u. record u {
      conn_at =
          update u.conn_at h (record (u.conn_at h) { guess = guess_or (u.conn_at h).guess guess });
    }
    pure over

  unfoldable pub send_guessed : ℕ → W Bool
  unfolding refresh_guess send_up_to_guess
  send_guessed s = do w ← get; let h = (w.send_at s).iov.conn; refresh_guess h; send_up_to_guess s h

  -- The loop of `sendbt` ends at the first request that `do_send` is done with.
  unfoldable pub send_all : List ℕ → W (Unit {0})
  unfolding send_guessed
  send_all [] = pure tt
  send_all (s ∷ ss) = do over ← send_guessed s; when (not over) (send_all ss)

  unfoldable pub sendbt : W (Unit {0})
  unfolding send_all
  sendbt = do w ← get; send_all w.sends

  -- `if( rr->size && conn->cbs.read ) conn->cbs.read(…)`
  unfoldable pub deliver : ℕ → ℕ → W (Unit {0})
  deliver h size = do
    w ← get
    bytes ← call (λ n. p.filled n size)
    when (not (size == 0) && (w.conn_at h).cbs.read) (invoke p true (read_cb h bytes))

  -- `false` where the callback threw: the connection is closed then.
  unfoldable pub deliver_or_close : ℕ → ℕ → W Bool
  unfolding deliver close_connection
  deliver_or_close h size =
      try_catch (do deliver h size; pure true) (do close_connection p h true; pure false)

  unfoldable pub receive_more : ℕ → ℕ → W (Unit {0})
  unfolding close_connection
  receive_more r h = do
    w ← get
    answer ← call (λ n. p.wsa_recv n (w.recv_at r).iov.sock)
    if is_begun answer then pure tt else close_connection p h false

  -- `complete(recv_req_struct*)`
  unfoldable pub complete_recv : ℕ → W (Unit {0})
  unfolding deliver_or_close receive_more close_connection
  complete_recv r = do
    w ← get
    let h = (w.recv_at r).iov.conn
    let size = w.transfered_bytes
    set_recv r (record (w.recv_at r) { size = size })
    go_on ← deliver_or_close h size
    if not go_on then pure tt else if size == 0 then close_connection p h true else receive_more r h

  -- `complete(send_req_struct*)`
  unfoldable pub complete_send : ℕ → W (Unit {0})
  unfolding record_bandwidth callback free_completed_send
  complete_send s = do
    w ← get
    let h = (w.send_at s).iov.conn
    let sent = add32 (w.send_at s).sent_bytes w.transfered_bytes
    modify λ v. record v { bws = Bandwidth.on h v.bws }
    record_bandwidth h w.transfered_bytes
    emit (transmitted s (w.send_at s).sent_bytes w.transfered_bytes)
    set_send s (record (w.send_at s) { sent_bytes = sent })
    when (sent == (w.send_at s).total_bytes) (do callback s true; free_completed_send s)

  unfoldable pub call_false_cb : ℕ → W (Unit {0})
  unfolding callback
  call_false_cb s = do
    callback s false
    modify λ v. record v {
      send_at =
          update v.send_at s (record (v.send_at s) { break_sem = (v.send_at s).break_sem + 1 });
    }
    emit (release (send_object s))
