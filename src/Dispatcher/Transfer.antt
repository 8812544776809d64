-- ===== src/Dispatcher/Transfer.antt =====
-- do_recv, do_send and call_false_cb of tcp_dispatcher.cpp, and the loops of thread_proc over the
-- requests of one connection.
use tcp_fsm.Base.{
  ℕ, ◌+◌, ◌-◌, ◌^◌, List, [], ◌∷◌, Option, none, some, Bool, true, false, ◌==◌, ltb, not,
  if◌then◌else◌, add32, sub32, to_size_t, lt_int, length,
}
use tcp_fsm.Bandwidth
use tcp_fsm.Connection.{is_closed, SendReq}
use tcp_fsm.Platform.{
  Platform, RecvResult, received, recv_would_block, recv_failed, SendResult, sent, send_would_block,
  send_failed,
}
use tcp_fsm.World.{
  send_object, release, read_cb, sent_cb, transmitted, M, pure, ◌>>=◌, ◌>>◌, try_catch, crash, get,
  modify, emit, call, set_send, set_recv, update, invoke, when,
}
use tcp_fsm.Dispatcher.Close.{record_bandwidth}

-- The int -1.
abbrev pub minus_one : ℕ
minus_one = 2 ^ 32 - 1

-- The bytes to offer: the rest of the request, or the guess if that is less.
abbrev pub offered : SendReq → Option ℕ → ℕ
offered r none = sub32 r.total_bytes r.sent_bytes
offered r (some g) =
    if ltb g (sub32 r.total_bytes r.sent_bytes) then g else sub32 r.total_bytes r.sent_bytes

abbrev pub spend : ℕ → Option ℕ → Option ℕ
spend k none = none
spend k (some g) = some (sub32 g k)

module _ (p : Platform) where
  -- What follows a `recv` that returned a number that is not negative.
  unfoldable pub deliver : ℕ → List ℕ → M ℕ
  deliver h bytes =
      if length bytes == 0
      then pure 0
      else try_catch
          (do
            w ← get
            let r = (w.conns h).recv
            set_recv r (record (w.recvs r) { size = length bytes; filled = bytes })
            invoke p (w.conns h).cbs.read (read_cb h bytes)
            pure (length bytes))
          (pure 0)

  unfoldable pub receive : ℕ → RecvResult → M ℕ
  unfolding deliver
  receive h (received bytes) = deliver h bytes
  receive h recv_would_block = pure minus_one
  receive h recv_failed = pure 0

  -- The int that `do_recv` returns, as its bit pattern; `conn->recv` may be null.
  unfoldable pub do_recv : ℕ → M ℕ
  unfolding receive
  do_recv h = do
    w ← get
    if not (w.conns h).cbs.read
        then pure 0
        else if (w.conns h).recv == 0
        then crash
        else call (λ n. p.recv n (w.conns h).sock 65536) >>= receive h

  -- `if( sr->sent_cb ) { sr->sent_cb(value); sr->sent_cb = 0; }`
  unfoldable pub callback : ℕ → Bool → M (Unit {0})
  callback s value = do
    w ← get
    when (w.sends s).sent_cb (do
      invoke p (w.sends s).sent_cb (sent_cb s value)
      modify λ v. record v { sends = update v.sends s (record (v.sends s) { sent_cb = false }) })

  unfoldable pub call_false_cb : ℕ → M (Unit {0})
  unfolding callback
  call_false_cb s = do
    callback s false
    modify λ v. record v {
      sends = update v.sends s (record (v.sends s) { break_sem = (v.sends s).break_sem + 1 });
    }
    emit (release (send_object s))

  -- `bws->off(conn)`
  unfoldable pub pause : ℕ → M (Unit {0})
  pause h = modify λ w. record w { bws = Bandwidth.off h w.bws }

  -- The end of a request: its callback, and the dispatcher's reference.
  unfoldable pub finish_send : ℕ → Bool → M (Unit {0})
  unfolding callback
  finish_send s value = do callback s value; emit (release (send_object s))

  -- What follows a `send` that took `k` of the `sts` bytes.
  unfoldable pub account : ℕ → ℕ → ℕ → M Bool
  unfolding record_bandwidth pause finish_send
  account s sts k = do
    w ← get
    let h = (w.sends s).iov.conn
    let old = (w.sends s).sent_bytes
    let total = (w.sends s).total_bytes
    when (not (k == 0)) (do
      emit (transmitted s old k)
      set_send s (record (w.sends s) { sent_bytes = add32 old k })
      record_bandwidth p h k)
    let complete = (if k == 0 then old else add32 old k) == total
    when complete (finish_send s true)
    when (lt_int k sts) (pause h)
    pure complete

  unfoldable pub sent_or_not : ℕ → ℕ → Option ℕ → SendResult → M (Bool × Option ℕ)
  unfolding account pause finish_send
  sent_or_not s sts guess (sent k) = do done ← account s sts k; pure (done, spend k guess)
  sent_or_not s sts guess send_would_block = do
    w ← get
    pause (w.sends s).iov.conn
    pure (false, guess)
  sent_or_not s sts guess send_failed = do
    w ← get
    pause (w.sends s).iov.conn
    finish_send s false
    pure (true, guess)

  -- `do_send(sr, guess)`: what it returns, and what `*guess` holds then.
  unfoldable pub do_send : ℕ → Option ℕ → M (Bool × Option ℕ)
  unfolding sent_or_not
  do_send s guess = do
    w ← get
    let h = (w.sends s).iov.conn
    let sts = offered (w.sends s) guess
    if is_closed (w.conns h).state
        then pure (true, guess)
        else if sts == 0
        then pure (false, guess)
        else call (λ n. p.send n (w.conns h).sock (to_size_t sts)) >>= sent_or_not s sts guess

  -- The loop over the requests of one connection: the first that `do_send` is done with is taken
  -- out, and ends the loop.
  unfoldable pub send_each : List ℕ → Option ℕ → M (List ℕ)
  unfolding do_send
  send_each [] guess = pure []
  send_each (s ∷ ss) guess = do
    (done, guess') ← do_send s guess
    if done then pure ss else (do rest ← send_each ss guess'; pure (s ∷ rest))
