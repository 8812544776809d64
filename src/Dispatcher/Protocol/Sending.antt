-- ===== src/Dispatcher/Protocol/Sending.antt =====
-- Receiving and sending keep the order of callbacks.
use tcp_fsm.Base.{ℕ, ◌+◌, List, Option, Bool, to_size_t, arith}
use tcp_fsm.Platform.{
  Platform, RecvResult, received, recv_would_block, recv_failed, SendResult, sent, send_would_block,
  send_failed,
}
use tcp_fsm.World.{pure}
use tcp_fsm.Monad.Post.{Keeps, bind-Keeps}
use tcp_fsm.Dispatcher.Protocol.{life, LawfulFrom, Unbroken}
use tcp_fsm.Dispatcher.Transfer.{
  deliver, receive, do_recv, callback, call_false_cb, account, sent_or_not, do_send, spend, offered,
}

module _ (p : Platform) (b h : ℕ) where
  deliver-Lawful :
      (j : ℕ) (bytes : List ℕ) → Keeps (LawfulFrom b h) (Unbroken h) (deliver p j bytes)
  unfolding deliver life
  deliver-Lawful j bytes w l = ground arith

  callback-Lawful : (s : ℕ) (ok : Bool) → Keeps (LawfulFrom b h) (Unbroken h) (callback p s ok)
  unfolding callback life
  callback-Lawful s ok w l = ground arith

  pub call_false_cb-Lawful : (s : ℕ) → Keeps (LawfulFrom b h) (Unbroken h) (call_false_cb p s)
  unfolding call_false_cb life
  call_false_cb-Lawful s w l = ground arith

  account-Lawful : (s sts k : ℕ) → Keeps (LawfulFrom b h) (Unbroken h) (account p s sts k)
  unfolding account life
  account-Lawful s sts k w l = ground arith

  receive-Lawful : (j : ℕ) (r : RecvResult) → Keeps (LawfulFrom b h) (Unbroken h) (receive p j r)
  unfolding receive life
  receive-Lawful j (received bytes) w l = deliver-Lawful j bytes w l
  receive-Lawful j recv_would_block w l = l
  receive-Lawful j recv_failed w l = l

  pub do_recv-Lawful : (j : ℕ) → Keeps (LawfulFrom b h) (Unbroken h) (do_recv p j)
  unfolding do_recv life
  do_recv-Lawful j w l = ground (
    arith,
    receive-Lawful j (p.recv w.calls (w.conns j).sock 65536) (record w { calls = w.calls + 1 })
        (ground arith),
  )

  sent_or_not-Lawful :
      (s sts : ℕ) (guess : Option ℕ) (r : SendResult)
      → Keeps (LawfulFrom b h) (Unbroken h) (sent_or_not p s sts guess r)
  unfolding sent_or_not life
  sent_or_not-Lawful s sts guess (sent k) w l =
      bind-Keeps (LawfulFrom b h) (Unbroken h) (account p s sts k) (λ b. pure (b, spend k guess))
        (account-Lawful s sts k) (λ b v m. m) w l
  sent_or_not-Lawful s sts guess send_would_block w l = l
  sent_or_not-Lawful s sts guess send_failed w l = ground arith

  pub do_send-Lawful :
      (s : ℕ) (guess : Option ℕ) → Keeps (LawfulFrom b h) (Unbroken h) (do_send p s guess)
  unfolding do_send
  do_send-Lawful s guess w l =
      let conn = (w.sends s).iov.conn in
      let sts = offered (w.sends s) guess in
      ground (
        arith,
        sent_or_not-Lawful s sts guess (p.send w.calls (w.conns conn).sock (to_size_t sts))
            (record w { calls = w.calls + 1 }) (ground arith),
      )
