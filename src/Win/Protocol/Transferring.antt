-- ===== src/Win/Protocol/Transferring.antt =====
-- Sending and receiving keep the order of callbacks.
use tcp_fsm.Base.{ℕ, ◌+◌, Option, Bool, true, false, arith}
use tcp_fsm.Monad.{pure, ◌>>◌, update}
use tcp_fsm.Monad.Post.{Keeps, catch-Keeps, and_then-Post, bind-Keeps}
use tcp_fsm.Win.State.{Posted, at_once, io_pending, not_connected, post_failed, Windows}
use tcp_fsm.Win.Close.{close_connection, free_completed_send}
use tcp_fsm.Win.Transfer.{
  record_bandwidth, callback, new_recv, activate_receiving, give_up_send, after_post, do_send,
  deliver, deliver_or_close, receive_more, complete_recv, complete_send, call_false_cb,
}
use tcp_fsm.Win.Protocol.{life, InLife, InOrder}
use tcp_fsm.Win.Protocol.Closing.{free_send-InLife, close_connection-InLife}

module _ (p : Windows) (h : ℕ) where
  callback-InLife : (s : ℕ) (b : Bool) → Keeps (InLife h) (InOrder h) (callback p s b)
  unfolding callback life
  callback-InLife s b w l = ground arith

  pub activate_receiving-InLife : (j : ℕ) → Keeps (InLife h) (InOrder h) (activate_receiving p j)
  unfolding activate_receiving new_recv life
  activate_receiving-InLife j w l = ground arith

  give_up_send-InLife : (s : ℕ) → Keeps (InLife h) (InOrder h) (give_up_send p s)
  unfolding give_up_send
  give_up_send-InLife s w l =
      and_then-Post (InLife h) (InOrder h) (callback p s false w) _ (callback-InLife s false w l)
        λ _. free_send-InLife h s

  after_post-InLife :
      (s k : ℕ) (guess : Option ℕ) (answer : Posted)
      → Keeps (InLife h) (InOrder h) (after_post p s k guess answer)
  unfolding after_post
  after_post-InLife s k guess at_once w l = l
  after_post-InLife s k guess io_pending w l = l
  after_post-InLife s k guess not_connected w l = ground (arith, give_up_send-InLife s w l)
  after_post-InLife s k guess post_failed w l = ground (arith, give_up_send-InLife s w l)

  pub do_send-InLife : (s : ℕ) (guess : Option ℕ) → Keeps (InLife h) (InOrder h) (do_send p s guess)
  unfolding do_send life
  do_send-InLife s guess w l = ground arith

  pub call_false_cb-InLife : (s : ℕ) → Keeps (InLife h) (InOrder h) (call_false_cb p s)
  unfolding call_false_cb callback life
  call_false_cb-InLife s w l = ground arith

  -- A callback that throws leaves the connection where it is.
  deliver-InLife : (j size : ℕ) → Keeps (InLife h) (InLife h) (deliver p j size)
  unfolding deliver life
  deliver-InLife j size w l = ground arith

  receive_more-InLife : (r j : ℕ) → Keeps (InLife h) (InOrder h) (receive_more p r j)
  unfolding receive_more
  receive_more-InLife r j w l =
      ground (arith, close_connection-InLife p h j false (record w { calls = w.calls + 1 }) l)

  pub complete_send-InLife : (s : ℕ) → Keeps (InLife h) (InOrder h) (complete_send p s)
  unfolding complete_send record_bandwidth callback free_completed_send life
  complete_send-InLife s w l = ground arith

  deliver_or_close-InLife : (j size : ℕ) → Keeps (InLife h) (InOrder h) (deliver_or_close p j size)
  unfolding deliver_or_close
  deliver_or_close-InLife j size =
      catch-Keeps (InLife h) (InOrder h) (InLife h) (deliver p j size >> pure true)
        (close_connection p j true >> pure false)
        (bind-Keeps (InLife h) (InLife h) (deliver p j size) (λ _. pure true)
          (deliver-InLife j size) (λ _ v k. k))
        (bind-Keeps (InLife h) (InOrder h) (close_connection p j true) (λ _. pure false)
          (close_connection-InLife p h j true) (λ _ v k. k))

  pub complete_recv-InLife : (r : ℕ) → Keeps (InLife h) (InOrder h) (complete_recv p r)
  unfolding complete_recv
  complete_recv-InLife r w l =
      let j = (w.recv_at r).iov.conn in
      let held = record w {
        recv_at = update w.recv_at r (record (w.recv_at r) { size = w.transfered_bytes });
      } in
      and_then-Post (InLife h) (InOrder h) (deliver_or_close p j w.transfered_bytes held) _
        (deliver_or_close-InLife j w.transfered_bytes held l)
        λ go_on v k.
          ground (arith, close_connection-InLife p h j true v k, receive_more-InLife r j v k)
