-- ===== src/Biocp/Protocol/Handling.antt =====
-- Closing, sending and receiving keep the order of callbacks.
use tcp_fsm.Base.{ℕ, ◌+◌, Bool, true, false, arith}
use tcp_fsm.Monad.{pure, ◌>>◌}
use tcp_fsm.Monad.Post.{Keeps, catch-Keeps, and_then-Post, bind-Keeps}
use tcp_fsm.Win.State.{Posted, at_once, io_pending, not_connected, post_failed}
use tcp_fsm.Biocp.State.{Calls}
use tcp_fsm.Biocp.Close.{
  free_completed_conn, free_completed_recv, free_completed_send, forget, close_socket,
  close_in_state, close_connection,
}
use tcp_fsm.Biocp.Transfer.{
  keep_send, callback, new_recv, activate_receiving, refuse_send, after_first, send_request,
  end_send, after_next, send_complete, deliver, end_receiving, deliver_or_close, receive_more,
  recv_complete, call_false_cb,
}
use tcp_fsm.Biocp.Protocol.{life, InLife, InOrder}

module _ (p : Calls) (h : ℕ) where
  pub close_connection-InLife :
      (j : ℕ) (iocp : Bool) → Keeps (InLife h) (InOrder h) (close_connection p j iocp)
  unfolding close_connection close_in_state forget close_socket free_completed_conn life
  close_connection-InLife j iocp w l = ground arith

  pub activate_receiving-InLife : (j : ℕ) → Keeps (InLife h) (InOrder h) (activate_receiving p j)
  unfolding activate_receiving new_recv life
  activate_receiving-InLife j w l = ground arith

  pub call_false_cb-InLife : (s : ℕ) → Keeps (InLife h) (InOrder h) (call_false_cb p s)
  unfolding call_false_cb callback life
  call_false_cb-InLife s w l = ground arith

  after_first-InLife :
      (s : ℕ) (answer : Posted) → Keeps (InLife h) (InOrder h) (after_first p s answer)
  unfolding after_first refuse_send callback keep_send life
  after_first-InLife s at_once w l = l
  after_first-InLife s io_pending w l = l
  after_first-InLife s not_connected w l = ground arith
  after_first-InLife s post_failed w l = ground arith

  pub send_request-InLife : (s : ℕ) → Keeps (InLife h) (InOrder h) (send_request p s)
  unfolding send_request after_first refuse_send callback keep_send life
  send_request-InLife s w l = ground arith

  pub send_complete-InLife : (s : ℕ) → Keeps (InLife h) (InOrder h) (send_complete p s)
  unfolding send_complete after_next end_send callback free_completed_send life
  send_complete-InLife s w l = ground arith

  -- A callback that throws leaves the connection where it is.
  deliver-InLife : (j size : ℕ) → Keeps (InLife h) (InLife h) (deliver p j size)
  unfolding deliver life
  deliver-InLife j size w l = ground arith

  free_recv-InLife : (r : ℕ) → Keeps (InLife h) (InOrder h) (free_completed_recv r)
  unfolding free_completed_recv life
  free_recv-InLife r w l = l

  end_receiving-InLife :
      (r j : ℕ) (iocp : Bool) → Keeps (InLife h) (InOrder h) (end_receiving p r j iocp)
  unfolding end_receiving
  end_receiving-InLife r j iocp =
      bind-Keeps (InLife h) (InOrder h) (free_completed_recv r) (λ _. close_connection p j iocp)
        (free_recv-InLife r) λ _. close_connection-InLife j iocp

  receive_more-InLife : (r j : ℕ) → Keeps (InLife h) (InOrder h) (receive_more p r j)
  unfolding receive_more
  receive_more-InLife r j w l =
      ground (arith, end_receiving-InLife r j false (record w { calls = w.calls + 1 }) l)

  deliver_or_close-InLife :
      (r j size : ℕ) → Keeps (InLife h) (InOrder h) (deliver_or_close p r j size)
  unfolding deliver_or_close
  deliver_or_close-InLife r j size =
      catch-Keeps (InLife h) (InOrder h) (InLife h) (deliver p j size >> pure true)
        (end_receiving p r j true >> pure false)
        (bind-Keeps (InLife h) (InLife h) (deliver p j size) (λ _. pure true)
          (deliver-InLife j size) (λ _ v k. k))
        (bind-Keeps (InLife h) (InOrder h) (end_receiving p r j true) (λ _. pure false)
          (end_receiving-InLife r j true) (λ _ v k. k))

  pub recv_complete-InLife : (r : ℕ) → Keeps (InLife h) (InOrder h) (recv_complete p r)
  unfolding recv_complete
  recv_complete-InLife r w l =
      let j = (w.recv_at r).iov.conn in
      let size = (w.recv_at r).size in
      and_then-Post (InLife h) (InOrder h) (deliver_or_close p r j size w) _
        (deliver_or_close-InLife r j size w l)
        λ go_on v k. ground (arith, end_receiving-InLife r j true v k, receive_more-InLife r j v k)
