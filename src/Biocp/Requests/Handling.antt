-- ===== src/Biocp/Requests/Handling.antt =====
-- Closing, sending and receiving keep a request in accord with the log.
use tcp_fsm.Base.{ℕ, ◌+◌, Bool, true, false, arith}
use tcp_fsm.Monad.{pure, ◌>>◌}
use tcp_fsm.Monad.Post.{Keeps, catch-Keeps, and_then-Post, bind-Keeps}
use tcp_fsm.Win.State.{Posted, at_once, io_pending, not_connected, post_failed}
use tcp_fsm.Biocp.State.{Calls}
use tcp_fsm.Biocp.Close.{
  free_completed_conn, free_completed_recv, free_completed_send, forget, close_socket,
  close_in_state, close_connection,
}
use tcp_fsm.Biocp.Transfer.{
  keep_send, callback, new_recv, activate_receiving, refuse_send, after_first, send_request,
  end_send, after_next, send_complete, deliver, end_receiving, deliver_or_close, receive_more,
  recv_complete, call_false_cb,
}
use tcp_fsm.Biocp.Requests.{report_on, Reported, Honest}

module _ (p : Calls) (s total : ℕ) where
  pub close_connection-Reported :
      (j : ℕ) (iocp : Bool) → Keeps (Reported s total) (Honest s total) (close_connection p j iocp)
  unfolding close_connection close_in_state forget close_socket free_completed_conn report_on
  close_connection-Reported j iocp w l = ground arith

  pub activate_receiving-Reported :
      (j : ℕ) → Keeps (Reported s total) (Honest s total) (activate_receiving p j)
  unfolding activate_receiving new_recv report_on
  activate_receiving-Reported j w l = ground arith

  pub call_false_cb-Reported :
      (q : ℕ) → Keeps (Reported s total) (Honest s total) (call_false_cb p q)
  unfolding call_false_cb callback report_on
  call_false_cb-Reported q w l = ground arith

  after_first-Reported :
      (q : ℕ) (answer : Posted) → Keeps (Reported s total) (Honest s total) (after_first p q answer)
  unfolding after_first refuse_send callback keep_send report_on
  after_first-Reported q at_once w l = ground arith
  after_first-Reported q io_pending w l = ground arith
  after_first-Reported q not_connected w l = ground arith
  after_first-Reported q post_failed w l = ground arith

  pub send_request-Reported : (q : ℕ) → Keeps (Reported s total) (Honest s total) (send_request p q)
  unfolding send_request after_first refuse_send callback keep_send report_on
  send_request-Reported q w l = ground arith

  pub send_complete-Reported :
      (q : ℕ) → Keeps (Reported s total) (Honest s total) (send_complete p q)
  unfolding send_complete after_next end_send callback free_completed_send report_on
  send_complete-Reported q w l = ground arith

  -- A callback that throws leaves the connection where it is.
  deliver-Reported : (j size : ℕ) → Keeps (Reported s total) (Reported s total) (deliver p j size)
  unfolding deliver report_on
  deliver-Reported j size w l = ground arith

  free_recv-Reported : (r : ℕ) → Keeps (Reported s total) (Honest s total) (free_completed_recv r)
  unfolding free_completed_recv report_on
  free_recv-Reported r w l = ground arith

  end_receiving-Reported :
      (r j : ℕ) (iocp : Bool) → Keeps (Reported s total) (Honest s total) (end_receiving p r j iocp)
  unfolding end_receiving
  end_receiving-Reported r j iocp =
      bind-Keeps (Reported s total) (Honest s total) (free_completed_recv r)
        (λ _. close_connection p j iocp) (free_recv-Reported r)
        λ _. close_connection-Reported j iocp

  receive_more-Reported : (r j : ℕ) → Keeps (Reported s total) (Honest s total) (receive_more p r j)
  unfolding receive_more
  receive_more-Reported r j w l =
      ground
        (arith, end_receiving-Reported r j false (record w { calls = w.calls + 1 }) (ground arith))

  deliver_or_close-Reported :
      (r j size : ℕ) → Keeps (Reported s total) (Honest s total) (deliver_or_close p r j size)
  unfolding deliver_or_close
  deliver_or_close-Reported r j size =
      catch-Keeps (Reported s total) (Honest s total) (Reported s total)
        (deliver p j size >> pure true) (end_receiving p r j true >> pure false)
        (bind-Keeps (Reported s total) (Reported s total) (deliver p j size) (λ _. pure true)
          (deliver-Reported j size) (λ _ v k. k))
        (bind-Keeps (Reported s total) (Honest s total) (end_receiving p r j true) (λ _. pure false)
          (end_receiving-Reported r j true) (λ _ v k. k))

  pub recv_complete-Reported :
      (r : ℕ) → Keeps (Reported s total) (Honest s total) (recv_complete p r)
  unfolding recv_complete
  recv_complete-Reported r w l =
      let j = (w.recv_at r).iov.conn in
      let size = (w.recv_at r).size in
      and_then-Post (Reported s total) (Honest s total) (deliver_or_close p r j size w) _
        (deliver_or_close-Reported r j size w l)
        λ go_on v k.
          ground (arith, end_receiving-Reported r j true v k, receive_more-Reported r j v k)
