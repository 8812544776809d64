-- ===== src/Win/Requests/Handling.antt =====
-- The handlers of the thread keep a request in accord with the log.
use tcp_fsm.Base.{ℕ, ◌+◌, ◌∷◌, true, false, not, Option, Bool, arith, inl, inr, Option-cases}
use tcp_fsm.Connection.{TcpConn, tcp_conn_struct, no_callbacks}
use tcp_fsm.Effects.{accept_object, conn_object, connected_cb, addref, release}
use tcp_fsm.Monad.{pure, when, ◌>>◌, update}
use tcp_fsm.Monad.Post.{Keeps, catch-Keeps, and_then-Post, bind-Keeps, when-Keeps}
use tcp_fsm.Win.State.{Posted, at_once, io_pending, not_connected, post_failed, Windows}
use tcp_fsm.Win.Close.{
  erase_first, close_connection, close_in_state, forget, close_socket, free_both,
  free_completed_conn, free_completed_recv, free_completed_send, free_completed_accept,
  free_completed_overlap,
}
use tcp_fsm.Win.Transfer.{
  callback, activate_receiving, new_recv, give_up_send, after_post, do_send, deliver,
  deliver_or_close, receive_more, complete_recv, complete_send, record_bandwidth, call_false_cb,
}
use tcp_fsm.Win.Accept.{
  add_socket, new_conn, create, mark_connected, receive_or_close, start_receiving, establish,
  complete_connect, accept_request, ask_user, admit, complete_accept,
}
use tcp_fsm.Win.Requests.{report_on, Reported, Honest}

module _ (p : Windows) (s total : ℕ) where
  pub close_connection-Reported :
      (j : ℕ) (iocp : Bool) → Keeps (Reported s total) (Honest s total) (close_connection p j iocp)
  unfolding close_connection close_in_state forget close_socket free_both free_completed_conn
      free_completed_recv report_on
  close_connection-Reported j iocp w l = ground arith

  silenced-Reported : (j : ℕ) → Keeps (Reported s total) (Honest s total) (callback p j false)
  unfolding callback report_on
  silenced-Reported j w l = ground arith

  pub call_false_cb-Reported :
      (j : ℕ) → Keeps (Reported s total) (Honest s total) (call_false_cb p j)
  unfolding call_false_cb callback report_on
  call_false_cb-Reported j w l = ground arith

  pub complete_send-Reported :
      (j : ℕ) → Keeps (Reported s total) (Honest s total) (complete_send p j)
  unfolding complete_send record_bandwidth callback free_completed_send report_on
  complete_send-Reported j w l = ground arith

  give_up_send-Reported : (j : ℕ) → Keeps (Reported s total) (Honest s total) (give_up_send p j)
  unfolding give_up_send callback free_completed_send report_on
  give_up_send-Reported j w l = ground arith

  after_post-Reported :
      (j k : ℕ) (guess : Option ℕ) (answer : Posted)
      → Keeps (Reported s total) (Honest s total) (after_post p j k guess answer)
  unfolding after_post give_up_send callback free_completed_send report_on
  after_post-Reported j k guess at_once w l = l
  after_post-Reported j k guess io_pending w l = ground arith
  after_post-Reported j k guess not_connected w l = ground arith
  after_post-Reported j k guess post_failed w l = ground arith

  pub do_send-Reported :
      (j : ℕ) (guess : Option ℕ) → Keeps (Reported s total) (Honest s total) (do_send p j guess)
  unfolding do_send after_post give_up_send callback free_completed_send report_on
  do_send-Reported j guess w l = ground arith

  activate_receiving-Reported :
      (j : ℕ) → Keeps (Reported s total) (Honest s total) (activate_receiving p j)
  unfolding activate_receiving new_recv report_on
  activate_receiving-Reported j w l = ground arith

  deliver-Reported : (j size : ℕ) → Keeps (Reported s total) (Reported s total) (deliver p j size)
  unfolding deliver report_on
  deliver-Reported j size w l = ground arith

  receive_or_close-Reported :
      (j : ℕ) → Keeps (Reported s total) (Honest s total) (receive_or_close p j)
  unfolding receive_or_close
  receive_or_close-Reported j w l =
      and_then-Post (Reported s total) (Honest s total) (activate_receiving p j w) _
        (activate_receiving-Reported j w l)
        λ active.
          when-Keeps (Reported s total) (Honest s total) (not active) (close_connection p j true)
            (close_connection-Reported j true)

  pub create-Reported : (j : ℕ) → Keeps (Reported s total) (Honest s total) (create p j)
  unfolding create report_on
  create-Reported j w l = ground arith

  deliver_or_close-Reported :
      (j size : ℕ) → Keeps (Reported s total) (Honest s total) (deliver_or_close p j size)
  unfolding deliver_or_close
  deliver_or_close-Reported j size =
      catch-Keeps (Reported s total) (Honest s total) (Reported s total)
        (deliver p j size >> pure true) (close_connection p j true >> pure false)
        (bind-Keeps (Reported s total) (Reported s total) (deliver p j size) (λ _. pure true)
          (deliver-Reported j size) (λ _ v k. k))
        (bind-Keeps (Reported s total) (Honest s total) (close_connection p j true)
          (λ _. pure false) (close_connection-Reported j true) (λ _ v k. k))

  receive_more-Reported : (r j : ℕ) → Keeps (Reported s total) (Honest s total) (receive_more p r j)
  unfolding receive_more close_connection close_in_state forget close_socket free_both
      free_completed_conn report_on
  receive_more-Reported r j w l = ground arith

  pub complete_recv-Reported :
      (r : ℕ) → Keeps (Reported s total) (Honest s total) (complete_recv p r)
  unfolding complete_recv
  complete_recv-Reported r w l =
      let j = (w.recv_at r).iov.conn in
      let held = record w {
        recv_at = update w.recv_at r (record (w.recv_at r) { size = w.transfered_bytes });
      } in
      and_then-Post (Reported s total) (Honest s total)
        (deliver_or_close p j w.transfered_bytes held) _
        (deliver_or_close-Reported j w.transfered_bytes held (ground arith))
        λ go_on v k.
          ground (arith, close_connection-Reported j true v k, receive_more-Reported r j v k)

  start_receiving-Reported :
      (j : ℕ) → Keeps (Reported s total) (Honest s total) (start_receiving p j)
  unfolding start_receiving mark_connected record_bandwidth report_on
  start_receiving-Reported j w l =
      and_then-Post (Reported s total) (Honest s total)
        ((mark_connected p j >> record_bandwidth p j 0) w) (λ _. receive_or_close p j)
        (ground arith) λ _. receive_or_close-Reported j

  establish-Reported : (j : ℕ) → Keeps (Reported s total) (Honest s total) (establish p j)
  unfolding establish report_on
  establish-Reported j w l = ground (
    arith,
    start_receiving-Reported j (record w { calls = w.calls + 1; log = connected_cb j j ∷ w.log }),
  )

  pub complete_connect-Reported :
      (o : ℕ) → Keeps (Reported s total) (Honest s total) (complete_connect p o)
  unfolding complete_connect free_completed_overlap free_completed_conn report_on
  complete_connect-Reported o w l =
      let j = (w.overlap_at o).conn in
      and_then-Post (Reported s total) (Honest s total)
        (when (w.conn_at j).cbs.connected (establish p j) w) _
        (when-Keeps (Reported s total) (Honest s total) (w.conn_at j).cbs.connected (establish p j)
          (establish-Reported j) w l)
        λ _ v k. ground arith

  accept_request-Reported : Keeps (Reported s total) (Honest s total) (accept_request p)
  unfolding accept_request add_socket report_on
  accept_request-Reported w l = elim (Option-cases (p.wsa_socket w.calls)) [
    | inl e ↦ ground arith
    | inr (sock, e) ↦ ground arith
  ]

  ask_user-Reported : (j : ℕ) → Keeps (Reported s total) (Honest s total) (ask_user p j)
  unfolding ask_user report_on
  ask_user-Reported j w l = ground arith

  asked-Reported :
      (j : ℕ) → Keeps (Reported s total) (Honest s total) (ask_user p j >> start_receiving p j)
  asked-Reported j =
      bind-Keeps (Reported s total) (Honest s total) (ask_user p j) (λ _. start_receiving p j)
        (ask_user-Reported j) λ _. start_receiving-Reported j

  admit-Reported : (sock : ℕ) → Keeps (Reported s total) (Honest s total) (admit p sock)
  unfolding admit new_conn report_on
  admit-Reported sock w l =
      let j = p.new_object w.calls in
      let c : TcpConn = tcp_conn_struct p.junk_addr sock no_callbacks in
      let made = record w {
        conn_at =
            update (update w.conn_at j c) j
              (record (update w.conn_at j c j) { addr = p.peer (w.calls + 1) });
        calls = w.calls + 1 + 1;
        log = addref (conn_object j) ∷ addref (conn_object j) ∷ w.log;
      } in
      asked-Reported j made (ground arith)

  pub complete_accept-Reported :
      (a : ℕ) → Keeps (Reported s total) (Honest s total) (complete_accept p a)
  unfolding complete_accept free_completed_accept report_on
  complete_accept-Reported a w l =
      and_then-Post (Reported s total) (Honest s total)
        (when w.accepted (admit p (w.accept_at a).sock) w) _
        (when-Keeps (Reported s total) (Honest s total) w.accepted (admit p (w.accept_at a).sock)
          (admit-Reported (w.accept_at a).sock) w l)
        λ _ v k.
          accept_request-Reported
            (record v {
              accepts = erase_first a v.accepts;
              log = release (accept_object a) ∷ v.log;
            })
            (ground arith)
