-- ===== src/Dispatcher/Waking/Handling.antt =====
-- The handlers of the thread leave the reactor alone and put no message into the queue.
use tcp_fsm.Base.{ℕ, ◌+◌, ◌≡◌, to_size_t, List, [], ◌∷◌, Option, none, some, arith, length}
use tcp_fsm.Messages
use tcp_fsm.Messages.{InternalMessage, InternalMessages}
use tcp_fsm.Platform.{
  Platform, AcceptResult, accept_done, accept_again, accept_failed, RecvResult, received,
  recv_would_block, recv_failed, SendResult, sent, send_would_block, send_failed,
}
use tcp_fsm.Connection.{SockAddr}
use tcp_fsm.Reactor.{LinuxReactor}
use tcp_fsm.Monad.Post.{Keeps, and_then-Post}
use tcp_fsm.Dispatcher.Close.{create_connection, close_connection, connection_established}
use tcp_fsm.Dispatcher.Transfer.{
  do_recv, receive, deliver, do_send, sent_or_not, account, offered, call_false_cb,
}
use tcp_fsm.Dispatcher.Accept.{
  accept_connection, accept_on, accept_result, admit, admit_nonblocking,
}
use tcp_fsm.Dispatcher.Loop.{post_close}
use tcp_fsm.Dispatcher.Invariant.{Handled}
use tcp_fsm.Dispatcher.Waking.{Holding, Ended}

-- `pop` takes one message.
pub pop-length :
    (q rest : InternalMessages) (m : InternalMessage)
    → Messages.pop q ≡ some (m, rest)
    → length q.messages ≡ length rest.messages + 1
unfolding Messages.pop
pop-length q rest m e = by_cases q.messages e
  where
    by_cases :
        (ms : List InternalMessage)
        → Messages.pop (record { messages = ms }) ≡ some (m, rest)
        → length ms ≡ length rest.messages + 1
    by_cases [] e = cc
    by_cases (x ∷ xs) e = ground arith

module _ (p : Platform) (r : LinuxReactor) (n : ℕ) where
  create_connection-Holding : (j : ℕ) → Keeps (Holding r n) Ended (create_connection p j)
  unfolding create_connection
  create_connection-Holding j w l = ground arith

  close_connection-Holding : (j : ℕ) → Keeps (Holding r n) Ended (close_connection p j)
  unfolding close_connection
  close_connection-Holding j w l = ground arith

  connection_established-Holding : (j : ℕ) → Keeps (Holding r n) Ended (connection_established p j)
  unfolding connection_established
  connection_established-Holding j w l = ground arith

  receive-Holding : (j : ℕ) (x : RecvResult) → Keeps (Holding r n) Ended (receive p j x)
  unfolding receive
  receive-Holding j (received bytes) w l = unfold deliver in ground arith
  receive-Holding j recv_would_block w l = l
  receive-Holding j recv_failed w l = l

  do_recv-Holding : (j : ℕ) → Keeps (Holding r n) Ended (do_recv p j)
  unfolding do_recv
  do_recv-Holding j w l = ground (
    arith,
    receive-Holding j (p.recv w.calls (w.conns j).sock 65536) (record w { calls = w.calls + 1 })
        (ground arith),
  )

  account-Holding : (s sts k : ℕ) → Keeps (Holding r n) Ended (account p s sts k)
  unfolding account
  account-Holding s sts k w l = ground arith

  sent_or_not-Holding :
      (s sts : ℕ) (guess : Option ℕ) (x : SendResult)
      → Keeps (Holding r n) Ended (sent_or_not p s sts guess x)
  unfolding sent_or_not
  sent_or_not-Holding s sts guess (sent k) w l =
      and_then-Post (Holding r n) Ended (account p s sts k w) _ (account-Holding s sts k w l)
        λ _ v m. m
  sent_or_not-Holding s sts guess send_would_block w l = ground arith
  sent_or_not-Holding s sts guess send_failed w l = ground arith

  do_send-Holding : (s : ℕ) (guess : Option ℕ) → Keeps (Holding r n) Ended (do_send p s guess)
  unfolding do_send
  do_send-Holding s guess w l =
      let h = (w.sends s).iov.conn in
      let sts = offered (w.sends s) guess in
      ground (
        arith,
        sent_or_not-Holding s sts guess (p.send w.calls (w.conns h).sock (to_size_t sts))
            (record w { calls = w.calls + 1 }) (ground arith),
      )

  call_false_cb-Holding : (s : ℕ) → Keeps (Holding r n) Ended (call_false_cb p s)
  unfolding call_false_cb
  call_false_cb-Holding s w l = ground arith

  admit_nonblocking-Holding :
      (sock : ℕ) (addr : SockAddr) → Keeps (Holding r n) Ended (admit_nonblocking p sock addr)
  unfolding admit_nonblocking admit
  admit_nonblocking-Holding sock addr w l = ground arith

  accept_result-Holding : (x : AcceptResult) → Keeps (Holding r n) Ended (accept_result p x)
  unfolding accept_result
  accept_result-Holding (accept_done sock addr) w l = admit_nonblocking-Holding sock addr w l
  accept_result-Holding accept_again w l = l
  accept_result-Holding accept_failed w l = tt

  accept_on-Holding : (o : Option ℕ) → Keeps (Holding r n) Ended (accept_on p o)
  unfolding accept_on
  accept_on-Holding none w l = tt
  accept_on-Holding (some sock) w l =
      accept_result-Holding (p.accept w.calls sock) (record w { calls = w.calls + 1 })
        (ground arith)

  accept_connection-Holding : Keeps (Holding r n) Ended (accept_connection p)
  unfolding accept_connection
  accept_connection-Holding w l = ground (arith, accept_on-Holding w.listening_socket w l)

  post_close-Holding : (j : ℕ) → Keeps (Holding r n) Ended (post_close j)
  post_close-Holding j w l = ground arith

  pub Holding-Handled : Handled p (Holding r n) Ended
  Holding-Handled = record {
    frame = λ w o b k le l. ground arith;
    popped = λ w m rest e l. ground (arith, pop-length w.i_messages rest m e);
    stopped = λ w l. ground arith;
    counted_up = λ w o l. ground arith;
    counted_down = λ w o l. ground arith;
    close_posted = post_close-Holding;
    created = create_connection-Holding;
    closed = close_connection-Holding;
    established = connection_established-Holding;
    received = do_recv-Holding;
    sent = do_send-Holding;
    broken_off = call_false_cb-Holding;
    accepts = accept_connection-Holding;
  }
