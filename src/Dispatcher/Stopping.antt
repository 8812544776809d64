-- ===== src/Dispatcher/Stopping.antt =====
-- After the message of stop_accepting was handled: no schedule accepts a connection again.
use tcp_fsm.Base.{
  Bool, ℕ, suc, ◌+◌, to_size_t, ◌≡◌, List, [], ◌∷◌, Option, false, All, arith, inl, inr,
  Option-cases,
}
use tcp_fsm.Connection.{Callbacks}
use tcp_fsm.Platform.{
  Platform, RecvResult, received, recv_would_block, recv_failed, SendResult, sent, send_would_block,
  send_failed,
}
use tcp_fsm.World.{
  Effect, addref, release, connected_cb, closed_cb, read_cb, sent_cb, accepted_cb, transmitted,
  submitted, sent_so_far, socket_closed, watched, World, M, ◌>>◌, done,
}
use tcp_fsm.Monad.Post.{Post, Keeps, and_then-Post, Post-map}
use tcp_fsm.Dispatcher.Close.{create_connection, close_connection, connection_established}
use tcp_fsm.Dispatcher.Transfer.{
  do_recv, receive, deliver, do_send, sent_or_not, account, offered, call_false_cb,
}
use tcp_fsm.Dispatcher.Accept.{accept_connection}
use tcp_fsm.Dispatcher.Api.{
  make_conn, connect, connect_new, send, send_plain, close_conn, close_conn_wait, addref_conn,
  release_conn, release_send, stop_accepting, set_bandwidth, break_send_request, break_send_init,
  shut_down,
}
use tcp_fsm.Messages.{InternalMessage, stop_accepting_code}
use tcp_fsm.Dispatcher.Loop.{post_close, handle_message}
use tcp_fsm.Dispatcher.Schedule.{
  Action, makes_conn, connects, connects_new, sends, sends_plain, closes, closes_wait, addrefs,
  releases, releases_send, breaks, inits_break, stops_accepting, shuts_down, sets_bandwidth, rounds,
  perform, run, IsCall,
}
use tcp_fsm.Dispatcher.Invariant.{Invariant}
use tcp_fsm.Dispatcher.Invariant.Running.{run-Keeps}

-- How often `accepted` was called.
unfoldable pub accepted_calls : List Effect → ℕ
accepted_calls [] = 0
accepted_calls (accepted_cb j ∷ log) = suc (accepted_calls log)
accepted_calls (connected_cb j x ∷ log) = accepted_calls log
accepted_calls (closed_cb j ∷ log) = accepted_calls log
accepted_calls (read_cb j bytes ∷ log) = accepted_calls log
accepted_calls (sent_cb s value ∷ log) = accepted_calls log
accepted_calls (addref o ∷ log) = accepted_calls log
accepted_calls (release o ∷ log) = accepted_calls log
accepted_calls (transmitted s i k ∷ log) = accepted_calls log
accepted_calls (submitted s i k ∷ log) = accepted_calls log
accepted_calls (sent_so_far s n ∷ log) = accepted_calls log
accepted_calls (socket_closed s ∷ log) = accepted_calls log
accepted_calls (watched j ∷ log) = accepted_calls log

-- Nothing accepts, after `n` calls.
pub record Stopped (n : ℕ) (w : World) : Type 0 where
  pub refuses : w.accepted ≡ false
  pub calls_stay : accepted_calls w.log ≡ n

abbrev pub CallsStay : ℕ → World → Type 0
CallsStay n w = accepted_calls w.log ≡ n

module _ (p : Platform) (n : ℕ) where
  create_connection-Stopped : (j : ℕ) → Keeps (Stopped n) (CallsStay n) (create_connection p j)
  unfolding create_connection accepted_calls
  create_connection-Stopped j w a = ground arith

  close_connection-Stopped : (j : ℕ) → Keeps (Stopped n) (CallsStay n) (close_connection p j)
  unfolding close_connection accepted_calls
  close_connection-Stopped j w a = ground arith

  connection_established-Stopped :
      (j : ℕ) → Keeps (Stopped n) (CallsStay n) (connection_established p j)
  unfolding connection_established accepted_calls
  connection_established-Stopped j w a = ground arith

  receive-Stopped : (j : ℕ) (r : RecvResult) → Keeps (Stopped n) (CallsStay n) (receive p j r)
  unfolding receive accepted_calls
  receive-Stopped j (received bytes) w a = unfold deliver in ground arith
  receive-Stopped j recv_would_block w a = a
  receive-Stopped j recv_failed w a = a

  do_recv-Stopped : (j : ℕ) → Keeps (Stopped n) (CallsStay n) (do_recv p j)
  unfolding do_recv
  do_recv-Stopped j w a = ground (
    arith,
    receive-Stopped j (p.recv w.calls (w.conns j).sock 65536) (record w { calls = w.calls + 1 })
        (ground arith),
  )

  account-Stopped : (s sts k : ℕ) → Keeps (Stopped n) (CallsStay n) (account p s sts k)
  unfolding account accepted_calls
  account-Stopped s sts k w a = ground arith

  sent_or_not-Stopped :
      (s sts : ℕ) (guess : Option ℕ) (r : SendResult)
      → Keeps (Stopped n) (CallsStay n) (sent_or_not p s sts guess r)
  unfolding sent_or_not accepted_calls
  sent_or_not-Stopped s sts guess (sent k) w a =
      and_then-Post (Stopped n) (CallsStay n) (account p s sts k w) _ (account-Stopped s sts k w a)
        λ _ v b. b
  sent_or_not-Stopped s sts guess send_would_block w a = ground arith
  sent_or_not-Stopped s sts guess send_failed w a = ground arith

  do_send-Stopped : (s : ℕ) (guess : Option ℕ) → Keeps (Stopped n) (CallsStay n) (do_send p s guess)
  unfolding do_send
  do_send-Stopped s guess w a =
      let h = (w.sends s).iov.conn in
      let sts = offered (w.sends s) guess in
      ground (
        arith,
        sent_or_not-Stopped s sts guess (p.send w.calls (w.conns h).sock (to_size_t sts))
            (record w { calls = w.calls + 1 }) (ground arith),
      )

  call_false_cb-Stopped : (s : ℕ) → Keeps (Stopped n) (CallsStay n) (call_false_cb p s)
  unfolding call_false_cb accepted_calls
  call_false_cb-Stopped s w a = ground arith

  accept_connection-Stopped : Keeps (Stopped n) (CallsStay n) (accept_connection p)
  unfolding accept_connection
  accept_connection-Stopped w a = ground (arith, a.refuses)

  make_conn-Stopped : Keeps (Stopped n) (CallsStay n) (make_conn p)
  unfolding make_conn accepted_calls
  make_conn-Stopped w a = elim (Option-cases (p.socket w.calls)) [
    | inl e ↦ ground arith
    | inr (sock, e) ↦ ground arith
  ]

  connect_new-Stopped :
      (ip port : ℕ) (cb : Callbacks) → Keeps (Stopped n) (CallsStay n) (connect_new p ip port cb)
  unfolding connect_new accepted_calls
  connect_new-Stopped ip port cb w a = elim (Option-cases (p.socket w.calls)) [
    | inl e ↦ ground arith
    | inr (sock, e) ↦ ground arith
  ]

  post_close-Stopped : (j : ℕ) → Keeps (Stopped n) (CallsStay n) (post_close j)
  post_close-Stopped j w a = ground arith

  perform-Stopped :
      (x : Action) → IsCall x → Unit {0} → Keeps (Stopped n) (CallsStay n) (perform p x)
  unfolding perform
  perform-Stopped makes_conn c u w a =
      and_then-Post (Stopped n) (CallsStay n) (make_conn p w) _ (make_conn-Stopped w a) λ _ v k. k
  perform-Stopped (connects j ip port cb) c u w a = unfold connect accepted_calls in ground arith
  perform-Stopped (connects_new ip port cb) c u w a =
      and_then-Post (Stopped n) (CallsStay n) (connect_new p ip port cb w) _
        (connect_new-Stopped ip port cb w a) λ _ v k. k
  perform-Stopped (sends j bytes cb) c u w a = unfold send accepted_calls in ground arith
  perform-Stopped (sends_plain j bytes) c u w a = unfold send_plain accepted_calls in ground arith
  perform-Stopped (closes j) c u w a = unfold close_conn accepted_calls in ground arith
  perform-Stopped (closes_wait j) c u w a = unfold close_conn_wait accepted_calls in ground arith
  perform-Stopped (addrefs j) c u w a = unfold addref_conn accepted_calls in ground arith
  perform-Stopped (releases j) c u w a = unfold release_conn accepted_calls in ground arith
  perform-Stopped (releases_send j) c u w a = unfold release_send accepted_calls in ground arith
  perform-Stopped (breaks j) c u w a = unfold break_send_request accepted_calls in ground arith
  perform-Stopped (inits_break j) c u w a = unfold break_send_init accepted_calls in ground arith
  perform-Stopped stops_accepting c u w a = unfold stop_accepting accepted_calls in ground arith
  perform-Stopped shuts_down c u w a = unfold shut_down accepted_calls in ground arith
  perform-Stopped (sets_bandwidth b) c u w a = unfold set_bandwidth accepted_calls in ground arith
  perform-Stopped (rounds fuel waits) c u w a = elim c [ ]

  Stopped-Invariant : Invariant p (Stopped n) (CallsStay n) (λ _. Unit {0})
  unfolding accepted_calls
  Stopped-Invariant = record {
    handled = record {
      frame = λ w o b k le a. ground arith;
      popped = λ w m rest e a. ground arith;
      stopped = λ w a. ground arith;
      counted_up = λ w o a. ground arith;
      counted_down = λ w o a. ground arith;
      close_posted = post_close-Stopped;
      created = create_connection-Stopped;
      closed = close_connection-Stopped;
      established = connection_established-Stopped;
      received = do_recv-Stopped;
      sent = do_send-Stopped;
      broken_off = call_false_cb-Stopped;
      accepts = accept_connection-Stopped;
    };
    weaken = λ w a. a.calls_stay;
    polled = λ w r a. ground arith;
    called = perform-Stopped;
  }

  any : (schedule : List Action) → All (λ _. Unit {0}) schedule
  any [] = tt
  any (x ∷ rest) = (tt, any rest)

  run-Stopped :
      (schedule : List Action) (w : World)
      → Stopped n w
      → Post (Stopped n) (CallsStay n) (run p schedule w)
  run-Stopped schedule w a =
      run-Keeps p (Stopped n) (CallsStay n) (λ _. Unit {0}) Stopped-Invariant schedule
        (any schedule) w a

-- After the message of stop_accepting was handled.
abbrev pub after_stop : Platform → InternalMessage → List Action → M Bool
after_stop p m schedule = handle_message p m >> run p schedule

-- `accept_connection` returns 0 and makes no call: the state stays as it is, with all that was logged.
abbrev pub Refuses : Platform → ℕ → World → Type 0
Refuses p n w = (accept_connection p w ≡ done 0 w) × (accepted_calls w.log ≡ n)

Stopped-Refuses : (p : Platform) (n : ℕ) (w : World) → Stopped n w → Refuses p n w
unfolding accept_connection
Stopped-Refuses p n w a = (ground (arith, a.refuses), a.calls_stay)

handle_message-Stopped :
    (p : Platform) (m : InternalMessage) (w : World)
    → m.code ≡ stop_accepting_code
    → Post
        (Stopped (accepted_calls w.log))
        (CallsStay (accepted_calls w.log))
        (handle_message p m w)
unfolding handle_message accepted_calls
handle_message-Stopped p m w e = ground arith

-- Once the thread has handled the message of stop_accepting, no schedule makes the dispatcher accept
-- again: after it accept_connection() returns 0 at once, without a call of accept(2) or any other, and
-- `accepted` was not called since. Of a run that faults nothing is said, of one that throws only the last.
pub stop-Refuses :
    (p : Platform) (m : InternalMessage) (schedule : List Action) (w : World)
    → m.code ≡ stop_accepting_code
    → Post
        (Refuses p (accepted_calls w.log))
        (CallsStay (accepted_calls w.log))
        (after_stop p m schedule w)
stop-Refuses p m schedule w e =
    let n = accepted_calls w.log in
    Post-map (Stopped n) (CallsStay n) (Refuses p n) (CallsStay n) (after_stop p m schedule w)
      (Stopped-Refuses p n) (λ v k. k)
      (and_then-Post (Stopped n) (CallsStay n) (handle_message p m w) (λ _. run p schedule)
        (handle_message-Stopped p m w e) (λ _. run-Stopped p n schedule))
