-- ===== src/Dispatcher/Requests/Running.antt =====
-- Every schedule hands the bytes of a request over in order.
use tcp_fsm.Base.{
  ℕ, ◌+◌, ◌^◌, ◌<◌, ◌≤◌, List, [], ◌∷◌, Option, none, some, All, arith, inl, inr, Option-cases,
}
use tcp_fsm.Connection.{Callbacks, SockAddr}
use tcp_fsm.Platform.{
  Platform, SendsWithin, AcceptResult, accept_done, accept_again, accept_failed, RecvResult,
  received, recv_would_block, recv_failed,
}
use tcp_fsm.World.{World}
use tcp_fsm.Monad.Post.{Post, Keeps, and_then-Post, Post-map, Post-both}
use tcp_fsm.Dispatcher.Close.{create_connection, close_connection, connection_established}
use tcp_fsm.Dispatcher.Transfer.{do_recv, receive, deliver}
use tcp_fsm.Dispatcher.Accept.{
  admit, admit_nonblocking, accept_result, accept_on, accept_connection,
}
use tcp_fsm.Dispatcher.Api.{
  make_conn, connect, connect_new, send, send_plain, close_conn, close_conn_wait, addref_conn,
  release_conn, release_send, stop_accepting, set_bandwidth, break_send_request, break_send_init,
  shut_down,
}
use tcp_fsm.Dispatcher.Loop.{post_close}
use tcp_fsm.Dispatcher.Schedule.{
  Action, makes_conn, connects, connects_new, sends, sends_plain, closes, closes_wait, addrefs,
  releases, releases_send, breaks, inits_break, stops_accepting, shuts_down, sets_bandwidth, rounds,
  perform, run, IsCall,
}
use tcp_fsm.Dispatcher.Invariant.{Invariant}
use tcp_fsm.Dispatcher.Invariant.Running.{run-Keeps}
use tcp_fsm.Dispatcher.Protocol.Accepting.{NeverNew}
use tcp_fsm.Dispatcher.Requests.{transcript, Accords, AccordsFrom, InOrder}
use tcp_fsm.Dispatcher.Requests.Sending.{do_send-Accords, call_false_cb-Accords}

module _ (p : Platform) (b s total : ℕ) (small : total < 2 ^ 31) (limited : SendsWithin p)
    (kept : NeverNew p b s) where
  create_connection-Accords :
      (j : ℕ) → Keeps (AccordsFrom b s total) (InOrder s total) (create_connection p j)
  unfolding create_connection transcript
  create_connection-Accords j w a = ground arith

  close_connection-Accords :
      (j : ℕ) → Keeps (AccordsFrom b s total) (InOrder s total) (close_connection p j)
  unfolding close_connection transcript
  close_connection-Accords j w a = ground arith

  connection_established-Accords :
      (j : ℕ) → Keeps (AccordsFrom b s total) (InOrder s total) (connection_established p j)
  unfolding connection_established transcript
  connection_established-Accords j w a = ground arith

  receive-Accords :
      (j : ℕ) (r : RecvResult) → Keeps (AccordsFrom b s total) (InOrder s total) (receive p j r)
  unfolding receive transcript
  receive-Accords j (received bytes) w a = unfold deliver in ground arith
  receive-Accords j recv_would_block w a = a
  receive-Accords j recv_failed w a = a

  do_recv-Accords : (j : ℕ) → Keeps (AccordsFrom b s total) (InOrder s total) (do_recv p j)
  unfolding do_recv
  do_recv-Accords j w a = ground (
    arith,
    receive-Accords j (p.recv w.calls (w.conns j).sock 65536) (record w { calls = w.calls + 1 })
        (ground arith),
  )

  admit_nonblocking-Kept :
      (sock : ℕ) (addr : SockAddr)
      → Keeps (Accords s total) (InOrder s total) (admit_nonblocking p sock addr)
  unfolding admit_nonblocking admit transcript
  admit_nonblocking-Kept sock addr w a = ground arith

  admit_nonblocking-Later :
      (sock : ℕ) (addr : SockAddr)
      → Keeps (λ v. b ≤ v.calls) (λ v. Unit {0}) (admit_nonblocking p sock addr)
  unfolding admit_nonblocking admit
  admit_nonblocking-Later sock addr w l = ground arith

  accept_result-Accords :
      (r : AcceptResult) → Keeps (AccordsFrom b s total) (InOrder s total) (accept_result p r)
  unfolding accept_result
  accept_result-Accords (accept_done sock addr) w a =
      Post-both (Accords s total) (λ v. b ≤ v.calls) (InOrder s total) (λ v. Unit {0})
        (admit_nonblocking p sock addr w) (admit_nonblocking-Kept sock addr w a.0)
        (admit_nonblocking-Later sock addr w a.1)
  accept_result-Accords accept_again w a = a
  accept_result-Accords accept_failed w a = a.0.in_order

  accept_on-Accords :
      (o : Option ℕ) → Keeps (AccordsFrom b s total) (InOrder s total) (accept_on p o)
  unfolding accept_on
  accept_on-Accords none w a = a.0.in_order
  accept_on-Accords (some sock) w a =
      accept_result-Accords (p.accept w.calls sock) (record w { calls = w.calls + 1 })
        (ground arith)

  accept_connection-Accords : Keeps (AccordsFrom b s total) (InOrder s total) (accept_connection p)
  unfolding accept_connection
  accept_connection-Accords w a = ground (arith, accept_on-Accords w.listening_socket w a)

  make_conn-Accords : Keeps (AccordsFrom b s total) (InOrder s total) (make_conn p)
  unfolding make_conn transcript
  make_conn-Accords w a = elim (Option-cases (p.socket w.calls)) [
    | inl e ↦ ground arith
    | inr (sock, e) ↦ ground arith
  ]

  connect_new-Accords :
      (ip port : ℕ) (cb : Callbacks)
      → Keeps (AccordsFrom b s total) (InOrder s total) (connect_new p ip port cb)
  unfolding connect_new transcript
  connect_new-Accords ip port cb w a = elim (Option-cases (p.socket w.calls)) [
    | inl e ↦ ground arith
    | inr (sock, e) ↦ ground arith
  ]

  send-Accords :
      (j : ℕ) (bytes : List ℕ) (cb : _)
      → Keeps (AccordsFrom b s total) (InOrder s total) (send p j bytes cb)
  unfolding send transcript
  send-Accords j bytes cb w a = ground (arith, kept w.calls a.1)

  send_plain-Accords :
      (j : ℕ) (bytes : List ℕ)
      → Keeps (AccordsFrom b s total) (InOrder s total) (send_plain p j bytes)
  unfolding send_plain transcript
  send_plain-Accords j bytes w a = ground (arith, kept w.calls a.1)

  post_close-Accords : (j : ℕ) → Keeps (AccordsFrom b s total) (InOrder s total) (post_close j)
  post_close-Accords j w a = ground arith

  perform-Accords :
      (x : Action)
      → IsCall x
      → Unit {0}
      → Keeps (AccordsFrom b s total) (InOrder s total) (perform p x)
  unfolding perform
  perform-Accords makes_conn c n w a =
      and_then-Post (AccordsFrom b s total) (InOrder s total) (make_conn p w) _
        (make_conn-Accords w a) λ _ v k. k
  perform-Accords (connects j ip port cb) c n w a = unfold connect transcript in ground arith
  perform-Accords (connects_new ip port cb) c n w a =
      and_then-Post (AccordsFrom b s total) (InOrder s total) (connect_new p ip port cb w) _
        (connect_new-Accords ip port cb w a) λ _ v k. k
  perform-Accords (sends j bytes cb) c n w a =
      and_then-Post (AccordsFrom b s total) (InOrder s total) (send p j bytes cb w) _
        (send-Accords j bytes cb w a) λ _ v k. k
  perform-Accords (sends_plain j bytes) c n w a =
      and_then-Post (AccordsFrom b s total) (InOrder s total) (send_plain p j bytes w) _
        (send_plain-Accords j bytes w a) λ _ v k. k
  perform-Accords (closes j) c n w a = unfold close_conn transcript in ground arith
  perform-Accords (closes_wait j) c n w a = unfold close_conn_wait transcript in ground arith
  perform-Accords (addrefs j) c n w a = unfold addref_conn transcript in ground arith
  perform-Accords (releases j) c n w a = unfold release_conn transcript in ground arith
  perform-Accords (releases_send j) c n w a = unfold release_send transcript in ground arith
  perform-Accords (breaks j) c n w a = unfold break_send_request transcript in ground arith
  perform-Accords (inits_break j) c n w a = unfold break_send_init transcript in ground arith
  perform-Accords stops_accepting c n w a = unfold stop_accepting transcript in ground arith
  perform-Accords shuts_down c n w a = unfold shut_down transcript in ground arith
  perform-Accords (sets_bandwidth mbps) c n w a = unfold set_bandwidth transcript in ground arith
  perform-Accords (rounds fuel waits) c n w a = elim c [ ]

  Accords-Invariant : Invariant p (AccordsFrom b s total) (InOrder s total) (λ _. Unit {0})
  unfolding transcript
  Accords-Invariant = record {
    handled = record {
      frame = λ w o c n le a. ground arith;
      popped = λ w m rest e a. ground arith;
      stopped = λ w a. ground arith;
      counted_up = λ w o a. ground arith;
      counted_down = λ w o a. ground arith;
      close_posted = post_close-Accords;
      created = create_connection-Accords;
      closed = close_connection-Accords;
      established = connection_established-Accords;
      received = do_recv-Accords;
      sent = do_send-Accords p b s total small limited;
      broken_off = call_false_cb-Accords p b s total small;
      accepts = accept_connection-Accords;
    };
    weaken = λ w a. a.0.in_order;
    polled = λ w r a. ground arith;
    called = perform-Accords;
  }

  any : (schedule : List Action) → All (λ _. Unit {0}) schedule
  any [] = tt
  any (x ∷ rest) = (tt, any rest)

  run-AccordsFrom :
      (schedule : List Action) → Keeps (AccordsFrom b s total) (InOrder s total) (run p schedule)
  run-AccordsFrom schedule =
      run-Keeps p (AccordsFrom b s total) (InOrder s total) (λ _. Unit {0}) Accords-Invariant
        schedule (any schedule)

-- Whatever the schedule, the bytes of a request go to the socket in the order of the buffer, each
-- once and with no gap, and its callback is called at most once, with `true` only when all bytes
-- are out. After a schedule that throws no exception `sent_bytes` is the number of bytes that went
-- out and at most the size of the request. The size is below 2^31, send(2) takes no more than it is
-- offered, and the allocator does not hand out the address of the request again after this state. Of
-- a run that faults nothing is said.
pub run-Accords :
    (p : Platform) (s total : ℕ)
    → total < 2 ^ 31
    → SendsWithin p
    → (schedule : List Action) (w : World) → NeverNew p w.calls s
    → Accords s total w
    → Post (Accords s total) (InOrder s total) (run p schedule w)
run-Accords p s total small limited schedule w kept a =
    Post-map (AccordsFrom w.calls s total) (InOrder s total) (Accords s total) (InOrder s total)
      (run p schedule w) (λ v m. m.0) (λ v m. m)
      (run-AccordsFrom p w.calls s total small limited kept schedule w (a, omega arith))
