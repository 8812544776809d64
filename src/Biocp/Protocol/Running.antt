-- ===== src/Biocp/Protocol/Running.antt =====
-- Every schedule of tcp_dispatcher_biocp keeps the order of callbacks.
use tcp_fsm.Base.{ℕ, ◌≡◌, ◌≢◌, true, List, arith, All}
use tcp_fsm.Lifecycle.Traces.{Traced, TracedAt, life-Traced, life-TracedAt}
use tcp_fsm.Monad.Post.{Post, Keeps, Post-map}
use tcp_fsm.Biocp.State.{Calls, BiocpWorld}
use tcp_fsm.Biocp.Loop.{Overlapped, of_recv, of_send, store, post_close}
use tcp_fsm.Biocp.Schedule.{Action, run}
use tcp_fsm.Biocp.Protocol.{life, InLife, InOrder, Ordered, NeverNew}
use tcp_fsm.Biocp.Protocol.Calling.{NotConnecting, perform-Ordered}
use tcp_fsm.Biocp.Protocol.Handling.{
  close_connection-InLife, call_false_cb-InLife, send_request-InLife, send_complete-InLife,
  recv_complete-InLife,
}
use tcp_fsm.Biocp.Protocol.Accepting.{
  create_connection-InLife, connection_established-InLife, accept_connection-InLife,
}
use tcp_fsm.Biocp.Invariant.{Invariant}
use tcp_fsm.Biocp.Invariant.Running.{run-Keeps}
use tcp_fsm.Completion.{Request}

abbrev pub Followed : ℕ → BiocpWorld → Type 0
Followed h w =
    (w.running ≡ true → TracedAt h w.log (w.conn_at h).state (w.conn_at h).cbs) × Traced h w.log

module _ (p : Calls) (h : ℕ) (real : h ≢ 0) (kept : NeverNew p h) where
  InLife-InOrder : (w : BiocpWorld) → InLife h w → InOrder h w
  InLife-InOrder w l = ground arith

  post_close-InLife : (j : ℕ) → Keeps (InLife h) (InOrder h) (post_close j)
  post_close-InLife j w l = ground arith

  store-InLife : (ov : Overlapped) (q : Request) → Keeps (InLife h) (InOrder h) (store ov q)
  unfolding store
  store-InLife (of_recv r) q w l = l
  store-InLife (of_send s) q w l = l

  Ordered-Invariant : Invariant p (InLife h) (InOrder h) (Ordered h) (NotConnecting h)
  unfolding life
  Ordered-Invariant = record {
    weaken = InLife-InOrder;
    enter = λ w l e. l.0 e;
    leave = λ w l. ((λ _. l), InLife-InOrder w l);
    ended = λ w l. ((λ e. cc), l);
    frame = λ w q n conns recvs sends l. l;
    called_on = λ w n l. l;
    stopped = λ w l. l;
    counted_up = λ w o l. l;
    counted_down = λ w o l. l;
    close_posted = post_close-InLife;
    stored = store-InLife;
    closed = close_connection-InLife p h;
    requested = send_request-InLife p h;
    broken_off = call_false_cb-InLife p h;
    created = create_connection-InLife p h;
    received = recv_complete-InLife p h;
    was_sent = send_complete-InLife p h;
    established = connection_established-InLife p h real;
    accepts = accept_connection-InLife p h kept;
    called = perform-Ordered p h kept;
  }

  Ordered-Followed : (w : BiocpWorld) → Ordered h w → Followed h w
  Ordered-Followed w l = (
    (λ on. life-TracedAt h w.log (w.conn_at h).state (w.conn_at h).cbs (l.0 on)),
    life-Traced h w.log l.1,
  )

  -- After every schedule of tcp_dispatcher_biocp from a state in order, with its two threads
  -- interleaved in any way, the callbacks of a connection are a
  -- trace of the steps that the interface allows: connected() or accepted() at most once,
  -- connected(null) only in place of them and as the last, closed() only after them and as the last,
  -- read() only before the last of these. While the dispatcher's thread is in its loop, the trace
  -- ends at a point that agrees with the state of the connection. The schedule does not call connect()
  -- on the connection again, and the allocator does not hand out its address again. Of a run that
  -- faults nothing is said.
  pub threads-Trace :
      (schedule : List Action)
      → All (NotConnecting h) schedule
      → (w : BiocpWorld) → Ordered h w
      → Post (Followed h) (Followed h) (run p schedule w)
  threads-Trace schedule a w l =
      Post-map (Ordered h) (Ordered h) (Followed h) (Followed h) (run p schedule w)
        (λ v. Ordered-Followed v) (λ v. Ordered-Followed v)
        (run-Keeps p (InLife h) (InOrder h) (Ordered h) (NotConnecting h) Ordered-Invariant schedule
          a w l)
