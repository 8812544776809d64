-- ===== src/Win/Protocol/Running.antt =====
-- Every schedule of win_tcp_dispatcher keeps the order of callbacks.
use tcp_fsm.Base.{ℕ, ◌≡◌, ◌≢◌, true, List, arith, All}
use tcp_fsm.Lifecycle.Traces.{Traced, TracedAt, life-Traced, life-TracedAt}
use tcp_fsm.Monad.{update}
use tcp_fsm.Monad.Post.{Post, Keeps, Post-map}
use tcp_fsm.Win.State.{Windows, WinWorld}
use tcp_fsm.Win.Loop.{post_close}
use tcp_fsm.Win.Schedule.{Action, run}
use tcp_fsm.Win.Invariant.{Invariant}
use tcp_fsm.Win.Invariant.Running.{run-Keeps}
use tcp_fsm.Win.Protocol.{life, InLife, InOrder, Ordered, NeverNew}
use tcp_fsm.Win.Protocol.Closing.{close_connection-InLife}
use tcp_fsm.Win.Protocol.Transferring.{
  do_send-InLife, call_false_cb-InLife, complete_recv-InLife, complete_send-InLife,
}
use tcp_fsm.Win.Protocol.Accepting.{create-InLife, complete_connect-InLife, complete_accept-InLife}
use tcp_fsm.Win.Protocol.Calling.{NotConnecting, perform-Ordered}

abbrev pub Followed : ℕ → WinWorld → Type 0
Followed h w =
    (w.running ≡ true → TracedAt h w.log (w.conn_at h).state (w.conn_at h).cbs) × Traced h w.log

module _ (p : Windows) (h : ℕ) (real : h ≢ 0) (kept : NeverNew p h) where
  InLife-InOrder : (w : WinWorld) → InLife h w → InOrder h w
  InLife-InOrder w l = ground arith

  post_close-InLife : (j : ℕ) → Keeps (InLife h) (InOrder h) (post_close j)
  post_close-InLife j w l = ground arith

  guessed-InLife :
      (w : WinWorld) (j g : ℕ)
      → InLife h w
      → InLife h (record w { conn_at = update w.conn_at j (record (w.conn_at j) { guess = g }) })
  guessed-InLife w j g l = ground arith

  Ordered-Invariant : Invariant p (InLife h) (InOrder h) (Ordered h) (NotConnecting h)
  unfolding life
  Ordered-Invariant = record {
    weaken = InLife-InOrder;
    enter = λ w l e. l.0 e;
    leave = λ w l. ((λ _. l), InLife-InOrder w l);
    ended = λ w l. ((λ e. cc), l);
    frame = λ w q b size n conns sends l. l;
    freed = λ w l. l;
    stopped = λ w l. l;
    counted_down = λ w o l. l;
    guessed = guessed-InLife;
    close_posted = post_close-InLife;
    closed = close_connection-InLife p h;
    sent = do_send-InLife p h;
    broken_off = call_false_cb-InLife p h;
    created = create-InLife p h;
    received = complete_recv-InLife p h;
    was_sent = complete_send-InLife p h;
    connected = complete_connect-InLife p h real;
    accepts = complete_accept-InLife p h kept;
    called = perform-Ordered p h kept;
  }

  Ordered-Followed : (w : WinWorld) → Ordered h w → Followed h w
  Ordered-Followed w l = (
    (λ on. life-TracedAt h w.log (w.conn_at h).state (w.conn_at h).cbs (l.0 on)),
    life-Traced h w.log l.1,
  )

  run-Ordered :
      (schedule : List Action)
      → All (NotConnecting h) schedule
      → (w : WinWorld) → Ordered h w
      → Post (Ordered h) (Ordered h) (run p schedule w)
  run-Ordered schedule a w l =
      run-Keeps p (InLife h) (InOrder h) (Ordered h) (NotConnecting h) Ordered-Invariant schedule a
        w l

  -- After every schedule of win_tcp_dispatcher from a state in order the callbacks of a connection are a
  -- trace of the steps that the interface allows: connected() or accepted() at most once,
  -- connected(null) only in place of them and as the last, closed() only after them and as the last,
  -- read() only before the last of these. While the thread is in its loop, the trace ends at a
  -- point that agrees with the state of the connection, also when a call has thrown. The schedule does
  -- not call connect() on the connection again, and the allocator does not hand out its address again.
  -- Of a run that faults nothing is said.
  pub serves-Trace :
      (schedule : List Action)
      → All (NotConnecting h) schedule
      → (w : WinWorld) → Ordered h w
      → Post (Followed h) (Followed h) (run p schedule w)
  serves-Trace schedule a w l =
      Post-map (Ordered h) (Ordered h) (Followed h) (Followed h) (run p schedule w)
        (λ v. Ordered-Followed v) (λ v. Ordered-Followed v) (run-Ordered schedule a w l)
