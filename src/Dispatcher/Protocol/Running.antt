-- ===== src/Dispatcher/Protocol/Running.antt =====
-- Every schedule keeps the order of callbacks.
use tcp_fsm.Base.{ℕ, ◌+◌, ◌≢◌, List, arith, All, inl, inr, Option-cases}
use tcp_fsm.Connection.{Callbacks}
use tcp_fsm.Lifecycle.Traces.{Traced, TracedAt, life-Traced, life-TracedAt}
use tcp_fsm.Platform.{Platform}
use tcp_fsm.World.{World}
use tcp_fsm.Monad.Post.{Post, Keeps, and_then-Post, Post-map}
use tcp_fsm.Dispatcher.Protocol.{life, Lawful, LawfulFrom, Unbroken}
use tcp_fsm.Dispatcher.Api.{
  make_conn, connect, connect_new, send, send_plain, close_conn, close_conn_wait, addref_conn,
  release_conn, release_send, stop_accepting, set_bandwidth, break_send_request, break_send_init,
  shut_down,
}
use tcp_fsm.Dispatcher.Schedule.{
  Action, makes_conn, connects, connects_new, sends, sends_plain, closes, closes_wait, addrefs,
  releases, releases_send, breaks, inits_break, stops_accepting, shuts_down, sets_bandwidth, rounds,
  perform, run, IsCall,
}
use tcp_fsm.Dispatcher.Protocol.Accepting.{NeverNew, accept_connection-Lawful}
use tcp_fsm.Dispatcher.Loop.{post_close}
use tcp_fsm.Dispatcher.Invariant.{Invariant}
use tcp_fsm.Dispatcher.Invariant.Running.{run-Keeps}
use tcp_fsm.Dispatcher.Protocol.Closing.{
  create_connection-Lawful, close_connection-Lawful, connection_established-Lawful,
}
use tcp_fsm.Dispatcher.Protocol.Sending.{do_recv-Lawful, do_send-Lawful, call_false_cb-Lawful}

-- `connect(conn, …)` is not called on `h` any more.
abbrev pub NotConnecting : ℕ → Action → Type 0
NotConnecting h (connects j ip port cb) = j ≢ h
NotConnecting h _ = Unit {0}

module _ (p : Platform) (b h : ℕ) (real : h ≢ 0) (kept : NeverNew p b h) where
  make_conn-Lawful : Keeps (LawfulFrom b h) (Unbroken h) (make_conn p)
  unfolding make_conn life
  make_conn-Lawful w l = elim (Option-cases (p.socket w.calls)) [
    | inl e ↦ ground arith
    | inr (sock, e) ↦ ground (arith, kept (w.calls + 1 + 1) (omega arith))
  ]

  post_close-Lawful : (j : ℕ) → Keeps (LawfulFrom b h) (Unbroken h) (post_close j)
  post_close-Lawful j w l = ground arith

  connect_new-Lawful :
      (ip port : ℕ) (cb : Callbacks)
      → Keeps (LawfulFrom b h) (Unbroken h) (connect_new p ip port cb)
  unfolding connect_new life
  connect_new-Lawful ip port cb w l = elim (Option-cases (p.socket w.calls)) [
    | inl e ↦ ground arith
    | inr (sock, e) ↦ ground (arith, kept (w.calls + 1 + 1 + 1) (omega arith))
  ]

  perform-Lawful :
      (a : Action)
      → IsCall a
      → NotConnecting h a
      → Keeps (LawfulFrom b h) (Unbroken h) (perform p a)
  unfolding perform
  perform-Lawful makes_conn c n w l =
      and_then-Post (LawfulFrom b h) (Unbroken h) (make_conn p w) _ (make_conn-Lawful w l)
        λ _ v m. m
  perform-Lawful (connects j ip port cb) c n w l = unfold connect life in ground arith
  perform-Lawful (connects_new ip port cb) c n w l =
      and_then-Post (LawfulFrom b h) (Unbroken h) (connect_new p ip port cb w) _
        (connect_new-Lawful ip port cb w l) λ _ v m. m
  perform-Lawful (sends j bytes cb) c n w l = unfold send life in ground arith
  perform-Lawful (sends_plain j bytes) c n w l = unfold send_plain life in ground arith
  perform-Lawful (closes j) c n w l = unfold close_conn life in ground arith
  perform-Lawful (closes_wait j) c n w l = unfold close_conn_wait life in ground arith
  perform-Lawful (addrefs j) c n w l = unfold addref_conn life in ground arith
  perform-Lawful (releases j) c n w l = unfold release_conn life in ground arith
  perform-Lawful (releases_send s) c n w l = unfold release_send life in ground arith
  perform-Lawful (breaks s) c n w l = unfold break_send_request life in ground arith
  perform-Lawful (inits_break s) c n w l = unfold break_send_init life in ground arith
  perform-Lawful stops_accepting c n w l = unfold stop_accepting life in ground arith
  perform-Lawful shuts_down c n w l = unfold shut_down life in ground arith
  perform-Lawful (sets_bandwidth n') c n w l = unfold set_bandwidth life in ground arith
  perform-Lawful (rounds fuel waits) c n w l = elim c [ ]

  Lawful-Unbroken : (w : World) → LawfulFrom b h w → Unbroken h w
  Lawful-Unbroken w l = ground arith

  pub Lawful-Invariant : Invariant p (LawfulFrom b h) (Unbroken h) (NotConnecting h)
  unfolding life
  Lawful-Invariant = record {
    handled = record {
      frame = λ w o c n le l. ground arith;
      popped = λ w m rest e l. l;
      stopped = λ w l. l;
      counted_up = λ w o l. l;
      counted_down = λ w o l. l;
      close_posted = post_close-Lawful;
      created = create_connection-Lawful p b h;
      closed = close_connection-Lawful p b h;
      established = connection_established-Lawful p b h real;
      received = do_recv-Lawful p b h;
      sent = do_send-Lawful p b h;
      broken_off = call_false_cb-Lawful p b h;
      accepts = accept_connection-Lawful p b h kept;
    };
    weaken = Lawful-Unbroken;
    polled = λ w r l. l;
    called = perform-Lawful;
  }

  -- The callbacks of a connection come in the order that the interface promises, whatever the
  -- schedule: connected() with the connection at most once and only before it was closed or refused,
  -- closed() at most once and only after it was connected or accepted, connected(null) only where it
  -- was neither connected nor accepted, and none of these, accepted() or read() after closed() or
  -- connected(null). After a schedule that throws no exception the state says where in this order the
  -- connection is. The schedule does not call connect() on the connection again, and the calls of the
  -- platform from the one numbered `b` on do not hand its address out. Of a run that faults nothing is said.
  pub run-Lawful :
      (schedule : List Action)
      → All (NotConnecting h) schedule
      → (w : World) → LawfulFrom b h w
      → Post (LawfulFrom b h) (Unbroken h) (run p schedule w)
  run-Lawful schedule a w l =
      run-Keeps p (LawfulFrom b h) (Unbroken h) (NotConnecting h) Lawful-Invariant schedule a w l

-- After every schedule from a state in order the callbacks of a connection of tcp_dispatcher are a
-- trace of the steps that the interface allows: connected() or accepted() at most once,
-- connected(null) only in place of them and as the last, closed() only after them and as the last,
-- read() only before the last of these. Where no exception left the thread, the trace ends at
-- a point that agrees with the state of the connection. The schedule does not call connect() on the
-- connection again, and the allocator does not hand out its address again after this state. Of a run
-- that faults nothing is said.
pub run-Trace :
    (p : Platform) (h : ℕ)
    → h ≢ 0
    → (schedule : List Action) → All (NotConnecting h) schedule
    → (w : World) → Lawful h w
    → NeverNew p w.calls h
    → Post
        (λ v. TracedAt h v.log (v.conns h).state (v.conns h).cbs)
        (λ v. Traced h v.log)
        (run p schedule w)
run-Trace p h real schedule a w l kept =
    Post-map (LawfulFrom w.calls h) (Unbroken h)
      (λ v. TracedAt h v.log (v.conns h).state (v.conns h).cbs) (λ v. Traced h v.log)
      (run p schedule w) (λ v m. life-TracedAt h v.log (v.conns h).state (v.conns h).cbs m.0)
      (λ v. life-Traced h v.log) (run-Lawful p w.calls h real kept schedule a w (l, omega arith))
