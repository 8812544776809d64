-- ===== src/Biocp/Requests/Running.antt =====
-- Every schedule of tcp_dispatcher_biocp answers a request at most once.
use tcp_fsm.Base.{ℕ, List, [], ◌∷◌, arith, All}
use tcp_fsm.Completion.{Request}
use tcp_fsm.Monad.Post.{Post, Keeps}
use tcp_fsm.Biocp.State.{Calls, BiocpWorld}
use tcp_fsm.Biocp.Loop.{Overlapped, of_recv, of_send, store, post_close}
use tcp_fsm.Biocp.Schedule.{Action, run}
use tcp_fsm.Biocp.Invariant.{Invariant}
use tcp_fsm.Biocp.Invariant.Running.{run-Keeps}
use tcp_fsm.Biocp.Protocol.{NeverNew}
use tcp_fsm.Biocp.Requests.{report_on, Reported, Honest, Answered}
use tcp_fsm.Biocp.Requests.Handling.{
  close_connection-Reported, call_false_cb-Reported, send_request-Reported, send_complete-Reported,
  recv_complete-Reported,
}
use tcp_fsm.Biocp.Requests.Accepting.{
  create_connection-Reported, connection_established-Reported, accept_connection-Reported,
}
use tcp_fsm.Biocp.Requests.Calling.{perform-Answered}

module _ (p : Calls) (s total : ℕ) (kept : NeverNew p s) where
  post_close-Reported : (j : ℕ) → Keeps (Reported s total) (Honest s total) (post_close j)
  post_close-Reported j w l = ground arith

  store-Reported :
      (ov : Overlapped) (q : Request) → Keeps (Reported s total) (Honest s total) (store ov q)
  unfolding store
  store-Reported (of_recv r) q w l = ground arith
  store-Reported (of_send j) q w l = ground arith

  Answered-Invariant :
      Invariant p (Reported s total) (Honest s total) (Answered s total) (λ a. Unit {0})
  unfolding report_on
  Answered-Invariant = record {
    weaken = λ w l. l.honest;
    enter = λ w l e. l.running e;
    leave = λ w l. ground arith;
    ended = λ w l. ground arith;
    frame = λ w q n conns recvs sends l. ground arith;
    called_on = λ w n l. l;
    stopped = λ w l. ground arith;
    counted_up = λ w o l. ground arith;
    counted_down = λ w o l. ground arith;
    close_posted = post_close-Reported;
    stored = store-Reported;
    closed = close_connection-Reported p s total;
    requested = send_request-Reported p s total;
    broken_off = call_false_cb-Reported p s total;
    created = create_connection-Reported p s total;
    received = recv_complete-Reported p s total;
    was_sent = send_complete-Reported p s total;
    established = connection_established-Reported p s total;
    accepts = accept_connection-Reported p s total;
    called = λ a c ok. perform-Answered p s total kept a c;
  }

  any : (schedule : List Action) → All (λ a. Unit {0}) schedule
  any [] = tt
  any (a ∷ rest) = (tt, any rest)

  -- Under every schedule of tcp_dispatcher_biocp from a state that agrees with the log, with its two
  -- threads interleaved in any way, the callback of a request is called at most once, and with `true`
  -- only when the sent_bytes of its last completion are at least its total_bytes; while the
  -- dispatcher's thread is in its loop, a callback that was called is gone. The allocator does not hand
  -- out the address of the request again. Of a run that faults nothing is said.
  pub threads-Answered :
      (schedule : List Action) (w : BiocpWorld)
      → Answered s total w
      → Post (Answered s total) (Answered s total) (run p schedule w)
  threads-Answered schedule w l =
      run-Keeps p (Reported s total) (Honest s total) (Answered s total) (λ a. Unit {0})
        Answered-Invariant schedule (any schedule) w l
