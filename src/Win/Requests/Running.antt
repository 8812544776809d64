-- ===== src/Win/Requests/Running.antt =====
-- Every schedule of win_tcp_dispatcher answers a request at most once.
use tcp_fsm.Base.{ℕ, List, [], ◌∷◌, arith, All}
use tcp_fsm.Monad.Post.{Post, Keeps}
use tcp_fsm.Win.State.{Windows, WinWorld}
use tcp_fsm.Win.Loop.{post_close}
use tcp_fsm.Win.Schedule.{Action, run}
use tcp_fsm.Win.Invariant.{Invariant}
use tcp_fsm.Win.Invariant.Running.{run-Keeps}
use tcp_fsm.Win.Protocol.{NeverNew}
use tcp_fsm.Win.Requests.{report_on, Reported, Honest, Answered}
use tcp_fsm.Win.Requests.Handling.{
  close_connection-Reported, call_false_cb-Reported, complete_send-Reported, do_send-Reported,
  create-Reported, complete_recv-Reported, complete_connect-Reported, complete_accept-Reported,
}
use tcp_fsm.Win.Requests.Calling.{perform-Answered}

module _ (p : Windows) (s total : ℕ) (kept : NeverNew p s) where
  post_close-Reported : (j : ℕ) → Keeps (Reported s total) (Honest s total) (post_close j)
  post_close-Reported j w l = ground arith

  Answered-Invariant :
      Invariant p (Reported s total) (Honest s total) (Answered s total) (λ a. Unit {0})
  unfolding report_on
  Answered-Invariant = record {
    weaken = λ w l. l.honest;
    enter = λ w l e. l.running e;
    leave = λ w l. ground arith;
    ended = λ w l. ground arith;
    frame = λ w q b size n conns sends l. ground arith;
    freed = λ w l. ground arith;
    stopped = λ w l. ground arith;
    counted_down = λ w o l. ground arith;
    guessed = λ w j g l. ground arith;
    close_posted = post_close-Reported;
    closed = close_connection-Reported p s total;
    sent = do_send-Reported p s total;
    broken_off = call_false_cb-Reported p s total;
    created = create-Reported p s total;
    received = complete_recv-Reported p s total;
    was_sent = complete_send-Reported p s total;
    connected = complete_connect-Reported p s total;
    accepts = complete_accept-Reported p s total;
    called = λ a c ok. perform-Answered p s total kept a c;
  }

  any : (schedule : List Action) → All (λ a. Unit {0}) schedule
  any [] = tt
  any (a ∷ rest) = (tt, any rest)

  -- Under every schedule from a state that agrees with the log, the callback of a request is called
  -- at most once, and with `true` only when the completions of its sends have brought sent_bytes to
  -- total_bytes; while the thread is in its loop, sent_bytes is where the last completion came to and
  -- a callback that was called is gone. The allocator does not hand out the address of the request
  -- again. Of a run that faults nothing is said.
  pub run-Answered :
      (schedule : List Action) (w : WinWorld)
      → Answered s total w
      → Post (Answered s total) (Answered s total) (run p schedule w)
  run-Answered schedule w l =
      run-Keeps p (Reported s total) (Honest s total) (Answered s total) (λ a. Unit {0})
        Answered-Invariant schedule (any schedule) w l
