-- ===== src/Biocp/Invariant/Running.antt =====
-- Every schedule of tcp_dispatcher_biocp keeps every invariant.
use tcp_fsm.Base.{◌+◌, true, false, Bool, List, [], ◌∷◌, arith, All}
use tcp_fsm.Completion.{Packet}
use tcp_fsm.Monad.{Answer, done, thrown, fault, and_then, try_catch, modify, ◌>>=◌}
use tcp_fsm.Monad.Post.{Post, Keeps, and_then-Post, when-Post}
use tcp_fsm.Biocp.State.{Calls, BiocpWorld}
use tcp_fsm.Biocp.Loop.{Overlapped, stop_hearing, round, on_exception, serve}
use tcp_fsm.Biocp.Schedule.{Action, serves, perform, run}
use tcp_fsm.Biocp.Invariant.{Invariant}
use tcp_fsm.Biocp.Invariant.Looping.{round-Keeps}

module _ (p : Calls) (P Q R : BiocpWorld → Type 0) (Allowed : Action → Type 0)
    (inv : Invariant p P Q R Allowed) where
  -- After an exception the thread wakes the listening thread, and ends.
  ends :
      (w : BiocpWorld) (r : Answer BiocpWorld Bool)
      → Post P Q r
      → Post R R (
          and_then
            (try_catch (λ _. r) (on_exception p) w)
            (λ go_on. modify (λ v. record v { running = go_on })))
  unfolding on_exception stop_hearing
  ends w (done true v) l = inv.leave v l
  ends w (done false v) l = inv.ended v (inv.weaken v l)
  ends w (thrown v) l = ground (
    arith,
    inv.ended (record v { calls = v.calls + 1 + 1 }) (inv.called_on v (v.calls + 1 + 1) l),
  )
  ends w fault l = tt

  serve-Keeps : (k : Packet) (ov : Overlapped) → Keeps R R (serve p k ov)
  unfolding serve
  serve-Keeps k ov w l =
      when-Post R R w.running
        (try_catch (round p k ov) (on_exception p) >>= λ go_on.
          modify λ v. record v { running = go_on })
        w
        (λ on. ends w (round p k ov w) (round-Keeps p P Q R Allowed inv k ov w (inv.enter w l on)))
        l

  perform-Keeps : (a : Action) → Allowed a → Keeps R R (perform p a)
  unfolding perform
  perform-Keeps (serves k ov) ok w l = serve-Keeps k ov w l
  perform-Keeps a ok w l = inv.called a tt ok w l

  pub run-Keeps : (schedule : List Action) → All Allowed schedule → Keeps R R (run p schedule)
  unfolding run
  run-Keeps [] a w l = l
  run-Keeps (x ∷ rest) a w l =
      and_then-Post R R (perform p x w) _ (perform-Keeps x a.0 w l) λ _ v k. run-Keeps rest a.1 v k
