-- ===== src/Dispatcher/Invariant/Running.antt =====
-- Every schedule keeps every invariant.
use tcp_fsm.Base.{ℕ, Bool, true, false, List, [], ◌∷◌, All}
use tcp_fsm.Platform.{Platform}
use tcp_fsm.World.{World, pure, when}
use tcp_fsm.Monad.Post.{Keeps, and_then-Post, when-Keeps, if-Keeps}
use tcp_fsm.Dispatcher.Loop.{handle_all, is_nil, idle, serve, round}
use tcp_fsm.Reactor
use tcp_fsm.Reactor.{WaitResult, Interrupts, interrupts, failed, waiting}
use tcp_fsm.Dispatcher.Schedule.{Action, rounds, perform, step, run_from, run}
use tcp_fsm.Dispatcher.Invariant.{Invariant}
use tcp_fsm.Dispatcher.Invariant.Looping.{handle_all-Keeps, idle-Keeps}

module _ (p : Platform) (P Q : World → Type 0) (Allowed : Action → Type 0)
    (inv : Invariant p P Q Allowed) where
  serve-Keeps : (fuel : ℕ) (i : Interrupts) → Keeps P Q (serve p fuel i)
  unfolding serve
  serve-Keeps fuel failed w l = inv.weaken w l
  serve-Keeps fuel waiting w l = l
  serve-Keeps fuel (interrupts _ r result) w l =
      and_then-Post P Q (handle_all p fuel result (record w { mr = r })) _
        (handle_all-Keeps p P Q inv.handled fuel result _ (inv.polled w r l))
        λ go_on v k.
          and_then-Post P Q (when (is_nil result) (idle p) v) (λ _. pure go_on)
            (when-Keeps P Q (is_nil result) (idle p) (idle-Keeps p P Q inv.handled) v k)
            (λ _ u m. m)

  round-Keeps : (fuel : ℕ) (waits : List WaitResult) → Keeps P Q (round p fuel waits)
  unfolding round
  round-Keeps fuel waits w l =
      serve-Keeps fuel (Reactor.get_interrupt (λ j. (w.conns j).sock) waits w.mr []) w l

  step-Keeps : (alive : Bool) (a : Action) → Allowed a → Keeps P Q (step p alive a)
  unfolding step
  step-Keeps alive (rounds fuel waits) ok w l =
      if-Keeps P Q alive (round p fuel waits) (pure false) (round-Keeps fuel waits) (λ v k. k) w l
  step-Keeps alive a ok w l =
      and_then-Post P Q (perform p a w) (λ _. pure alive) (inv.called a tt ok w l) λ _ v k. k

  run_from-Keeps :
      (schedule : List Action) (alive : Bool)
      → All Allowed schedule
      → Keeps P Q (run_from p alive schedule)
  unfolding run_from
  run_from-Keeps [] alive a w l = l
  run_from-Keeps (x ∷ rest) alive a w l =
      and_then-Post P Q (step p alive x w) _ (step-Keeps alive x a.0 w l)
        λ on v k. run_from-Keeps rest on a.1 v k

  pub run-Keeps : (schedule : List Action) → All Allowed schedule → Keeps P Q (run p schedule)
  unfolding run
  run-Keeps schedule a = run_from-Keeps schedule true a
