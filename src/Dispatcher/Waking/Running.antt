-- ===== src/Dispatcher/Waking/Running.antt =====
-- No schedule leaves a message of tcp_dispatcher without its number in the pipe.
use tcp_fsm.Base.{
  true, ℕ, ◌+◌, ◌≤◌, ◌≡◌, ◌∙◌, List, [], ◌∷◌, none, Bool, false, not, ◌==◌, arith, inl, inr,
  Option-cases, Bool-cases, All, length,
}
use tcp_fsm.Messages
use tcp_fsm.Messages.{InternalMessage, InternalMessages}
use tcp_fsm.Platform.{Platform}
use tcp_fsm.Reactor
use tcp_fsm.Reactor.{
  InterruptInfo, EpollEvent, LinuxReactor, WaitResult, ready, interrupted, wait_failed, interrupts,
  translate_all,
}
use tcp_fsm.Reactor.Pending.{IsOnce, Polled, Wakes, wakes, wait-Polled}
use tcp_fsm.World.{World, pure, when}
use tcp_fsm.Monad.Post.{Post, Keeps, Post-map, and_then-Post, when-Keeps, if-Keeps}
use tcp_fsm.Dispatcher.Loop.{handle_internal, handle_all, is_nil, idle, serve, round}
use tcp_fsm.Dispatcher.Schedule.{Action, rounds, perform, step, run_from, run}
use tcp_fsm.Dispatcher.Invariant.Looping.{handle_message-Keeps, handle_all-Keeps, idle-Keeps}
use tcp_fsm.Dispatcher.Waking.{Holding, Woken, Ended}
use tcp_fsm.Dispatcher.Waking.Calling.{call-Woken}
use tcp_fsm.Dispatcher.Waking.Handling.{pop-length, Holding-Handled}

pop-none :
    (ms : List InternalMessage) → Messages.pop (record { messages = ms }) ≡ none → length ms ≡ 0
unfolding Messages.pop
pop-none [] e = omega arith
pop-none (m ∷ ms) e = cc

-- The events of each wait have the pipe at most once.
abbrev pub WaitsOnce : ℕ → Action → Type 0
WaitsOnce fd (rounds fuel waits) = All (IsOnce fd) waits
WaitsOnce fd _ = Unit {0}

module _ (p : Platform) where
  -- An internal interrupt takes one message, if there is one.
  handle_internal-Holding :
      (r : LinuxReactor) (n : ℕ) (w : World)
      → Holding r (n + 1) w
      → Post (Holding r n) Ended (handle_internal p w)
  unfolding handle_internal
  handle_internal-Holding r n w l = elim (Option-cases (Messages.pop w.i_messages)) [
    | inl e ↦ ground (arith, pop-none w.i_messages.messages e)
    | inr ((m, rest), e) ↦
        let popped : Holding r n (record w { i_messages = rest }) =
          ground (arith, pop-length w.i_messages rest m e) in
        ground (
          arith,
          handle_message-Keeps p (Holding r n) Ended (Holding-Handled p r n) m
              (record w { i_messages = rest }) popped,
        )
  ]

  -- The internal interrupt comes first.
  pub woken-Holding :
      (fuel n : ℕ) (r : LinuxReactor) (result : List (ℕ × InterruptInfo)) (w : World)
      → Wakes result
      → Holding r (n + 1) w
      → Post (Holding r n) Ended (handle_all p fuel result w)
  unfolding handle_all
  woken-Holding fuel n r [] w h l = absurd h
  woken-Holding fuel n r ((sock, info) ∷ rest) w h l = rw h (
      and_then-Post (Holding r n) Ended (handle_internal p w) _ (handle_internal-Holding r n w l)
        λ go_on.
          if-Keeps (Holding r n) Ended go_on (handle_all p fuel rest) (pure false)
            (handle_all-Keeps p (Holding r n) Ended (Holding-Handled p r n) fuel rest) (λ v k. k))

  module _ (fd : ℕ) where
    handled-Holding :
        (fuel k : ℕ) (r : LinuxReactor) (result : List (ℕ × InterruptInfo)) (w : World)
        → k ≤ 1
        → Polled k w.mr (r, result)
        → Woken fd w
        → Post
            (Holding r (length r.pipe + r.lost))
            Ended
            (handle_all p fuel result (record w { mr = r }))
    handled-Holding fuel k r result w once l h = elim (Bool-cases (k == 0)) [
      | inl quiet ↦
          handle_all-Keeps p (Holding r (length r.pipe + r.lost)) Ended
            (Holding-Handled p r (length r.pipe + r.lost)) fuel result (record w { mr = r })
            (ground (arith, l.bound, l.same_lost, h.enough))
      | inr there ↦
          woken-Holding fuel (length r.pipe + r.lost) r result (record w { mr = r })
            (l.told (ground arith)) (ground (arith, l.bound, l.same_lost, h.enough))
    ]

    interrupts-Woken :
        (fuel k : ℕ) (some_event : Bool) (r : LinuxReactor) (result : List (ℕ × InterruptInfo))
        (w : World)
        → k ≤ 1
        → Polled k w.mr (r, result)
        → Woken fd w
        → Post (Woken fd) Ended (serve p fuel (interrupts some_event r result) w)
    unfolding serve
    interrupts-Woken fuel k some_event r result w once l h =
        let n = length r.pipe + r.lost in
        Post-map (Holding r n) Ended (Woken fd) Ended _
          (λ v m. record {
            reads = rw m.reactor (l.same_fd ∙ h.reads);
            no_threads = rw m.reactor (l.same_threads ∙ h.no_threads);
            zeros = rw m.reactor l.zeros;
            enough = rw (← m.reactor) at m.few;
          })
          (λ v e. e)
          (and_then-Post (Holding r n) Ended (handle_all p fuel result (record w { mr = r })) _
            (handled-Holding fuel k r result w once l h)
            λ go_on v m.
              and_then-Post (Holding r n) Ended (when (is_nil result) (idle p) v) (λ _. pure go_on)
                (when-Keeps (Holding r n) Ended (is_nil result) (idle p)
                  (idle-Keeps p (Holding r n) Ended (Holding-Handled p r n)) v m)
                (λ _ u o. o))

    serve-Woken :
        (fuel : ℕ) (sock_of : ℕ → ℕ) (waits : List WaitResult) (w : World)
        → All (IsOnce fd) waits
        → Woken fd w
        → Post (Woken fd) Ended (serve p fuel (Reactor.get_interrupt sock_of waits w.mr []) w)
    unfolding serve Reactor.get_interrupt
    serve-Woken fuel sock_of [] w once h = h
    serve-Woken fuel sock_of (interrupted ∷ waits) w once h =
        serve-Woken fuel sock_of waits w once.1 h
    serve-Woken fuel sock_of (wait_failed ∷ waits) w once h = tt
    serve-Woken fuel sock_of (ready es ∷ waits) w once h =
        let s = translate_all sock_of es (w.mr, []) in
        interrupts-Woken fuel (wakes w.mr.pipe_fd es) (not (Reactor.is_nil es)) s.0 s.1 w
          (rw h.reads once.0) (wait-Polled sock_of es w.mr h.zeros) h

    pub step-Woken :
        (alive : Bool) (a : Action) → WaitsOnce fd a → Keeps (Woken fd) Ended (step p alive a)
    unfolding step round
    step-Woken alive (rounds fuel waits) once w h =
        if-Keeps (Woken fd) Ended alive (round p fuel waits) (pure false)
          (λ v. serve-Woken fuel (λ j. (v.conns j).sock) waits v once) (λ v k. k) w h
    step-Woken alive a once w h =
        and_then-Post (Woken fd) Ended (perform p a w) (λ _. pure alive) (call-Woken fd p a tt w h)
          λ _ v k. k

    run_from-Woken :
        (schedule : List Action) (alive : Bool)
        → All (WaitsOnce fd) schedule
        → Keeps (Woken fd) Ended (run_from p alive schedule)
    unfolding run_from
    run_from-Woken [] alive once w h = h
    run_from-Woken (a ∷ rest) alive once w h =
        and_then-Post (Woken fd) Ended (step p alive a w) _ (step-Woken alive a once.0 w h)
          λ on. run_from-Woken rest on once.1

    -- Every schedule keeps it that the messages in the queue are at most as many as the numbers in the
    -- pipe and the writes that have failed on the full pipe together, and that the numbers are zeros: a
    -- message stands without a number that wakes the thread for it only where a write has failed. The
    -- pipe holds a bounded number of numbers; a method's push and its write are one step, and the thread
    -- has no more rounds after _P_EXIT. The events of a wait have the pipe at most once. Of a run that
    -- throws or faults, which ends the program, nothing is said.
    pub run-Woken :
        (schedule : List Action)
        → All (WaitsOnce fd) schedule
        → Keeps (Woken fd) Ended (run p schedule)
    unfolding run
    run-Woken schedule once = run_from-Woken schedule true once
