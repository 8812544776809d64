-- ===== src/Dispatcher/Waking/Draining.antt =====
-- The rounds of tcp_dispatcher that the pipe wakes empty its queue.
use tcp_fsm.Base.{ℕ, ◌+◌, ◌≤◌, ◌≡◌, refl, List, [], ◌∷◌, true, false, not, Bool, arith, length, All}
use tcp_fsm.Messages.{InternalMessage}
use tcp_fsm.Platform.{Platform}
use tcp_fsm.Reactor
use tcp_fsm.Reactor.{InterruptInfo, EpollEvent, LinuxReactor, ready, interrupts, translate_all}
use tcp_fsm.Reactor.Pending.{Wakes, wakes, wait-Polled}
use tcp_fsm.World.{World, M, Result, done, thrown, fault, pure, and_then, when}
use tcp_fsm.Monad.Post.{Post, Post-map, Post-both, and_then-Post, when-Keeps}
use tcp_fsm.Dispatcher.Loop.{handle_all, is_nil, idle, serve, round}
use tcp_fsm.Dispatcher.Schedule.{Action, rounds, step, run_from, run}
use tcp_fsm.Dispatcher.Invariant.Looping.{idle-Keeps}
use tcp_fsm.Dispatcher.Waking.{Holding, Woken, Ended}
use tcp_fsm.Dispatcher.Waking.Handling.{Holding-Handled}
use tcp_fsm.Dispatcher.Waking.Running.{woken-Holding, step-Woken}

-- At most `n` messages wait.
abbrev pub AtMost : ℕ → World → Type 0
AtMost n w = length w.i_messages.messages ≤ n

-- A thread that is still in its loop has an empty queue.
abbrev pub Drained : Result Bool → Type 0
Drained (done alive w) = alive ≡ true → w.i_messages.messages ≡ []
Drained (thrown w) = Unit {0}
Drained fault = Unit {0}

and_then-Drained :
    {A : Type 0} (P : World → Type 0) (r : Result A) (k : A → M Bool)
    → Post P Ended r
    → ((a : A) (w : World) → P w → Drained (k a w))
    → Drained (and_then r k)
and_then-Drained P (done a w) k h hk = hk a w h
and_then-Drained P (thrown w) k h hk = tt
and_then-Drained P fault k h hk = tt

module _ (p : Platform) where
  woken-AtMost :
      (fuel n : ℕ) (some_event : Bool) (r : LinuxReactor) (result : List (ℕ × InterruptInfo))
      (w : World)
      → Wakes result
      → AtMost (n + 1) w
      → Post (AtMost n) Ended (serve p fuel (interrupts some_event r result) w)
  unfolding serve
  woken-AtMost fuel n some_event r result w there few =
      Post-map (Holding r n) Ended (AtMost n) Ended _ (λ v m. m.few) (λ v e. e)
        (and_then-Post (Holding r n) Ended (handle_all p fuel result (record w { mr = r })) _
          (woken-Holding p fuel n r result (record w { mr = r }) there
            (record { reactor = refl; few = few }))
          λ go_on v m.
            and_then-Post (Holding r n) Ended (when (is_nil result) (idle p) v) (λ _. pure go_on)
              (when-Keeps (Holding r n) Ended (is_nil result) (idle p)
                (idle-Keeps p (Holding r n) Ended (Holding-Handled p r n)) v m)
              (λ _ u o. o))

  module _ (fd : ℕ) where
    -- A round of the thread: the fuel for its loop over new connections, and the events of its wait.
    abbrev pub rounds_of : List (ℕ × List EpollEvent) → List Action
    rounds_of [] = []
    rounds_of ((fuel, es) ∷ more) = rounds fuel (ready es ∷ []) ∷ rounds_of more

    abbrev pub WakesOnce : ℕ × List EpollEvent → Type 0
    WakesOnce (fuel, es) = wakes fd es ≡ 1

    round-AtMost :
        (fuel n : ℕ) (es : List EpollEvent) (w : World)
        → wakes fd es ≡ 1
        → Woken fd w
        → AtMost (n + 1) w
        → Post (AtMost n) Ended (round p fuel (ready es ∷ []) w)
    unfolding round Reactor.get_interrupt
    round-AtMost fuel n es w once h few =
        let sock_of = λ (j : ℕ). (w.conns j).sock in
        let s = translate_all sock_of es (w.mr, []) in
        woken-AtMost fuel n (not (Reactor.is_nil es)) s.0 s.1 w
          ((wait-Polled sock_of es w.mr h.zeros).told (rw h.reads (rw once λ e. omega (arith, e))))
          few

    no_messages : (ms : List InternalMessage) → length ms ≤ 0 → ms ≡ []
    no_messages [] h = refl
    no_messages (m ∷ ms) h = absurd (omega arith)

    step-AtMost :
        (fuel n : ℕ) (es : List EpollEvent) (w : World)
        → wakes fd es ≡ 1
        → Woken fd w
        → AtMost (n + 1) w
        → Post (λ v. Woken fd v × AtMost n v) Ended (step p true (rounds fuel (ready es ∷ [])) w)
    unfolding step
    step-AtMost fuel n es w once h few =
        Post-both (Woken fd) (AtMost n) Ended Ended _
          (step-Woken p fd true (rounds fuel (ready es ∷ [])) (rw once (omega arith), tt) w h)
          (round-AtMost fuel n es w once h few)

    -- A thread that has returned has no more rounds.
    returned-Drained :
        (plan : List (ℕ × List EpollEvent)) (w : World)
        → Drained (run_from p false (rounds_of plan) w)
    unfolding run_from step
    returned-Drained [] w = λ e. cc
    returned-Drained ((fuel, es) ∷ plan) w = returned-Drained plan w

    run_from-Drained :
        (plan : List (ℕ × List EpollEvent)) (alive : Bool)
        → All WakesOnce plan
        → (w : World) → Woken fd w
        → AtMost (length plan) w
        → Drained (run_from p alive (rounds_of plan) w)
    unfolding run_from
    run_from-Drained plan false once w h few = returned-Drained plan w
    run_from-Drained [] true once w h few = λ _. no_messages w.i_messages.messages few
    run_from-Drained ((fuel, es) ∷ plan) true once w h few =
        and_then-Drained (λ v. Woken fd v × AtMost (length plan) v)
          (step p true (rounds fuel (ready es ∷ [])) w) _
          (step-AtMost fuel (length plan) es w once.0 h (omega arith))
          λ on v k. run_from-Drained plan on once.1 v k.0 k.1

    -- As many rounds as there are messages, each woken by the pipe, empty the queue, unless the thread
    -- has returned for _P_EXIT by then: from a state in which the pipe has only zeros and each message has its
    -- number but for as many as writes have failed, after a list of rounds that is at least as
    -- long as the queue and whose waits have the pipe in their events once, no message is left where the
    -- thread is still in its loop. Of a run that throws or faults, which ends the program, nothing is said.
    pub run-drains :
        (plan : List (ℕ × List EpollEvent))
        → All WakesOnce plan
        → (w : World) → Woken fd w
        → length w.i_messages.messages ≤ length plan
        → Drained (run p (rounds_of plan) w)
    unfolding run
    run-drains plan once w h few = run_from-Drained plan true once w h few
