-- ===== src/Examples/Waking.antt =====
-- What wakes the threads: the theorems on the pipe, on kqueue and on select at concrete inputs.
use tcp_fsm.Base.{ℕ, ◌≡◌, ◌==◌, refl, List, [], ◌∷◌, none, some, true, arith, if◌then◌else◌}
use tcp_fsm.Monad.Post.{Post}
use tcp_fsm.Dispatcher.Schedule.{run}
use tcp_fsm.Dispatcher.Waking.{Woken, Ended}
use tcp_fsm.Dispatcher.Waking.Running.{run-Woken}
use tcp_fsm.Dispatcher.Waking.Draining.{Drained, rounds_of, run-drains}
use tcp_fsm.Reactor.{EpollEvent}
use tcp_fsm.World.{World}
use tcp_fsm.Kqueue
use tcp_fsm.Kqueue.{Kernel, FbsdReactor, Kevent, Change, added, deleted, returns, who}
use tcp_fsm.Kqueue.Reporting.{get_interrupt-last, is_watched, still_watched}
use tcp_fsm.Select.{SocketReactor, FdSets, sets_of, fd_sets, all_below, add_event}
use tcp_fsm.Select.Watching.{Adds, add_event-fd_sets}
use tcp_fsm.Examples.{quiet, before, whole_life}

run-Woken_example : Post (Woken 3) Ended (run quiet whole_life before)
run-Woken_example =
    run-Woken quiet 3 whole_life
      (
        (omega arith, tt),
        (
          (omega arith, tt),
          ((omega arith, tt), ((omega arith, tt), (tt, ((omega arith, tt), tt)))),
        ),
      )
      before (record { reads = refl; no_threads = refl; zeros = (refl, tt); enough = omega arith })

-- Two messages, with a number in the pipe for each.
abbrev two_waiting : World
two_waiting = record before {
  i_messages = record {
    messages = record { code = 3; ptr = some 11 } ∷ record { code = 6; ptr = none } ∷ [];
  };
  mr = record { threads = []; pipe_fd = 3; pipe = 0 ∷ 0 ∷ []; room = 16384; lost = 0 };
}

-- Two rounds that the pipe wakes; the first has an event of the connection 7 besides.
abbrev two_rounds : List (ℕ × List EpollEvent)
two_rounds =
    (1, record { events = 4; user_data = 7 } ∷ record { events = 1; user_data = 3 } ∷ [])
    ∷ (1, record { events = 1; user_data = 3 } ∷ [])
    ∷ []

run-drains_example : Drained (run quiet (rounds_of quiet 3 two_rounds) two_waiting)
run-drains_example =
    run-drains quiet 3 two_rounds (refl, (refl, tt)) two_waiting
      (record { reads = refl; no_threads = refl; zeros = (refl, (refl, tt)); enough = omega arith })
      (omega arith)

-- A kernel that takes every descriptor, and knows no descriptor 9.
abbrev kernel : Kernel
kernel = record {
  pipe = some (3, 4);
  kqueue = some 5;
  kevent = λ fd cs c. elim c [ added s ↦ none | deleted s ↦ if s == 9 then some 2 else none ];
}

abbrev watching : FbsdReactor
watching = record {
  kqfd = 5;
  pipe_fds = (3, 4);
  isocket = 0;
  desc_set = (6, tt) ∷ (7, tt) ∷ [];
  pipe = 0 ∷ [];
  changes = added 7 ∷ added 6 ∷ added 3 ∷ [];
}

abbrev three_events : List Kevent
three_events = record { ident = 6 } ∷ record { ident = 3 } ∷ record { ident = 7 } ∷ []

-- The socket 6 is neither reported nor watched any more.
get_interrupt-last_example :
    (r' : FbsdReactor) × (Kqueue.get_interrupt kernel (some three_events) watching
      ≡ returns true r')
    × (who r' ≡ 7)
    × ((s : ℕ) → is_watched s r'.changes ≡ still_watched 3 s three_events watching.changes)
get_interrupt-last_example =
    get_interrupt-last kernel three_events watching (refl, tt) λ fd socket cs. ground arith

abbrev selecting : SocketReactor
selecting = record {
  pipe_fds = (3, 4);
  isocket = 0;
  r_desc_set = (6, tt) ∷ [];
  w_desc_set = (7, tt) ∷ [];
  pipe = 0;
}

add_event-fd_sets_example :
    (s' : FdSets) × (fd_sets (add_event 9 8 selecting) ≡ some s') × Adds 9 8 (sets_of selecting) s'
unfolding fd_sets all_below
add_event-fd_sets_example = add_event-fd_sets 9 8 selecting (sets_of selecting) (omega arith) refl
