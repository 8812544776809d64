-- ===== src/Dispatcher/Waking.antt =====
-- The messages in the queue of tcp_dispatcher, and the numbers in the pipe of its reactor that wake the
-- thread for them.
pub mod Handling
pub mod Calling
pub mod Running
pub mod Draining
use tcp_fsm.Base.{ℕ, ◌+◌, ◌≤◌, ◌≡◌, List, [], length}
use tcp_fsm.Messages.{InternalMessages}
use tcp_fsm.Reactor.{LinuxReactor}
use tcp_fsm.Reactor.Waking.{Zeros}
use tcp_fsm.World.{World}

-- While the thread handles interrupts: its reactor, and at most `n` messages.
pub record Holding (r : LinuxReactor) (n : ℕ) (w : World) : Type 0 where
  pub reactor : w.mr ≡ r
  pub few : length w.i_messages.messages ≤ n

-- Each message has its number in the pipe, whose end to read from is `fd`, but for as many as writes
-- have failed.
pub record Matched (fd : ℕ) (r : LinuxReactor) (q : InternalMessages) : Type 0 where
  pub reads : r.pipe_fd ≡ fd
  pub no_threads : r.threads ≡ []
  pub zeros : Zeros r
  pub enough : length q.messages ≤ length r.pipe + r.lost

abbrev pub Woken : ℕ → World → Type 0
Woken fd w = Matched fd w.mr w.i_messages

-- An exception that leaves the thread ends the program.
abbrev pub Ended : World → Type 0
Ended w = Unit {0}
