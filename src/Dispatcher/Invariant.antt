-- ===== src/Dispatcher/Invariant.antt =====
-- What a property must give for it to hold after every schedule: the interface between the handlers,
-- whose lemmas fill it, and the loop of the thread, which uses nothing else of them.
pub mod Looping
pub mod Running
use tcp_fsm.Base.{ℕ, ◌+◌, ◌≡◌, ◌≤◌, ◌∷◌, List, Option, some, false}
use tcp_fsm.Bandwidth.{Bwstop}
use tcp_fsm.Messages
use tcp_fsm.Messages.{InternalMessage, InternalMessages}
use tcp_fsm.Platform.{Platform}
use tcp_fsm.Reactor.{LinuxReactor}
use tcp_fsm.World.{Object, addref, release, World}
use tcp_fsm.Monad.Post.{Keeps}
use tcp_fsm.Dispatcher.Close.{create_connection, close_connection, connection_established}
use tcp_fsm.Dispatcher.Transfer.{do_recv, do_send, call_false_cb}
use tcp_fsm.Dispatcher.Accept.{accept_connection}
use tcp_fsm.Dispatcher.Loop.{post_close}
use tcp_fsm.Dispatcher.Schedule.{Action, IsCall, perform}

-- What the handlers of the thread keep: `P` between the steps of a program, `Q` after an exception.
pub record Handled (p : Platform) (P Q : World → Type 0) : Type 0 where
  -- It is not about these fields.
  pub frame :
      (w : World) (o : List (ℕ × List ℕ)) (b : Bwstop) (n : ℕ)
      → w.calls ≤ n
      → P w
      → P (record w { outgoings = o; bws = b; calls = n })
  pub popped :
      (w : World) (m : InternalMessage) (rest : InternalMessages)
      → Messages.pop w.i_messages ≡ some (m, rest)
      → P w
      → P (record w { i_messages = rest })
  pub stopped : (w : World) → P w → P (record w { accepted = false })
  pub counted_up : (w : World) (o : Object) → P w → P (record w { log = addref o ∷ w.log })
  pub counted_down : (w : World) (o : Object) → P w → P (record w { log = release o ∷ w.log })
  pub close_posted : (j : ℕ) → Keeps P Q (post_close j)
  pub created : (j : ℕ) → Keeps P Q (create_connection p j)
  pub closed : (j : ℕ) → Keeps P Q (close_connection p j)
  pub established : (j : ℕ) → Keeps P Q (connection_established p j)
  pub received : (j : ℕ) → Keeps P Q (do_recv p j)
  pub sent : (s : ℕ) (guess : Option ℕ) → Keeps P Q (do_send p s guess)
  pub broken_off : (s : ℕ) → Keeps P Q (call_false_cb p s)
  pub accepts : Keeps P Q (accept_connection p)

-- What a property of every schedule takes besides: it does not depend on the reactor, and the calls that
-- other threads make keep it, where `Allowed` restricts them.
pub record Invariant (p : Platform) (P Q : World → Type 0) (Allowed : Action → Type 0)
    : Type 0 where
  pub handled : Handled p P Q
  pub weaken : (w : World) → P w → Q w
  pub polled : (w : World) (r : LinuxReactor) → P w → P (record w { mr = r })
  pub called : (a : Action) → IsCall a → Allowed a → Keeps P Q (perform p a)
