-- ===== src/Biocp/Invariant.antt =====
-- What a property must give for it to hold after every schedule of tcp_dispatcher_biocp: the interface
-- between the handlers, whose lemmas fill it, and the loop of the thread, which uses nothing else of them.
pub mod Looping
pub mod Running
use tcp_fsm.Base.{ℕ, ◌+◌, ◌≡◌, [], ◌∷◌, List, Bool, true, false}
use tcp_fsm.Completion.{Request}
use tcp_fsm.Effects.{Object, addref, release}
use tcp_fsm.Messages.{InternalMessages}
use tcp_fsm.Monad.Post.{Keeps}
use tcp_fsm.Biocp.State.{Calls, BiocpWorld}
use tcp_fsm.Biocp.Close.{close_connection}
use tcp_fsm.Biocp.Transfer.{recv_complete, send_complete, send_request, call_false_cb}
use tcp_fsm.Biocp.Accept.{create_connection, accept_connection, connection_established}
use tcp_fsm.Biocp.Loop.{Overlapped, store, post_close}
use tcp_fsm.Biocp.Schedule.{Action, IsOther, perform}

-- `P` while the thread is in its loop, `Q` after an exception in it; `R` between the actions, when the
-- thread may have ended.
pub record Invariant (p : Calls) (P Q R : BiocpWorld → Type 0) (Allowed : Action → Type 0)
    : Type 0 where
  pub weaken : (w : BiocpWorld) → P w → Q w
  pub enter : (w : BiocpWorld) → R w → w.running ≡ true → P w
  pub leave : (w : BiocpWorld) → P w → R (record w { running = true })
  pub ended : (w : BiocpWorld) → Q w → R (record w { running = false })
  -- It is not about these fields.
  pub frame :
      (w : BiocpWorld) (q : InternalMessages) (n : ℕ) (conns recvs sends : List ℕ)
      → P w
      → P (record w { i_messages = q; calls = n; conns = conns; recvs = recvs; sends = sends })
  pub called_on : (w : BiocpWorld) (n : ℕ) → Q w → Q (record w { calls = n })
  pub stopped :
      (w : BiocpWorld)
      → P w
      → P (record w { accepted = false; stop_accepting_sem = w.stop_accepting_sem + 1 })
  pub counted_up : (w : BiocpWorld) (o : Object) → P w → P (record w { log = addref o ∷ w.log })
  pub counted_down : (w : BiocpWorld) (o : Object) → P w → P (record w { log = release o ∷ w.log })
  pub close_posted : (j : ℕ) → Keeps P Q (post_close j)
  pub stored : (ov : Overlapped) (q : Request) → Keeps P Q (store ov q)
  pub closed : (j : ℕ) (iocp : Bool) → Keeps P Q (close_connection p j iocp)
  pub requested : (s : ℕ) → Keeps P Q (send_request p s)
  pub broken_off : (s : ℕ) → Keeps P Q (call_false_cb p s)
  pub created : (j : ℕ) → Keeps P Q (create_connection p j)
  pub received : (r : ℕ) → Keeps P Q (recv_complete p r)
  pub was_sent : (s : ℕ) → Keeps P Q (send_complete p s)
  pub established : (j : ℕ) → Keeps P Q (connection_established p j)
  pub accepts : Keeps P Q (accept_connection p)
  pub called : (a : Action) → IsOther a → Allowed a → Keeps R R (perform p a)
