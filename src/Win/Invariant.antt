-- ===== src/Win/Invariant.antt =====
-- What a property must give for it to hold after every schedule: the interface between the handlers,
-- whose lemmas fill it, and the loop of the thread, which uses nothing else of them.
pub mod Running
use tcp_fsm.Base.{ℕ, ◌+◌, ◌≡◌, [], ◌∷◌, List, Option, Bool, true, false}
use tcp_fsm.Bandwidth.{Bwstop}
use tcp_fsm.Effects.{Object, release}
use tcp_fsm.Messages.{InternalMessages}
use tcp_fsm.Monad.{update}
use tcp_fsm.Monad.Post.{Keeps}
use tcp_fsm.Win.State.{Windows, WinWorld}
use tcp_fsm.Win.Close.{close_connection}
use tcp_fsm.Win.Transfer.{do_send, complete_recv, complete_send, call_false_cb}
use tcp_fsm.Win.Accept.{create, complete_connect, complete_accept}
use tcp_fsm.Win.Loop.{post_close}
use tcp_fsm.Win.Schedule.{Action, IsCall, perform}

-- `P` while the thread is in its loop, `Q` after an exception in it; `R` between the actions, when the
-- thread may have ended.
pub record Invariant (p : Windows) (P Q R : WinWorld → Type 0) (Allowed : Action → Type 0)
    : Type 0 where
  pub weaken : (w : WinWorld) → P w → Q w
  pub enter : (w : WinWorld) → R w → w.running ≡ true → P w
  pub leave : (w : WinWorld) → P w → R (record w { running = true })
  pub ended : (w : WinWorld) → Q w → R (record w { running = false })
  -- It is not about these fields.
  pub frame :
      (w : WinWorld) (q : InternalMessages) (b : Bwstop) (size n : ℕ) (conns sends : List ℕ)
      → P w
      → P (record w {
        i_messages = q;
        bws = b;
        transfered_bytes = size;
        calls = n;
        conns = conns;
        sends = sends;
      })
  pub freed :
      (w : WinWorld)
      → P w
      → P (record w { overlaps = []; accepts = []; sends = []; recvs = []; conns = [] })
  pub stopped :
      (w : WinWorld)
      → P w
      → P (record w { accepted = false; stop_accepting_sem = w.stop_accepting_sem + 1 })
  pub counted_down : (w : WinWorld) (o : Object) → P w → P (record w { log = release o ∷ w.log })
  pub guessed :
      (w : WinWorld) (j g : ℕ)
      → P w
      → P (record w { conn_at = update w.conn_at j (record (w.conn_at j) { guess = g }) })
  pub close_posted : (j : ℕ) → Keeps P Q (post_close j)
  pub closed : (j : ℕ) (iocp : Bool) → Keeps P Q (close_connection p j iocp)
  pub sent : (s : ℕ) (guess : Option ℕ) → Keeps P Q (do_send p s guess)
  pub broken_off : (s : ℕ) → Keeps P Q (call_false_cb p s)
  pub created : (j : ℕ) → Keeps P Q (create p j)
  pub received : (r : ℕ) → Keeps P Q (complete_recv p r)
  pub was_sent : (s : ℕ) → Keeps P Q (complete_send p s)
  pub connected : (o : ℕ) → Keeps P Q (complete_connect p o)
  pub accepts : (a : ℕ) → Keeps P Q (complete_accept p a)
  pub called : (a : Action) → IsCall a → Allowed a → Keeps R R (perform p a)
