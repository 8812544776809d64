-- ===== src/Dispatcher/Protocol.antt =====
-- The order of callbacks of a connection of tcp_dispatcher.
pub mod Closing
pub mod Running
pub mod Starting
pub mod Accepting
pub mod Sending
use tcp_fsm.Base.{ℕ, ◌≡◌, ◌≤◌, true}
unfoldable pub use tcp_fsm.Lifecycle.{life}
pub use tcp_fsm.Lifecycle.{Life, pending, agrees, not_broken}
use tcp_fsm.World.{World}

abbrev pub Lawful : ℕ → World → Type 0
Lawful h w = agrees (w.conns h).state (life h w.log) (w.conns h).cbs ≡ true

-- The same of a state that at least `b` calls of the platform have led to.
abbrev pub LawfulFrom : ℕ → ℕ → World → Type 0
LawfulFrom b h w = Lawful h w × (b ≤ w.calls)

abbrev pub Unbroken : ℕ → World → Type 0
Unbroken h w = not_broken (life h w.log) ≡ true
