-- ===== src/Win/Protocol.antt =====
-- The order of callbacks of a connection of win_tcp_dispatcher.
pub mod Closing
pub mod Transferring
pub mod Accepting
pub mod Calling
pub mod Running
use tcp_fsm.Base.{ℕ, ◌≡◌, ◌≢◌, true}
use tcp_fsm.Lifecycle.{agrees, not_broken}
unfoldable pub use tcp_fsm.Lifecycle.{life}
use tcp_fsm.Win.State.{Windows, WinWorld}

abbrev pub InLife : ℕ → WinWorld → Type 0
InLife h w = agrees (w.conn_at h).state (life h w.log) (w.conn_at h).cbs ≡ true

abbrev pub InOrder : ℕ → WinWorld → Type 0
InOrder h w = not_broken (life h w.log) ≡ true

-- While the thread is in its loop, the state says where in the order the connection is.
abbrev pub Ordered : ℕ → WinWorld → Type 0
Ordered h w = (w.running ≡ true → InLife h w) × InOrder h w

-- The allocator does not hand out the address `h`.
abbrev pub NeverNew : Windows → ℕ → Type 0
NeverNew p h = (n : ℕ) → p.new_object n ≢ h
