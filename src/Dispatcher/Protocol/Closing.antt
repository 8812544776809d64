-- ===== src/Dispatcher/Protocol/Closing.antt =====
-- Closing and establishing a connection keep the order of callbacks.
use tcp_fsm.Base.{ℕ, ◌≢◌, arith}
use tcp_fsm.Platform.{Platform}
use tcp_fsm.Monad.Post.{Keeps}
use tcp_fsm.Dispatcher.Protocol.{life, LawfulFrom, Unbroken}
use tcp_fsm.Dispatcher.Close.{create_connection, close_connection, connection_established}

module _ (p : Platform) (b h : ℕ) where
  pub create_connection-Lawful :
      (j : ℕ) → Keeps (LawfulFrom b h) (Unbroken h) (create_connection p j)
  unfolding create_connection life
  create_connection-Lawful j w l = ground arith

  pub close_connection-Lawful : (j : ℕ) → Keeps (LawfulFrom b h) (Unbroken h) (close_connection p j)
  unfolding close_connection life
  close_connection-Lawful j w l = ground arith

  pub connection_established-Lawful :
      h ≢ 0 → (j : ℕ) → Keeps (LawfulFrom b h) (Unbroken h) (connection_established p j)
  unfolding connection_established life
  connection_established-Lawful real j w l = ground arith
