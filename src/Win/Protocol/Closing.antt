-- ===== src/Win/Protocol/Closing.antt =====
-- Closing keeps the order of callbacks.
use tcp_fsm.Base.{ℕ, Bool, arith}
use tcp_fsm.Monad.Post.{Keeps}
use tcp_fsm.Win.State.{Windows}
use tcp_fsm.Win.Close.{
  free_completed_conn, free_completed_recv, free_completed_send, free_completed_overlap,
  free_completed_accept, forget, close_socket, free_both, close_in_state, close_connection,
}
use tcp_fsm.Win.Protocol.{life, InLife, InOrder}

module _ (h : ℕ) where
  pub free_conn-InLife : (j : ℕ) → Keeps (InLife h) (InOrder h) (free_completed_conn j)
  unfolding free_completed_conn life
  free_conn-InLife j w l = l

  pub free_send-InLife : (s : ℕ) → Keeps (InLife h) (InOrder h) (free_completed_send s)
  unfolding free_completed_send life
  free_send-InLife s w l = l

  pub free_overlap-InLife : (o : ℕ) → Keeps (InLife h) (InOrder h) (free_completed_overlap o)
  unfolding free_completed_overlap life
  free_overlap-InLife o w l = l

  pub free_accept-InLife : (a : ℕ) → Keeps (InLife h) (InOrder h) (free_completed_accept a)
  unfolding free_completed_accept life
  free_accept-InLife a w l = l

module _ (p : Windows) (h : ℕ) where
  free_both-InLife : (j : ℕ) (iocp : Bool) → Keeps (InLife h) (InOrder h) (free_both p j iocp)
  unfolding free_both free_completed_recv free_completed_conn life
  free_both-InLife j iocp w l = ground arith

  close_socket-InLife : (j : ℕ) → Keeps (InLife h) (InOrder h) (close_socket p j)
  unfolding close_socket life
  close_socket-InLife j w l = ground arith

  -- The state is the one that the connection is in.
  pub close_connection-InLife :
      (j : ℕ) (iocp : Bool) → Keeps (InLife h) (InOrder h) (close_connection p j iocp)
  unfolding close_connection close_in_state forget close_socket free_both free_completed_conn
      free_completed_recv life
  close_connection-InLife j iocp w l = ground arith
