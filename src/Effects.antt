-- ===== src/Effects.antt =====
-- What the operations of a dispatcher do that others see: calls of the user's callbacks, of
-- refcounted_obj, and of the system. A log of them is part of each state.
use tcp_fsm.Base.{ℕ, List, Bool}

pub data Object : Type 0 where
  conn_object recv_object send_object overlap_object accept_object : ℕ → Object

pub data Effect : Type 0 where
  addref release : Object → Effect
  connected_cb : ℕ → ℕ → Effect  -- the callback of a connection, and its argument
  closed_cb : ℕ → Effect
  read_cb : ℕ → List ℕ → Effect
  sent_cb : ℕ → Bool → Effect
  accepted_cb : ℕ → Effect
  transmitted : ℕ → ℕ → ℕ → Effect  -- of a request, from an offset on, a number of bytes
  submitted : ℕ → ℕ → ℕ → Effect  -- the same, for an operation that completes later
  sent_so_far : ℕ → ℕ → Effect  -- of a request, its sent_bytes when a completion of it is handled
  socket_closed : ℕ → Effect
  watched : ℕ → Effect  -- a connection is added to the reactor
