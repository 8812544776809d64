-- ===== src/Dispatcher/Closing.antt =====
-- Closing a connection more than once, and the requests of a connection that is closed.
use tcp_fsm.Base.{ℕ, ◌≡◌, List, ◌∷◌, Option, arith}
use tcp_fsm.Connection.{cs_closed}
use tcp_fsm.Platform.{Platform}
use tcp_fsm.Base.{Bool, true, some}
use tcp_fsm.Messages
use tcp_fsm.Messages.{InternalMessage, close_connection_wait_code}
use tcp_fsm.Dispatcher.Api.{can_return_close}
use tcp_fsm.Dispatcher.Loop.{handle_internal, handle_message, handle_pointer, on_close_wait}
use tcp_fsm.World.{World, done}
use tcp_fsm.Dispatcher.Close.{close_connection}
use tcp_fsm.Dispatcher.Transfer.{do_send, send_each}

-- After a close_connection that returns the connection is closed, and another one does nothing: no
-- callback, no reference dropped twice, no second close of the socket.
pub close_connection-twice :
    (p : Platform) (h : ℕ) (w v : World)
    → close_connection p h w ≡ done tt v
    → ((v.conns h).state ≡ cs_closed) × (close_connection p h v ≡ done tt v)
unfolding close_connection
close_connection-twice p h w v e = ground arith

-- After a close_connection that returns, the loop over the requests of the connection takes out the
-- first one and does nothing else: no byte is sent, no callback called, and no reference dropped.
pub close_connection-send_each :
    (p : Platform) (h s : ℕ) (ss : List ℕ) (guess : Option ℕ) (w v : World)
    → close_connection p h w ≡ done tt v
    → (v.sends s).iov.conn ≡ h
    → send_each p (s ∷ ss) guess v ≡ done ss v
unfolding send_each do_send
close_connection-send_each p h s ss guess w v e c =
    let closed = (close_connection-twice p h w v e).0 in ground arith

-- The message of close_conn_wait, when the thread takes it and no exception comes: the connection is
-- closed then, the thread that waits may go on, and the message alone is gone from the queue.
pub handle_internal-close_wait :
    (p : Platform) (h : ℕ) (ms : List InternalMessage) (w v : World) (go_on : Bool)
    → w.i_messages.messages ≡ record { code = close_connection_wait_code; ptr = some h } ∷ ms
    → handle_internal p w ≡ done go_on v
    → ((v.conns h).state ≡ cs_closed)
      × (can_return_close h v ≡ true)
      × (v.i_messages.messages ≡ ms)
      × (go_on ≡ true)
unfolding handle_internal handle_message handle_pointer on_close_wait Messages.pop close_connection
handle_internal-close_wait p h ms w v go_on e r = ground arith
