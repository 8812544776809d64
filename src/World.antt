-- ===== src/World.antt =====
-- The state that the operations of tcp_dispatcher share (tcp_dispatcher.h), and the calls that they
-- make of what is not under the repository.
use tcp_fsm.Base.{ℕ, ◌+◌, List, ◌∷◌, Option, Bool, if◌then◌else◌}
pub use tcp_fsm.Effects.{
  Object, conn_object, recv_object, send_object, overlap_object, accept_object, Effect, addref,
  release, connected_cb, closed_cb, read_cb, sent_cb, accepted_cb, transmitted, submitted,
  sent_so_far, socket_closed, watched,
}
pub use tcp_fsm.Monad.{
  Answer, Op, done, thrown, fault, pure, and_then, ◌>>=◌, ◌>>◌, try_catch, throw, crash, get,
  modify, when, update,
}
use tcp_fsm.Bandwidth.{Bwstop}
use tcp_fsm.Connection.{TcpConn, RecvReq, SendReq}
use tcp_fsm.Messages.{InternalMessages}
use tcp_fsm.Platform.{Platform}
use tcp_fsm.Reactor.{LinuxReactor}

pub record World : Type 0 where
  pub conns : ℕ → TcpConn
  pub recvs : ℕ → RecvReq
  pub sends : ℕ → SendReq
  pub listening_socket : Option ℕ  -- `none` is -1
  pub accepted : Bool  -- whether the function `accepted` is set
  pub i_messages : InternalMessages
  pub mr : LinuxReactor
  pub outgoings : List (ℕ × List ℕ)
  pub bws : Bwstop
  pub sockets_counter : ℕ
  pub calls : ℕ  -- how many calls of the platform were made
  pub log : List Effect  -- the newest first

abbrev pub Result : Type 0 → Type 0
Result A = Answer World A

abbrev pub M : Type 0 → Type 0
M A = Op World A

abbrev pub emit : Effect → M (Unit {0})
emit e w = done tt (record w { log = e ∷ w.log })

-- One call of the platform, `f`, at the number of calls made before.
abbrev pub call : {A : Type 0} → (ℕ → A) → M A
call f w = done (f w.calls) (record w { calls = w.calls + 1 })

abbrev pub set_conn : ℕ → TcpConn → M (Unit {0})
set_conn h c = modify λ w. record w { conns = update w.conns h c }

abbrev pub set_send : ℕ → SendReq → M (Unit {0})
set_send s r = modify λ w. record w { sends = update w.sends s r }

abbrev pub set_recv : ℕ → RecvReq → M (Unit {0})
set_recv r q = modify λ w. record w { recvs = update w.recvs r q }

-- A callback of the user, which may throw. An empty boost::function throws when it is called.
abbrev pub invoke : Platform → Bool → Effect → M (Unit {0})
invoke p present e w =
    if present
    then (let after = record w { log = e ∷ w.log; calls = w.calls + 1 } in
        if p.throws w.calls then thrown after else done tt after)
    else thrown w
