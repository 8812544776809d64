-- ===== src/Biocp/State.antt =====
-- What tcp_dispatcher_biocp calls and does not implement, the members of tcp_dispatcher_biocp.h with
-- the objects that it allocates, and the calls as operations.
use tcp_fsm.Base.{ℕ, ◌+◌, List, ◌∷◌, Option, none, some, Bool, if◌then◌else◌}
use tcp_fsm.Completion.{CompletionPort}
use tcp_fsm.Connection.{Callbacks, SockAddr, TcpConn, RecvReq, SendReq}
use tcp_fsm.Effects.{Effect}
use tcp_fsm.Messages.{InternalMessages}
use tcp_fsm.Monad.{Op, done, thrown, pure, ◌>>=◌, throw, get, modify, update}
use tcp_fsm.Win.State.{Posted}
use tcp_fsm.Wsa
use tcp_fsm.Wsa.{WsaReactor}

-- `connect_going_on` is WSAEWOULDBLOCK, `connect_timed_out` is WSAETIMEDOUT.
pub data ConnectAnswer : Type 0 where
  connect_at_once connect_going_on connect_timed_out connect_refused : ConnectAnswer

-- `nothing_to_accept` is WSAEWOULDBLOCK.
pub data AcceptAnswer : Type 0 where
  accepted_socket : ℕ → SockAddr → AcceptAnswer
  nothing_to_accept accept_refused : AcceptAnswer

-- As in Platform, a call is given the number of calls before it.
pub record Calls : Type 0 where
  pub junk : ℕ
  pub junk_addr : SockAddr
  pub new_object : ℕ → ℕ
  pub throws : ℕ → Bool
  pub fill_callbacks : ℕ → Callbacks
  pub htons : ℕ → ℕ
  pub wsa_socket : ℕ → Option ℕ
  pub bind : ℕ → ℕ → ℕ → Bool
  pub listen : ℕ → ℕ → Bool
  pub set_nonblock : ℕ → ℕ → Bool
  pub make_events : ℕ → Bool  -- the constructor of wsa_reactor gets its handles
  pub create_event : ℕ → Option ℕ
  pub event_select : ℕ → ℕ → ℕ → Bool
  pub set_event : ℕ → Bool
  pub create_port : ℕ → Bool
  pub add_conn : ℕ → ℕ → Bool  -- CreateIoCompletionPort for a socket succeeds
  pub create_thread : ℕ → Bool
  pub wsa_connect : ℕ → ℕ → SockAddr → ConnectAnswer
  pub wsa_accept : ℕ → ℕ → AcceptAnswer
  pub filled : ℕ → ℕ → List ℕ  -- the bytes that WSARecv wrote, of the number that is given
  pub wsa_recv : ℕ → ℕ → Posted
  pub wsa_send : ℕ → ℕ → ℕ → Posted

-- external_struct
pub record External : Type 0 where
  pub sock : ℕ
  pub events : ℕ

pub record BiocpWorld : Type 0 where
  pub conn_at : ℕ → TcpConn
  pub recv_at : ℕ → RecvReq
  pub send_at : ℕ → SendReq
  pub external_at : ℕ → External
  pub listening_socket : ℕ
  pub accepted : Bool
  pub stop_accepting_sem : ℕ
  pub iocp_r : CompletionPort
  pub wsa_r : WsaReactor
  pub i_messages : InternalMessages
  -- The objects of operations that are not completed.
  pub conns : List ℕ
  pub recvs : List ℕ
  pub sends : List ℕ
  pub running : Bool  -- whether the dispatcher's thread is in its loop
  pub hearing : Bool  -- whether the listening thread is in its loop
  pub calls : ℕ
  pub log : List Effect

abbrev pub B : Type 0 → Type 0
B A = Op BiocpWorld A

abbrev pub emit : Effect → B (Unit {0})
emit e w = done tt (record w { log = e ∷ w.log })

abbrev pub call : {A : Type 0} → (ℕ → A) → B A
call f w = done (f w.calls) (record w { calls = w.calls + 1 })

-- `if( !ok ) throw exception(…)`
abbrev pub require : (ℕ → Bool) → B (Unit {0})
require f = do ok ← call f; if ok then pure tt else throw

abbrev pub set_conn : ℕ → TcpConn → B (Unit {0})
set_conn h c = modify λ w. record w { conn_at = update w.conn_at h c }

abbrev pub set_recv : ℕ → RecvReq → B (Unit {0})
set_recv r q = modify λ w. record w { recv_at = update w.recv_at r q }

abbrev pub set_send : ℕ → SendReq → B (Unit {0})
set_send s q = modify λ w. record w { send_at = update w.send_at s q }

-- A callback of the user, which may throw. An empty boost::function throws when it is called.
abbrev pub invoke : Calls → Bool → Effect → B (Unit {0})
invoke p present e w =
    if present
    then (let after = record w { log = e ∷ w.log; calls = w.calls + 1 } in
        if p.throws w.calls then thrown after else done tt after)
    else thrown w

-- `wsa_r->add_event(sock, type)`
abbrev pub watch : Calls → ℕ → ℕ → B (Unit {0})
watch p sock type = do
  event ← call p.create_event
  selected ← call (λ n. p.event_select n sock type)
  w ← get
  elim (Wsa.add_event event selected sock w.wsa_r) [
    | none ↦ throw
    | some r ↦ modify λ v. record v { wsa_r = r }
  ]

-- `wsa_r->del_event(sock)`
abbrev pub unwatch : ℕ → B (Unit {0})
unwatch sock = modify λ w. record w { wsa_r = Wsa.del_event sock w.wsa_r }
