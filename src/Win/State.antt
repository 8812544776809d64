-- ===== src/Win/State.antt =====
-- What win_tcp_dispatcher calls and does not implement, the members of win_tcp_dispatcher.h with the
-- objects that it allocates, and the calls as operations.
use tcp_fsm.Base.{ℕ, ◌+◌, List, ◌∷◌, Option, Bool, if◌then◌else◌}
use tcp_fsm.Bandwidth.{Bwstop, Double, Timeb}
use tcp_fsm.Completion.{CompletionPort}
use tcp_fsm.Connection.{Callbacks, SockAddr, IOverlapped, TcpConn, RecvReq, SendReq}
use tcp_fsm.Effects.{Effect}
use tcp_fsm.Messages.{InternalMessages}
use tcp_fsm.Monad.{Op, done, thrown, update, modify}

-- How WSARecv, WSASend, ConnectEx and AcceptEx answer. `io_pending` is WSA_IO_PENDING, `not_connected`
-- stands for WSAENOTSOCK, WSAENOTCONN and WSAECONNRESET.
pub data Posted : Type 0 where
  at_once io_pending not_connected post_failed : Posted

-- As in Platform, a call is given the number of calls before it.
pub record Windows : Type 1 where
  pub double : Double
  pub junk : ℕ
  pub junk_addr : SockAddr
  pub ftime : ℕ → Timeb
  pub new_object : ℕ → ℕ
  pub throws : ℕ → Bool
  pub fill_callbacks : ℕ → Callbacks
  pub htons : ℕ → ℕ
  pub wsa_socket : ℕ → Option ℕ
  pub bind : ℕ → ℕ → ℕ → Bool
  pub listen : ℕ → ℕ → Bool
  pub set_nonblock : ℕ → ℕ → Bool
  pub create_port : ℕ → Bool
  pub add_socket : ℕ → ℕ → Bool  -- CreateIoCompletionPort for a socket succeeds
  pub create_thread : ℕ → Bool
  pub load_accept_ex : ℕ → Bool  -- WSAIoctl fills in the pointer to AcceptEx
  pub load_connect_ex : ℕ → Bool
  pub connect_ex : ℕ → ℕ → SockAddr → Posted
  pub accept_ex : ℕ → ℕ → ℕ → Posted
  pub peer : ℕ → SockAddr  -- the address that AcceptEx wrote
  pub filled : ℕ → ℕ → List ℕ  -- the bytes that WSARecv wrote, of the number that is given
  pub wsa_recv : ℕ → ℕ → Posted
  pub wsa_send : ℕ → ℕ → ℕ → Posted

pub record WinWorld : Type 0 where
  pub conn_at : ℕ → TcpConn
  pub recv_at : ℕ → RecvReq
  pub send_at : ℕ → SendReq
  pub overlap_at : ℕ → IOverlapped
  pub accept_at : ℕ → IOverlapped
  pub listening_socket : ℕ
  pub accepted : Bool
  pub accept_ex_loaded : Bool  -- lpfnAcceptEx is not null
  pub connect_ex_loaded : Bool
  pub stop_accepting_sem : ℕ
  pub cp_r : CompletionPort
  pub i_messages : InternalMessages
  pub bws : Bwstop
  pub transfered_bytes : ℕ
  -- The objects of operations that are not completed.
  pub overlaps : List ℕ
  pub accepts : List ℕ
  pub conns : List ℕ
  pub recvs : List ℕ
  pub sends : List ℕ
  pub running : Bool  -- whether the thread is in its loop
  pub calls : ℕ
  pub log : List Effect

abbrev pub W : Type 0 → Type 0
W A = Op WinWorld A

abbrev pub emit : Effect → W (Unit {0})
emit e w = done tt (record w { log = e ∷ w.log })

abbrev pub call : {A : Type 0} → (ℕ → A) → W A
call f w = done (f w.calls) (record w { calls = w.calls + 1 })

abbrev pub set_conn : ℕ → TcpConn → W (Unit {0})
set_conn h c = modify λ w. record w { conn_at = update w.conn_at h c }

abbrev pub set_recv : ℕ → RecvReq → W (Unit {0})
set_recv r q = modify λ w. record w { recv_at = update w.recv_at r q }

abbrev pub set_send : ℕ → SendReq → W (Unit {0})
set_send s q = modify λ w. record w { send_at = update w.send_at s q }

abbrev pub set_overlap : ℕ → IOverlapped → W (Unit {0})
set_overlap o q = modify λ w. record w { overlap_at = update w.overlap_at o q }

abbrev pub set_accept : ℕ → IOverlapped → W (Unit {0})
set_accept a q = modify λ w. record w { accept_at = update w.accept_at a q }

-- A callback of the user, which may throw. An empty boost::function throws when it is called.
abbrev pub invoke : Windows → Bool → Effect → W (Unit {0})
invoke p present e w =
    if present
    then (let after = record w { log = e ∷ w.log; calls = w.calls + 1 } in
        if p.throws w.calls then thrown after else done tt after)
    else thrown w
