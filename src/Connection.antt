-- ===== src/Connection.antt =====
-- connection.h, and the request structures of overlappedplus.h with their constructors for POSIX in
-- overlappedplus.cpp. Pointers are numbers, with 0 for the null pointer. The counters that
-- these structures inherit from refcounted_obj are not kept here: its calls are effects of World.
use tcp_fsm.Base.{ℕ, List, [], Bool, true, false}

pub data ConnState : Type 0 where
  cs_wait4connect cs_connected cs_closed : ConnState

abbrev pub is_closed : ConnState → Bool
is_closed cs_closed = true
is_closed cs_connected = false
is_closed cs_wait4connect = false

abbrev pub fd_read : ℕ
fd_read = 1

abbrev pub fd_write : ℕ
fd_write = 2

abbrev pub fd_accept : ℕ
fd_accept = 8

abbrev pub fd_connect : ℕ
fd_connect = 16

abbrev pub fd_close : ℕ
fd_close = 32

-- Which of the functions of `callbacks_t` are set.
pub record Callbacks : Type 0 where
  pub read : Bool
  pub closed : Bool
  pub connected : Bool

abbrev pub no_callbacks : Callbacks
no_callbacks = record { read = false; closed = false; connected = false }

pub record SockAddr : Type 0 where
  pub ip : ℕ
  pub port : ℕ

pub record IOverlapped : Type 0 where
  pub sock : ℕ
  pub code : ℕ
  pub conn : ℕ

pub record TcpConn : Type 0 where
  pub sock : ℕ
  pub addr : SockAddr
  pub cbs : Callbacks
  pub recv : ℕ
  pub guess : ℕ
  pub close_sem : ℕ
  pub checkbyte : ℕ
  pub state : ConnState

-- The constructor of `tcp_conn_struct`, which leaves `addr` as `junk`.
unfoldable pub tcp_conn_struct : SockAddr → ℕ → Callbacks → TcpConn
tcp_conn_struct junk socket cbs = record {
  sock = socket;
  addr = junk;
  cbs = cbs;
  recv = 0;
  guess = 0;
  close_sem = 0;
  checkbyte = 255;
  state = cs_wait4connect;
}

abbrev pub max_wbuf_size : ℕ
max_wbuf_size = 65536

-- `data` is the part of the buffer that the last call of `recv` filled: `filled`.
pub record RecvReq : Type 0 where
  pub iov : IOverlapped
  pub size : ℕ
  pub filled : List ℕ

-- The constructor leaves `size` as `junk`.
unfoldable pub recv_req_struct : ℕ → ℕ → TcpConn → RecvReq
recv_req_struct junk conn c = record {
  iov = record { sock = c.sock; code = fd_read; conn = conn };
  size = junk;
  filled = [];
}

pub record SendReq : Type 0 where
  pub iov : IOverlapped
  pub break_sem : ℕ
  pub total_bytes : ℕ
  pub sent_bytes : ℕ
  pub sent_cb : Bool
  pub bytes : List ℕ

-- The constructor leaves `total_bytes`, `sent_bytes` and the bytes unset; `sent_cb` is empty.
unfoldable pub send_req_struct : ℕ → ℕ → TcpConn → SendReq
send_req_struct junk conn c = record {
  iov = record { sock = c.sock; code = fd_write; conn = conn };
  break_sem = 0;
  total_bytes = junk;
  sent_bytes = junk;
  sent_cb = false;
  bytes = [];
}
