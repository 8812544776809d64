-- ===== src/Platform.antt =====
-- What the program calls and does not implement: the sockets, epoll, the clock, the allocator, the
-- arithmetic on `double`, and the callbacks of the user. A call is given the number of calls that
-- were made before it, so that the same call may have another result each time.
use tcp_fsm.Base.{ℕ, ◌≤◌, ◌≡◌, List, Option, Bool, length}
use tcp_fsm.Bandwidth.{Double, Timeb}
use tcp_fsm.Connection.{Callbacks, SockAddr}

pub data ConnectResult : Type 0 where
  connect_done connect_in_progress connect_failed : ConnectResult

pub data AcceptResult : Type 0 where
  accept_done : ℕ → SockAddr → AcceptResult
  accept_again accept_failed : AcceptResult

-- `would_block` stands for EWOULDBLOCK and EINPROGRESS.
pub data RecvResult : Type 0 where
  received : List ℕ → RecvResult
  recv_would_block recv_failed : RecvResult

pub data SendResult : Type 0 where
  sent : ℕ → SendResult
  send_would_block send_failed : SendResult

pub record Platform : Type 1 where
  pub double : Double
  pub junk : ℕ  -- what an unset number holds
  pub junk_addr : SockAddr
  pub ftime : ℕ → Timeb
  pub new_object : ℕ → ℕ  -- the address of a new object
  pub throws : ℕ → Bool  -- whether a callback of the user throws
  pub fill_callbacks : ℕ → Callbacks  -- what `accepted` stores
  pub htons : ℕ → ℕ
  pub pipe : ℕ → Option ℕ  -- the end to read from
  pub pipe_room : ℕ  -- how many numbers a pipe takes
  pub epoll_create : ℕ → Bool
  pub create_thread : ℕ → Bool
  pub socket : ℕ → Option ℕ
  pub set_nonblock : ℕ → ℕ → Bool  -- fcntl(sock, F_SETFL, O_NONBLOCK) succeeds
  pub bind : ℕ → ℕ → ℕ → Bool
  pub listen : ℕ → ℕ → Bool
  pub connect : ℕ → ℕ → SockAddr → ConnectResult
  pub accept : ℕ → ℕ → AcceptResult
  pub recv : ℕ → ℕ → ℕ → RecvResult
  pub send : ℕ → ℕ → ℕ → SendResult  -- the number of bytes offered stands last
  pub close : ℕ → ℕ → Bool  -- close(sock) succeeds
  pub epoll_add : ℕ → ℕ → Bool  -- epoll_ctl(EPOLL_CTL_ADD) succeeds

-- Documented of send(2): it takes no more bytes than it is offered.
abbrev pub SendsWithin : Platform → Type 0
SendsWithin p = (n sock size k : ℕ) → p.send n sock size ≡ sent k → k ≤ size

-- Documented of recv(2): it gives no more bytes than the buffer holds.
abbrev pub ReceivesWithin : Platform → Type 0
ReceivesWithin p =
    (n sock size : ℕ) (bytes : List ℕ) → p.recv n sock size ≡ received bytes → length bytes ≤ size
