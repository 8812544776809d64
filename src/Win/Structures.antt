-- ===== src/Win/Structures.antt =====
-- The structures of operations on Windows: the constructors for _WIN32 of overlappedplus.cpp, with the
-- constructor of IOVERLAPPED in overlappedplus.h. `junk` is what an unset member holds.
use tcp_fsm.Base.{ℕ, [], false}
use tcp_fsm.Connection.{IOverlapped, TcpConn, RecvReq, SendReq, fd_read, fd_write}

-- `IOVERLAPPED()` leaves the connection unset.
unfoldable pub io_overlapped : ℕ → IOverlapped
io_overlapped junk = record { sock = 0; code = 0; conn = junk }

unfoldable pub overlap_struct : ℕ → ℕ → ℕ → IOverlapped
unfolding io_overlapped
overlap_struct junk sock code = record (io_overlapped junk) { code = code; sock = sock }

unfoldable pub accept_struct : ℕ → ℕ → ℕ → IOverlapped
unfolding io_overlapped
accept_struct junk sock code = record (io_overlapped junk) { code = code; sock = sock }

unfoldable pub recv_req_struct : ℕ → ℕ → TcpConn → RecvReq
unfolding io_overlapped
recv_req_struct junk conn c = record {
  iov = record (io_overlapped junk) { code = fd_read; sock = c.sock; conn = conn };
  size = junk;
  filled = [];
}

-- The semaphore is left unset too.
unfoldable pub send_req_struct : ℕ → ℕ → TcpConn → SendReq
unfolding io_overlapped
send_req_struct junk conn c = record {
  iov = record (io_overlapped junk) { code = fd_write; sock = c.sock; conn = conn };
  break_sem = junk;
  total_bytes = junk;
  sent_bytes = junk;
  sent_cb = false;
  bytes = [];
}
