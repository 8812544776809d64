-- ===== src/Completion.antt =====
-- The reactors over completion ports: iocp_reactor.cpp and cp_reactor.cpp. What
-- GetQueuedCompletionStatus answers is an argument.
pub mod Reports
use tcp_fsm.Base.{
  ℕ, List, [], ◌∷◌, Option, none, some, Bool, true, false, ◌==◌, not, ◌||◌, if◌then◌else◌,
}
use tcp_fsm.Base.OrderedMap
use tcp_fsm.Connection.{fd_read, fd_write, fd_close}

-- A packet that was dequeued: whether the call succeeded, the error if not, the bytes, and the
-- address of the structure, 0 for one that `stop` posted. `timed_out` is WAIT_TIMEOUT.
pub record Packet : Type 0 where
  pub succeeded : Bool
  pub timed_out : Bool
  pub error : ℕ
  pub size : ℕ
  pub overlap : ℕ

-- The request that an overlapped structure stands in: `sock` and `code` of its `iov`, the socket of
-- its connection, and `size` or `sent_bytes`.
pub record Request : Type 0 where
  pub sock : ℕ
  pub code : ℕ
  pub conn_sock : ℕ
  pub transferred : ℕ

pub record CompletionPort : Type 0 where
  pub threads : List ℕ
  pub posted : List ℕ  -- the addresses that were posted to the port

unfoldable pub add_thread : ℕ → CompletionPort → CompletionPort
add_thread t c = record c { threads = push_back t c.threads }
  where
    push_back : ℕ → List ℕ → List ℕ
    push_back t [] = t ∷ []
    push_back t (x ∷ xs) = x ∷ push_back t xs

-- `stop` posts a packet without a structure, on every thread.
unfoldable pub stop : CompletionPort → CompletionPort
stop c = record c { posted = 0 ∷ c.posted }

-- ERROR_CONNECTION_ABORTED and ERROR_NETNAME_DELETED.
abbrev pub is_reset : ℕ → Bool
is_reset code = code == 1236 || code == 64

-- What `get_transfer` of iocp_reactor does: the number that it returns, the connection and the requests
-- that it points at (0 for none), the interrupts, and the requests afterwards.
pub record Transfer : Type 0 where
  pub rconn : ℕ
  pub returned : ℕ
  pub s_req : ℕ
  pub r_req : ℕ
  pub result : List (ℕ × ℕ)
  pub requests : ℕ → Request

unfoldable pub put : ℕ → Request → (ℕ → Request) → ℕ → Request
put a q requests b = if a == b then q else requests b

-- A failure. `none` is the failed assertion on a null structure. After a reset every request is taken
-- for one to receive, and its size is written: of another request that is behind the members of its own
-- type, which has no defined result, `none` as well. `rconn` stays as it is.
unfoldable pub get_failed : ℕ → Packet → (ℕ → Request) → List (ℕ × ℕ) → Option Transfer
unfolding put
get_failed rconn k requests result =
    if k.overlap == 0
    then none
    else if is_reset k.error
    then if (requests k.overlap).code == fd_read
      then some (record {
        rconn = rconn;
        returned = k.size;
        s_req = 0;
        r_req = k.overlap;
        result = OrderedMap.insert (requests k.overlap).sock fd_read result;
        requests = put k.overlap (record (requests k.overlap) { transferred = k.size }) requests;
      })
      else none
    else some (record {
      rconn = rconn;
      returned = 0;
      s_req = 0;
      r_req = 0;
      result = OrderedMap.insert (requests k.overlap).sock fd_close result;
      requests = requests;
    })

-- A completed request to receive takes the socket of its connection.
unfoldable pub completed : Packet → Request → Request
completed k q =
    if q.code == fd_read
    then record q { transferred = k.size; sock = q.conn_sock }
    else if q.code == fd_write
    then record q { transferred = k.size }
    else q

unfoldable pub get_transfer : ℕ → Packet → (ℕ → Request) → List (ℕ × ℕ) → Option Transfer
unfolding get_failed completed put
get_transfer rconn k requests result =
    let q = completed k (requests k.overlap) in
    if not k.succeeded
    then get_failed rconn k requests result
    else if k.overlap == 0
    then some (record {
      rconn = rconn;
      returned = 0;
      s_req = 0;
      r_req = 0;
      result = OrderedMap.insert 0 0 result;
      requests = requests;
    })
    else some (record {
      rconn = rconn;
      returned = k.size;
      s_req = if q.code == fd_write then k.overlap else 0;
      r_req = if q.code == fd_read then k.overlap else 0;
      result = OrderedMap.insert q.sock q.code result;
      requests = put k.overlap q requests;
    })

-- `get_transfer` of cp_reactor: the number that it returns and the interrupts. `overlap` is that of
-- the packet.
unfoldable pub get_plain_transfer :
    Packet → (ℕ → Request) → List (ℕ × ℕ) → Option (ℕ × List (ℕ × ℕ))
get_plain_transfer k requests result =
    if not k.succeeded
    then if k.timed_out
      then some (0, result)
      else if k.overlap == 0
      then none
      else some (0, OrderedMap.insert (requests k.overlap).sock fd_close result)
    else if k.overlap == 0
    then some (0, OrderedMap.insert 0 0 result)
    else some (k.size, OrderedMap.insert (requests k.overlap).sock (requests k.overlap).code result)
