-- ===== src/Completion/Reports.antt =====
-- What the completion ports report agrees with the requests that they point at.
use tcp_fsm.Base.{
  ℕ, ◌≡◌, ◌≢◌, ◌↔◌, if◌then◌else◌, [], ◌∷◌, some, true, false, not, ◌==◌, arith, inl, inr,
  Bool-cases,
}
use tcp_fsm.Base.OrderedMap
use tcp_fsm.Connection.{fd_read, fd_write, fd_close}
use tcp_fsm.Completion.{
  Packet, Request, Transfer, get_failed, completed, put, is_reset, get_transfer,
}

-- The socket that a packet is reported under: that of the connection for a completed request to receive,
-- that of the structure for other requests and failures, and 0 for a packet without a structure.
abbrev pub socket_of : Packet → Request → ℕ
socket_of k q =
    if not k.succeeded
    then q.sock
    else if k.overlap == 0
    then 0
    else if q.code == fd_read
    then q.conn_sock
    else q.sock

-- Its events: those of the request, of a failure reading after a reset and closing otherwise.
abbrev pub event_of : Packet → Request → ℕ
event_of k q =
    if not k.succeeded
    then if is_reset k.error then fd_read else fd_close
    else if k.overlap == 0
    then 0
    else q.code

-- What a transfer says of the packet `k`, where the interrupt is for `sock` with `code`.
abbrev pub Reports : Packet → (ℕ → Request) → Transfer → ℕ → ℕ → Type 0
Reports k requests t sock code =
    (t.result ≡ (sock, code) ∷ [])
    × ((code ≡ fd_read) ↔ (t.r_req ≢ 0))
    × ((code ≡ fd_write) ↔ (t.s_req ≢ 0))
    × (t.r_req ≢ 0
        → (t.r_req ≡ k.overlap)
          × ((requests k.overlap).code ≡ fd_read)
          × ((t.requests k.overlap).transferred ≡ k.size))
    × (t.s_req ≢ 0
        → (t.s_req ≡ k.overlap)
          × ((requests k.overlap).code ≡ fd_write)
          × ((t.requests k.overlap).transferred ≡ k.size))
    × ((other : ℕ) → other ≢ k.overlap → t.requests other ≡ requests other)

get_failed-Reports :
    (rconn : ℕ) (k : Packet) (requests : ℕ → Request) (t : Transfer)
    → k.succeeded ≡ false
    → get_failed rconn k requests [] ≡ some t
    → let q = requests k.overlap in Reports k requests t (socket_of k q) (event_of k q)
unfolding get_failed OrderedMap.insert put
get_failed-Reports rconn k requests t s e = ground arith

completed-Reports :
    (rconn : ℕ) (k : Packet) (requests : ℕ → Request) (t : Transfer)
    → k.succeeded ≡ true
    → get_transfer rconn k requests [] ≡ some t
    → let q = requests k.overlap in Reports k requests t (socket_of k q) (event_of k q)
unfolding get_transfer OrderedMap.insert put completed
completed-Reports rconn k requests t s e = ground arith

-- A transfer with no interrupt before, where it is defined: there is one interrupt then. It is for the
-- socket of the connection where a request to receive completed, for the socket of the structure on a
-- failure and for another request, and for 0 without a structure; its event is that of the request, on a
-- failure reading after a reset and closing otherwise. It is for reading exactly when there is a request
-- to receive and for writing exactly when there is a request to send; the request is that of the packet,
-- of that kind, and holds the number of bytes, and no other request changes.
pub get_transfer_lem :
    (rconn : ℕ) (k : Packet) (requests : ℕ → Request) (t : Transfer)
    → get_transfer rconn k requests [] ≡ some t
    → let q = requests k.overlap in Reports k requests t (socket_of k q) (event_of k q)
unfolding get_transfer
get_transfer_lem rconn k requests t e = elim (Bool-cases k.succeeded) [
  | inl s ↦ completed-Reports rconn k requests t s e
  | inr f ↦ get_failed-Reports rconn k requests t f (ground arith)
]
