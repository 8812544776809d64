-- ===== src/Dispatcher/Reading.antt =====
-- What an interrupt for reading does on each answer of recv(2).
use tcp_fsm.Base.{ℕ, ◌+◌, ◌≡◌, ◌≢◌, [], ◌∷◌, true, false, arith}
use tcp_fsm.Connection.{cs_closed}
use tcp_fsm.Platform.{Platform, RecvResult, received, recv_would_block, recv_failed}
use tcp_fsm.World.{World, done, read_cb}
use tcp_fsm.Dispatcher.Close.{close_connection}
use tcp_fsm.Dispatcher.Transfer.{do_recv, receive, deliver}
use tcp_fsm.Dispatcher.Loop.{handle_read, is_listening}

-- The connection can receive: it has its request and its callback, and is not the listening one.
abbrev pub Receives : ℕ → World → Type 0
Receives h w =
    ((w.conns h).cbs.read ≡ true)
    × ((w.conns h).recv ≢ 0)
    × (is_listening w.listening_socket (w.conns h).sock ≡ false)

-- What becomes of the connection `h` of the world `w` where recv(2) answers.
abbrev pub After : Platform → ℕ → World → RecvResult → World → Type 0
After p h w (received []) v = (v.conns h).state ≡ cs_closed
After p h w (received (b ∷ bs)) v =
    (p.throws (w.calls + 1) ≡ false
      → (v.log ≡ read_cb h (b ∷ bs) ∷ w.log) × (v.conns h ≡ w.conns h))
    × (p.throws (w.calls + 1) ≡ true → (v.conns h).state ≡ cs_closed)
After p h w recv_would_block v = (v.log ≡ w.log) × (v.conns h ≡ w.conns h)
After p h w recv_failed v = (v.conns h).state ≡ cs_closed

-- An interrupt for reading of a connection that can receive, handled without an exception. Where the
-- peer has closed or recv(2) fails, the connection is closed afterwards. Where bytes came, the
-- callback is called with them once, and nothing else is logged and the connection stays as it is, or
-- the connection is closed if the callback throws. Where recv(2) would block nothing is logged and the
-- connection stays as it is.
pub handle_read_lem :
    (p : Platform) (h : ℕ) (r : RecvResult) (fuel : ℕ) (w v : World)
    → Receives h w
    → p.recv w.calls (w.conns h).sock 65536 ≡ r
    → handle_read p fuel h w ≡ done tt v
    → After p h w r v
unfolding handle_read do_recv close_connection receive deliver
handle_read_lem p h (received []) fuel w v c a e = ground arith
handle_read_lem p h (received (b ∷ bs)) fuel w v c a e = (λ t. ground arith, λ t. ground arith)
handle_read_lem p h recv_would_block fuel w v c a e = ground arith
handle_read_lem p h recv_failed fuel w v c a e = ground arith
