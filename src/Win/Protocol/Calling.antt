-- ===== src/Win/Protocol/Calling.antt =====
-- The methods that other threads call keep the order of callbacks.
use tcp_fsm.Base.{ℕ, ◌≢◌, arith, inl, inr, Option-cases}
use tcp_fsm.Connection.{Callbacks, SockAddr, no_callbacks}
use tcp_fsm.Monad.{pure}
use tcp_fsm.Monad.Post.{Keeps, and_then-Post, option-Keeps}
use tcp_fsm.Win.State.{Windows}
use tcp_fsm.Win.Accept.{add_socket, new_conn}
use tcp_fsm.Win.Api.{
  prepare, open_socket, start_connection, make_conn, connect, connect_new, send, send_plain,
  close_conn, close_conn_wait, addref_conn, release_conn, release_send, stop_accepting,
  set_bandwidth, break_send_request, break_send_init, shut_down,
}
use tcp_fsm.Win.Schedule.{
  Action, makes_conn, connects, connects_new, sends, sends_plain, closes, closes_wait, addrefs,
  releases, releases_send, breaks, inits_break, stops_accepting, shuts_down, sets_bandwidth, serves,
  perform, IsCall,
}
use tcp_fsm.Win.Protocol.{life, Ordered, NeverNew}

-- `connect(conn, …)` is not called on `h` any more.
abbrev pub NotConnecting : ℕ → Action → Type 0
NotConnecting h (connects j ip port cb) = j ≢ h
NotConnecting h _ = Unit {0}

module _ (p : Windows) (h : ℕ) where
  open_socket-Ordered : Keeps (Ordered h) (Ordered h) (open_socket p)
  unfolding open_socket prepare add_socket life
  open_socket-Ordered w l = elim (Option-cases (p.wsa_socket w.calls)) [
    | inl e ↦ ground arith
    | inr (sock, e) ↦ ground arith
  ]

  module _ (kept : NeverNew p h) where
    new_conn-Ordered :
        (sock : ℕ) (cbs : Callbacks) → Keeps (Ordered h) (Ordered h) (new_conn p sock cbs)
    unfolding new_conn life
    new_conn-Ordered sock cbs w l = ground (arith, kept w.calls)

    start_connection-Ordered :
        (sock : ℕ) (addr : SockAddr) (cb : Callbacks)
        → Keeps (Ordered h) (Ordered h) (start_connection p sock addr cb)
    unfolding start_connection new_conn life
    start_connection-Ordered sock addr cb w l = ground (arith, kept w.calls)

    make_conn-Ordered : Keeps (Ordered h) (Ordered h) (make_conn p)
    unfolding make_conn
    make_conn-Ordered w l =
        and_then-Post (Ordered h) (Ordered h) (open_socket p w) _ (open_socket-Ordered w l) λ found.
          option-Keeps (Ordered h) (Ordered h) found (pure 0) (λ sock. new_conn p sock no_callbacks)
            (λ v k. k) (λ sock. new_conn-Ordered sock no_callbacks)

    connect_new-Ordered :
        (ip port : ℕ) (cb : Callbacks) → Keeps (Ordered h) (Ordered h) (connect_new p ip port cb)
    unfolding connect_new
    connect_new-Ordered ip port cb w l =
        let addr : SockAddr = record { ip = ip; port = p.htons port } in
        and_then-Post (Ordered h) (Ordered h) (open_socket p w) _ (open_socket-Ordered w l) λ found.
          option-Keeps (Ordered h) (Ordered h) found (pure 0)
            (λ sock. start_connection p sock addr cb) (λ v k. k)
            (λ sock. start_connection-Ordered sock addr cb)

    pub perform-Ordered :
        (a : Action) → IsCall a → NotConnecting h a → Keeps (Ordered h) (Ordered h) (perform p a)
    unfolding perform
    perform-Ordered makes_conn c n w l =
        and_then-Post (Ordered h) (Ordered h) (make_conn p w) _ (make_conn-Ordered w l) λ _ v m. m
    perform-Ordered (connects j ip port cb) c n w l = unfold connect life in ground arith
    perform-Ordered (connects_new ip port cb) c n w l =
        and_then-Post (Ordered h) (Ordered h) (connect_new p ip port cb w) _
          (connect_new-Ordered ip port cb w l) λ _ v m. m
    perform-Ordered (sends j bytes cb) c n w l = unfold send life in ground arith
    perform-Ordered (sends_plain j bytes) c n w l = unfold send_plain life in ground arith
    perform-Ordered (closes j) c n w l = unfold close_conn life in ground arith
    perform-Ordered (closes_wait j) c n w l = unfold close_conn_wait life in ground arith
    perform-Ordered (addrefs j) c n w l = unfold addref_conn life in ground arith
    perform-Ordered (releases j) c n w l = unfold release_conn life in ground arith
    perform-Ordered (releases_send s) c n w l = unfold release_send life in ground arith
    perform-Ordered (breaks s) c n w l = unfold break_send_request life in ground arith
    perform-Ordered (inits_break s) c n w l = unfold break_send_init life in ground arith
    perform-Ordered stops_accepting c n w l = unfold stop_accepting life in ground arith
    perform-Ordered shuts_down c n w l = unfold shut_down life in ground arith
    perform-Ordered (sets_bandwidth m) c n w l = unfold set_bandwidth life in ground arith
    perform-Ordered (serves k ov) c n w l = elim c [ ]
