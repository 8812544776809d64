-- ===== src/Biocp/Protocol/Calling.antt =====
-- The methods that other threads call and the listening thread keep the order of callbacks.
use tcp_fsm.Base.{
  ℕ, ◌+◌, ◌≢◌, List, [], ◌∷◌, Bool, true, false, arith, inl, inr, Option-cases, ◌==◌, ◌&&◌,
  if◌then◌else◌,
}
use tcp_fsm.Connection.{Callbacks, SockAddr, no_callbacks}
use tcp_fsm.Monad.{pure, ◌>>◌}
use tcp_fsm.Monad.Post.{Keeps, and_then-Post, bind-Keeps, if-Keeps, when-Keeps, option-Keeps}
use tcp_fsm.Wsa
use tcp_fsm.Wsa.{Interrupted, returns, throws, polls, faults, invalid_socket, Waits, Enumerated}
use tcp_fsm.Biocp.State.{
  Calls, ConnectAnswer, connect_at_once, connect_going_on, connect_timed_out, connect_refused,
}
use tcp_fsm.Biocp.Accept.{new_conn, set_addr}
use tcp_fsm.Biocp.Api.{
  open_socket, start_connection, after_connect, after_new_connect, connect_to, make_conn, connect,
  connect_new, send, send_plain, close_conn, close_conn_wait, addref_conn, release_conn,
  release_send, stop_accepting, break_send, shut_down,
}
use tcp_fsm.Biocp.Listening.{tell, hear_all, heard, hear}
use tcp_fsm.Biocp.Schedule.{
  Action, makes_conn, connects, connects_new, sends, sends_plain, closes, closes_wait, addrefs,
  releases, releases_send, breaks, stops_accepting, shuts_down, hears, serves, perform, IsOther,
}
use tcp_fsm.Biocp.Protocol.{life, Ordered, NeverNew}

-- `connect(conn, …)` is not called on `h` any more.
abbrev pub NotConnecting : ℕ → Action → Type 0
NotConnecting h (connects j ip port cb) = j ≢ h
NotConnecting h _ = Unit {0}

module _ (p : Calls) (h : ℕ) where
  open_socket-Ordered : Keeps (Ordered h) (Ordered h) (open_socket p)
  unfolding open_socket life
  open_socket-Ordered w l = elim (Option-cases (p.wsa_socket w.calls)) [
    | inl e ↦ ground arith
    | inr (sock, e) ↦ ground arith
  ]

  after_connect-Ordered :
      (j : ℕ) (answer : ConnectAnswer) → Keeps (Ordered h) (Ordered h) (after_connect p j answer)
  unfolding after_connect
  after_connect-Ordered j connect_at_once w l = l
  after_connect-Ordered j connect_going_on w l = l
  after_connect-Ordered j connect_timed_out w l = l
  after_connect-Ordered j connect_refused w l = l

  connect-Ordered :
      (j ip port : ℕ) (cb : Callbacks)
      → j ≢ h
      → Keeps (Ordered h) (Ordered h) (connect p j ip port cb)
  unfolding connect after_connect
  connect-Ordered j ip port cb other w l = ground arith

  tell-Ordered : (sock events : ℕ) → Keeps (Ordered h) (Ordered h) (tell p sock events)
  unfolding tell
  tell-Ordered sock events w l = ground arith

  hear_all-Ordered : (result : List (ℕ × ℕ)) → Keeps (Ordered h) (Ordered h) (hear_all p result)
  unfolding hear_all
  hear_all-Ordered [] w l = l
  hear_all-Ordered ((sock, events) ∷ rest) w l =
      if-Keeps (Ordered h) (Ordered h) (sock == invalid_socket) (pure false)
        (if sock == w.listening_socket && events == 0
          then pure true
          else (tell p sock events >> hear_all p rest))
        (λ v k. k)
        (if-Keeps (Ordered h) (Ordered h) (sock == w.listening_socket && events == 0) (pure true)
          (tell p sock events >> hear_all p rest) (λ v k. k)
          (bind-Keeps (Ordered h) (Ordered h) (tell p sock events) (λ _. hear_all p rest)
            (tell-Ordered sock events) λ _. hear_all-Ordered rest))
        w l

  heard-Ordered : (i : Interrupted) → Keeps (Ordered h) (Ordered h) (heard p i)
  unfolding heard
  heard-Ordered (returns more r result) w l =
      and_then-Post (Ordered h) (Ordered h)
        ((if more then hear_all p result else pure false) (record w { wsa_r = r })) _
        (if-Keeps (Ordered h) (Ordered h) more (hear_all p result) (pure false)
          (hear_all-Ordered result) (λ v k. k) (record w { wsa_r = r }) (ground arith))
        λ go_on v k. ground arith
  heard-Ordered throws w l = l
  heard-Ordered polls w l = l
  heard-Ordered faults w l = tt

  hear-Ordered :
      (fuel : ℕ) (wait : Waits) (reset : Bool) (enumerate : ℕ → ℕ → Enumerated)
      → Keeps (Ordered h) (Ordered h) (hear p fuel wait reset enumerate)
  unfolding hear
  hear-Ordered fuel wait reset enumerate w l =
      let i = Wsa.get_interrupt fuel wait reset enumerate w.wsa_r [] in
      when-Keeps (Ordered h) (Ordered h) w.hearing (heard p i) (heard-Ordered i) w l

  module _ (kept : NeverNew p h) where
    new_conn-Ordered :
        (sock : ℕ) (cbs : Callbacks) → Keeps (Ordered h) (Ordered h) (new_conn p sock cbs)
    unfolding new_conn life
    new_conn-Ordered sock cbs w l = ground (arith, kept w.calls)

    start_connection-Ordered :
        (sock : ℕ) (addr : SockAddr) (cb : Callbacks)
        → Keeps (Ordered h) (Ordered h) (start_connection p sock addr cb)
    unfolding start_connection set_addr new_conn life
    start_connection-Ordered sock addr cb w l = ground (arith, kept w.calls)

    after_new_connect-Ordered :
        (sock : ℕ) (addr : SockAddr) (cb : Callbacks) (answer : ConnectAnswer)
        → Keeps (Ordered h) (Ordered h) (after_new_connect p sock addr cb answer)
    unfolding after_new_connect life
    after_new_connect-Ordered sock addr cb connect_at_once = start_connection-Ordered sock addr cb
    after_new_connect-Ordered sock addr cb connect_going_on = start_connection-Ordered sock addr cb
    after_new_connect-Ordered sock addr cb connect_timed_out = λ w l. l
    after_new_connect-Ordered sock addr cb connect_refused = λ w l. l

    connect_to-Ordered :
        (sock : ℕ) (addr : SockAddr) (cb : Callbacks)
        → Keeps (Ordered h) (Ordered h) (connect_to p sock addr cb)
    unfolding connect_to
    connect_to-Ordered sock addr cb w l =
        after_new_connect-Ordered sock addr cb (p.wsa_connect w.calls sock addr)
          (record w { calls = w.calls + 1 }) l

    make_conn-Ordered : Keeps (Ordered h) (Ordered h) (make_conn p)
    unfolding make_conn
    make_conn-Ordered w l =
        and_then-Post (Ordered h) (Ordered h) (open_socket p w) _ (open_socket-Ordered w l) λ found.
          option-Keeps (Ordered h) (Ordered h) found (pure 0) (λ sock. new_conn p sock no_callbacks)
            (λ v k. k) (λ sock. new_conn-Ordered sock no_callbacks)

    connect_new-Ordered :
        (ip port : ℕ) (cb : Callbacks) → Keeps (Ordered h) (Ordered h) (connect_new p ip port cb)
    unfolding connect_new
    connect_new-Ordered ip port cb w l =
        let addr : SockAddr = record { ip = ip; port = p.htons port } in
        and_then-Post (Ordered h) (Ordered h) (open_socket p w) _ (open_socket-Ordered w l) λ found.
          option-Keeps (Ordered h) (Ordered h) found (pure 0) (λ sock. connect_to p sock addr cb)
            (λ v k. k) (λ sock. connect_to-Ordered sock addr cb)

    pub perform-Ordered :
        (a : Action) → IsOther a → NotConnecting h a → Keeps (Ordered h) (Ordered h) (perform p a)
    unfolding perform
    perform-Ordered makes_conn c n w l =
        and_then-Post (Ordered h) (Ordered h) (make_conn p w) _ (make_conn-Ordered w l) λ _ v m. m
    perform-Ordered (connects j ip port cb) c n w l = connect-Ordered j ip port cb n w l
    perform-Ordered (connects_new ip port cb) c n w l =
        and_then-Post (Ordered h) (Ordered h) (connect_new p ip port cb w) _
          (connect_new-Ordered ip port cb w l) λ _ v m. m
    perform-Ordered (sends j bytes cb) c n w l = unfold send life in ground arith
    perform-Ordered (sends_plain j bytes) c n w l = unfold send_plain life in ground arith
    perform-Ordered (closes j) c n w l = unfold close_conn life in ground arith
    perform-Ordered (closes_wait j) c n w l = unfold close_conn_wait life in ground arith
    perform-Ordered (addrefs j) c n w l = unfold addref_conn life in ground arith
    perform-Ordered (releases j) c n w l = unfold release_conn life in ground arith
    perform-Ordered (releases_send s) c n w l = unfold release_send life in ground arith
    perform-Ordered (breaks s) c n w l = unfold break_send life in ground arith
    perform-Ordered stops_accepting c n w l = unfold stop_accepting life in ground arith
    perform-Ordered shuts_down c n w l = unfold shut_down life in ground arith
    perform-Ordered (hears fuel wait reset enumerate) c n w l =
        hear-Ordered fuel wait reset enumerate w l
    perform-Ordered (serves k ov) c n w l = elim c [ ]
