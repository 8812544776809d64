-- ===== src/Dispatcher/Waking/Calling.antt =====
-- The methods that other threads call put a number into the pipe for each message.
use tcp_fsm.Base.{
  ℕ, ◌+◌, ◌≡◌, refl, List, [], ◌∷◌, ◌++◌, none, some, arith, inl, inr, Option-cases, All,
  length-append,
}
use tcp_fsm.Connection.{Callbacks, SockAddr}
use tcp_fsm.Messages
use tcp_fsm.Messages.{create_connection_code, send_request_code, InternalMessage, InternalMessages}
use tcp_fsm.Platform.{Platform}
use tcp_fsm.Reactor
use tcp_fsm.Reactor.{LinuxReactor}
use tcp_fsm.Monad.Post.{Keeps, and_then-Post}
use tcp_fsm.Dispatcher.Api.{
  make_conn, start_connection, connect, connect_new, send, send_plain, close_conn, close_conn_wait,
  addref_conn, release_conn, release_send, stop_accepting, set_bandwidth, break_send_request,
  break_send_init, shut_down,
}
use tcp_fsm.Dispatcher.Schedule.{
  Action, makes_conn, connects, connects_new, sends, sends_plain, closes, closes_wait, addrefs,
  releases, releases_send, breaks, inits_break, stops_accepting, shuts_down, sets_bandwidth, rounds,
  perform, IsCall,
}
use tcp_fsm.Dispatcher.Waking.{Matched, Woken, Ended}

All-append_zero : (ns : List ℕ) → All (λ n. n ≡ 0) ns → All (λ n. n ≡ 0) (ns ++ 0 ∷ [])
All-append_zero [] z = (refl, tt)
All-append_zero (n ∷ ns) z = (z.0, All-append_zero ns z.1)

module _ (fd : ℕ) where
  queued-Matched :
      (m : InternalMessage) (r : LinuxReactor) (q : InternalMessages)
      → Matched fd r q
      → Matched fd (Reactor.stop 0 0 r) (record { messages = q.messages ++ m ∷ [] })
  unfolding Reactor.stop
  queued-Matched m r q h = ground (
    arith,
    h.no_threads,
    All-append_zero r.pipe h.zeros,
    length-append r.pipe (0 ∷ []),
    length-append q.messages (m ∷ []),
  )

  push-Matched :
      (code : ℕ) (r : LinuxReactor) (q : InternalMessages)
      → Matched fd r q
      → Matched fd (Reactor.stop 0 0 r) (Messages.push code q)
  unfolding Messages.push
  push-Matched code = queued-Matched (record { code = code; ptr = none })

  push_ptr-Matched :
      (code ptr : ℕ) (r : LinuxReactor) (q : InternalMessages)
      → Matched fd r q
      → Matched fd (Reactor.stop 0 0 r) (Messages.push_ptr code ptr q)
  unfolding Messages.push_ptr
  push_ptr-Matched code ptr = queued-Matched (record { code = code; ptr = some ptr })

  module _ (p : Platform) where
    make_conn-Woken : Keeps (Woken fd) Ended (make_conn p)
    unfolding make_conn
    make_conn-Woken w h = elim (Option-cases (p.socket w.calls)) [
      | inl e ↦ ground arith
      | inr (sock, e) ↦ ground arith
    ]

    start_connection-Woken :
        (sock : ℕ) (addr : SockAddr) (cb : Callbacks)
        → Keeps (Woken fd) Ended (start_connection p sock addr cb)
    unfolding start_connection
    start_connection-Woken sock addr cb w h = push_ptr-Matched _ _ w.mr w.i_messages h

    connect_new-Woken :
        (ip port : ℕ) (cb : Callbacks) → Keeps (Woken fd) Ended (connect_new p ip port cb)
    unfolding connect_new
    connect_new-Woken ip port cb w h = elim (Option-cases (p.socket w.calls)) [
      | inl e ↦ ground arith
      | inr (sock, e) ↦ ground (
        arith,
        start_connection-Woken sock (record { ip = ip; port = p.htons port }) cb
            (record w { calls = w.calls + 1 + 1 + 1 }) h,
      )
    ]

    pub call-Woken : (a : Action) → IsCall a → Keeps (Woken fd) Ended (perform p a)
    unfolding perform
    call-Woken makes_conn c w h =
        and_then-Post (Woken fd) Ended (make_conn p w) _ (make_conn-Woken w h) λ _ v k. k
    call-Woken (connects j ip port cb) c w h =
        unfold connect in
        ground (arith, push_ptr-Matched create_connection_code j w.mr w.i_messages h)
    call-Woken (connects_new ip port cb) c w h =
        and_then-Post (Woken fd) Ended (connect_new p ip port cb w) _
          (connect_new-Woken ip port cb w h) λ _ v k. k
    call-Woken (sends j bytes cb) c w h = unfold send in push_ptr-Matched _ _ w.mr w.i_messages h
    call-Woken (sends_plain j bytes) c w h =
        unfold send_plain in
        ground
          (arith, push_ptr-Matched send_request_code (p.new_object w.calls) w.mr w.i_messages h)
    call-Woken (closes j) c w h = unfold close_conn in push_ptr-Matched _ _ w.mr w.i_messages h
    call-Woken (closes_wait j) c w h =
        unfold close_conn_wait in push_ptr-Matched _ _ w.mr w.i_messages h
    call-Woken (addrefs j) c w h = unfold addref_conn in h
    call-Woken (releases j) c w h = unfold release_conn in h
    call-Woken (releases_send j) c w h = unfold release_send in h
    call-Woken (breaks j) c w h =
        unfold break_send_request in push_ptr-Matched _ _ w.mr w.i_messages h
    call-Woken (inits_break j) c w h = unfold break_send_init in h
    call-Woken stops_accepting c w h = unfold stop_accepting in push-Matched _ w.mr w.i_messages h
    call-Woken shuts_down c w h = unfold shut_down in push-Matched _ w.mr w.i_messages h
    call-Woken (sets_bandwidth m) c w h = unfold set_bandwidth in h
    call-Woken (rounds fuel waits) c w h = elim c [ ]
