-- ===== src/Dispatcher/Loop.antt =====
-- thread_proc of tcp_dispatcher.cpp: one round of its loop, and the rounds.
use tcp_fsm.Base.{
  ℕ, ◌+◌, List, [], ◌∷◌, ◌++◌, Option, none, some, Bool, true, false, ◌==◌, not, if◌then◌else◌,
  has_flag,
}
use tcp_fsm.Base.OrderedMap
use tcp_fsm.Bandwidth
use tcp_fsm.Connection.{fd_read, fd_write, fd_close}
use tcp_fsm.Messages
use tcp_fsm.Messages.{
  InternalMessage, close_connection_code, create_connection_code, close_connection_wait_code,
  stop_accepting_code, send_request_code, break_send_code, do_nothing_code, exit_code,
}
use tcp_fsm.Connection.{is_closed}
use tcp_fsm.Platform.{Platform}
use tcp_fsm.Reactor
use tcp_fsm.Reactor.{InterruptInfo, WaitResult, Interrupts, interrupts, failed, waiting}
use tcp_fsm.World.{
  conn_object, addref, release, M, pure, ◌>>=◌, ◌>>◌, throw, crash, get, modify, emit, call, update,
  when,
}
use tcp_fsm.Dispatcher.Close.{create_connection, close_connection, connection_established}
use tcp_fsm.Dispatcher.Transfer.{do_recv, send_each, call_false_cb}
use tcp_fsm.Dispatcher.Accept.{accept_all}

-- `sem_post(&conn->close_sem)`
abbrev pub post_close : ℕ → M (Unit {0})
post_close h = modify λ w. record w {
  conns = update w.conns h (record (w.conns h) { close_sem = (w.conns h).close_sem + 1 });
}

-- `sendings->push_back(sr)` on the list of the connection, which is made if it is not there.
unfoldable pub enqueue_send : ℕ → ℕ → List (ℕ × List ℕ) → List (ℕ × List ℕ)
enqueue_send h s outgoings =
    OrderedMap.modify h (λ ss. ss ++ (s ∷ [])) (OrderedMap.insert h [] outgoings)

unfoldable pub send_request : ℕ → M (Unit {0})
send_request s = do
  w ← get
  let h = (w.sends s).iov.conn
  when (not (is_closed (w.conns h).state))
      (modify λ v. record v { outgoings = enqueue_send h s v.outgoings })

abbrev pub is_listening : Option ℕ → ℕ → Bool
is_listening none sock = false
is_listening (some l) sock = l == sock

abbrev pub is_nil : List (ℕ × InterruptInfo) → Bool
is_nil [] = true
is_nil (_ ∷ _) = false

module _ (p : Platform) where
  unfoldable pub on_create : ℕ → M Bool
  on_create h = do emit (addref (conn_object h)); create_connection p h; pure true

  unfoldable pub on_close : ℕ → M Bool
  on_close h = do close_connection p h; emit (release (conn_object h)); pure true

  unfoldable pub on_close_wait : ℕ → M Bool
  on_close_wait h = do close_connection p h; emit (release (conn_object h)); post_close h; pure true

  -- A message of the code that carries the pointer.
  unfoldable pub handle_pointer : ℕ → ℕ → M Bool
  handle_pointer code ptr =
      if code == create_connection_code
      then on_create ptr
      else if code == close_connection_code
      then on_close ptr
      else if code == close_connection_wait_code
      then on_close_wait ptr
      else if code == send_request_code
      then (do send_request ptr; pure true)
      else if code == break_send_code
      then (do call_false_cb p ptr; pure true)
      else pure true

  -- The switch over `*im.code`: false for the return from thread_proc. A code that takes a pointer
  -- and came without one reads an unset pointer.
  unfoldable pub handle_message : InternalMessage → M Bool
  handle_message m =
      if m.code == stop_accepting_code
      then (do modify (λ w. record w { accepted = false }); pure true)
      else if m.code == do_nothing_code
      then pure true
      else if m.code == exit_code
      then pure false
      else elim m.ptr [
        | none ↦
            if m.code == create_connection_code
            then crash
            else if m.code == close_connection_code
            then crash
            else if m.code == close_connection_wait_code
            then crash
            else if m.code == send_request_code
            then crash
            else if m.code == break_send_code
            then crash
            else pure true
        | some ptr ↦ handle_pointer m.code ptr
      ]

  -- An interrupt with the key 0.
  unfoldable pub handle_internal : M Bool
  handle_internal = do
    w ← get
    elim (Messages.pop w.i_messages) [
      | none ↦ pure true
      | some (m, rest) ↦ do modify (λ v. record v { i_messages = rest }); handle_message m
    ]

  -- The requests of one connection, with the guess for it.
  unfoldable pub send_conn : ℕ → List ℕ → Option ℕ → M (Unit {0})
  send_conn h ss guess = do
    rest ← send_each p ss guess
    modify λ w. record w { outgoings = OrderedMap.modify h (λ _. rest) w.outgoings }

  unfoldable pub on_writable : ℕ → M (Unit {0})
  on_writable h = do
    modify λ w. record w { bws = Bandwidth.on h w.bws }
    w ← get
    when (not (Bandwidth.is_enable w.bws))
        (elim (OrderedMap.find h w.outgoings) [ none ↦ pure tt | some ss ↦ send_conn h ss none ])

  unfoldable pub handle_write : ℕ → M (Unit {0})
  handle_write h = do
    w ← get
    if (w.conns h).cbs.connected
        then (do connection_established p h; emit (release (conn_object h)))
        else on_writable h

  unfoldable pub handle_read : ℕ → ℕ → M (Unit {0})
  handle_read fuel h = do
    w ← get
    if is_listening w.listening_socket (w.conns h).sock
        then (do accept_all p fuel; pure tt)
        else (do n ← do_recv p h; when (n == 0) (close_connection p h))

  -- An interrupt with another key. `fuel` is for the loop over new connections.
  unfoldable pub handle_external : ℕ → InterruptInfo → M (Unit {0})
  handle_external fuel info =
      if info.conn == 0
      then pure tt
      else if has_flag info.code fd_close
      then close_connection p info.conn
      else (do
        when (has_flag info.code fd_write) (handle_write info.conn)
        when (has_flag info.code fd_read) (handle_read fuel info.conn))

  -- The loop over the interrupts: false after _P_EXIT.
  unfoldable pub handle_all : ℕ → List (ℕ × InterruptInfo) → M Bool
  handle_all fuel [] = pure true
  handle_all fuel ((sock, info) ∷ rest) =
      if sock == 0
      then (do go_on ← handle_internal; if go_on then handle_all fuel rest else pure false)
      else (do handle_external fuel info; handle_all fuel rest)

  -- A loop over `outgoings`, without a guess or with the limiter's.
  unfoldable pub send_all_free : List (ℕ × List ℕ) → M (Unit {0})
  send_all_free [] = pure tt
  send_all_free ((h, ss) ∷ rest) = do send_conn h ss none; send_all_free rest

  unfoldable pub send_all_limited : List (ℕ × List ℕ) → M (Unit {0})
  send_all_limited [] = pure tt
  send_all_limited ((h, ss) ∷ rest) = do
    w ← get
    send_conn h ss (some (Bandwidth.guess h w.bws))
    send_all_limited rest

  -- `bws->recalc()`
  unfoldable pub recalc : M Bool
  recalc = do
    now ← call p.ftime
    w ← get
    elim (Bandwidth.recalc p.double now w.bws) [
      | none ↦ crash
      | some (b, over) ↦ do modify (λ v. record v { bws = b }); pure over
    ]

  -- What is done when no interrupt came.
  unfoldable pub idle : M (Unit {0})
  idle = do
    w ← get
    when (not (Bandwidth.is_enable w.bws)) (send_all_free w.outgoings)
    over ← recalc
    v ← get
    when (not over) (send_all_limited v.outgoings)

  -- What a round does with the interrupts. The list is cleared at its end.
  unfoldable pub serve : ℕ → Interrupts → M Bool
  serve fuel failed = throw
  serve fuel waiting = pure true
  serve fuel (interrupts _ r result) = do
    modify (λ v. record v { mr = r })
    go_on ← handle_all fuel result
    when (is_nil result) idle
    pure go_on

  -- One round, given what epoll_wait returns in it: false after _P_EXIT. A round for which no
  -- result of epoll_wait is left does nothing.
  unfoldable pub round : ℕ → List WaitResult → M Bool
  round fuel waits = do
    w ← get
    serve fuel (Reactor.get_interrupt (λ h. (w.conns h).sock) waits w.mr [])

  -- The thread, for a list of rounds.
  unfoldable pub thread_proc : ℕ → List (List WaitResult) → M (Unit {0})
  thread_proc fuel [] = pure tt
  thread_proc fuel (waits ∷ more) = do go_on ← round fuel waits; when go_on (thread_proc fuel more)
