-- ===== src/Dispatcher/Invariant/Looping.antt =====
-- The loops of the dispatcher's thread keep what its handlers keep.
use tcp_fsm.Base.{
  ℕ, zero, suc, ◌+◌, List, [], ◌∷◌, Option, none, some, true, false, not, ◌==◌, if◌then◌else◌,
  has_flag, arith, inl, inr, Option-cases,
}
use tcp_fsm.Base.OrderedMap
use tcp_fsm.Bandwidth
use tcp_fsm.Connection.{fd_read, fd_write}
use tcp_fsm.Messages
use tcp_fsm.Messages.{InternalMessage, InternalMessages}
use tcp_fsm.Platform.{Platform}
use tcp_fsm.Reactor.{InterruptInfo}
use tcp_fsm.World.{World, pure, emit, addref, release, conn_object, when}
use tcp_fsm.Monad.Post.{Keeps, and_then-Post, when-Keeps, if-Keeps}
use tcp_fsm.Dispatcher.Close.{close_connection, connection_established, create_connection}
use tcp_fsm.Dispatcher.Transfer.{do_recv, do_send, send_each, call_false_cb}
use tcp_fsm.Dispatcher.Accept.{accept_connection, accept_all}
use tcp_fsm.Dispatcher.Loop.{
  send_request, on_create, on_close, on_close_wait, handle_pointer, handle_message, handle_internal,
  send_conn, on_writable, handle_write, handle_read, handle_external, handle_all, send_all_free,
  send_all_limited, recalc, idle, enqueue_send,
}
use tcp_fsm.Dispatcher.Invariant.{Handled}

module _ (p : Platform) (P Q : World → Type 0) (inv : Handled p P Q) where
  open inv use {frame, counted_up, counted_down}

  -- A change of one of the fields that the property is not about.
  with_outgoings : (w : World) (o : List (ℕ × List ℕ)) → P w → P (record w { outgoings = o })
  with_outgoings w o l = frame w o w.bws w.calls (omega arith) l

  with_bws : (w : World) (b : Bandwidth.Bwstop) → P w → P (record w { bws = b })
  with_bws w b l = frame w w.outgoings b w.calls (omega arith) l

  on_create-Keeps : (j : ℕ) → Keeps P Q (on_create p j)
  unfolding on_create
  on_create-Keeps j w l =
      and_then-Post P Q (create_connection p j (record w { log = addref (conn_object j) ∷ w.log }))
        _ (inv.created j _ (counted_up w (conn_object j) l)) λ _ v k. k

  on_close-Keeps : (j : ℕ) → Keeps P Q (on_close p j)
  unfolding on_close
  on_close-Keeps j w l =
      and_then-Post P Q (close_connection p j w) _ (inv.closed j w l)
        λ _ v k. counted_down v (conn_object j) k

  on_close_wait-Keeps : (j : ℕ) → Keeps P Q (on_close_wait p j)
  unfolding on_close_wait
  on_close_wait-Keeps j w l =
      and_then-Post P Q (close_connection p j w) _ (inv.closed j w l)
        λ _ v k. inv.close_posted j _ (counted_down v (conn_object j) k)

  send_request-Keeps : (s : ℕ) → Keeps P Q (send_request s)
  unfolding send_request
  send_request-Keeps s w l =
      ground (arith, with_outgoings w (enqueue_send (w.sends s).iov.conn s w.outgoings) l)

  handle_pointer-Keeps : (code ptr : ℕ) → Keeps P Q (handle_pointer p code ptr)
  unfolding handle_pointer
  handle_pointer-Keeps code ptr w l = ground (
    arith,
    on_create-Keeps ptr w l,
    on_close-Keeps ptr w l,
    on_close_wait-Keeps ptr w l,
    and_then-Post P Q (send_request ptr w) (λ _. pure true) (send_request-Keeps ptr w l)
        (λ _ v m. m),
    and_then-Post P Q (call_false_cb p ptr w) (λ _. pure true) (inv.broken_off ptr w l)
        (λ _ v m. m),
  )

  pub handle_message-Keeps : (m : InternalMessage) → Keeps P Q (handle_message p m)
  unfolding handle_message
  handle_message-Keeps m w l = elim (Option-cases m.ptr) [
    | inl e ↦ ground (arith, inv.stopped w l)
    | inr (ptr, e) ↦ ground (arith, inv.stopped w l, handle_pointer-Keeps m.code ptr w l)
  ]

  handle_internal-Keeps : Keeps P Q (handle_internal p)
  unfolding handle_internal
  handle_internal-Keeps w l = elim (Option-cases (Messages.pop w.i_messages)) [
    | inl e ↦ ground arith
    | inr ((m, rest), e) ↦
        ground
          (arith, handle_message-Keeps m (record w { i_messages = rest }) (inv.popped w m rest e l))
  ]

  send_each-Keeps : (ss : List ℕ) (guess : Option ℕ) → Keeps P Q (send_each p ss guess)
  unfolding send_each
  send_each-Keeps [] guess w l = l
  send_each-Keeps (s ∷ ss) guess w l =
      and_then-Post P Q (do_send p s guess w) _ (inv.sent s guess w l) λ a v k. ground (
        arith,
        and_then-Post P Q (send_each p ss a.1 v) (λ rest. pure (s ∷ rest))
            (send_each-Keeps ss a.1 v k) (λ rest u m. m),
      )

  accept_all-Keeps : (fuel : ℕ) → Keeps P Q (accept_all p fuel)
  unfolding accept_all
  accept_all-Keeps zero w l = l
  accept_all-Keeps (suc fuel) w l =
      and_then-Post P Q (accept_connection p w) _ (inv.accepts w l)
        λ a v k. ground (arith, accept_all-Keeps fuel v k)

  send_conn-Keeps : (j : ℕ) (ss : List ℕ) (guess : Option ℕ) → Keeps P Q (send_conn p j ss guess)
  unfolding send_conn
  send_conn-Keeps j ss guess w l =
      and_then-Post P Q (send_each p ss guess w) _ (send_each-Keeps ss guess w l)
        λ rest v k. with_outgoings v _ k

  on_writable-Keeps : (j : ℕ) → Keeps P Q (on_writable p j)
  unfolding on_writable
  on_writable-Keeps j w l =
      let writable = with_bws w (Bandwidth.on j w.bws) l in
      elim (Option-cases (OrderedMap.find j w.outgoings)) [
        | inl e ↦ ground (arith, writable)
        | inr (ss, e) ↦ ground (
          arith,
          writable,
          send_conn-Keeps j ss none (record w { bws = Bandwidth.on j w.bws }) writable,
        )
      ]

  handle_write-Keeps : (j : ℕ) → Keeps P Q (handle_write p j)
  unfolding handle_write
  handle_write-Keeps j w l = ground (
    arith,
    on_writable-Keeps j w l,
    and_then-Post P Q (connection_established p j w) (λ _. emit (release (conn_object j)))
        (inv.established j w l) (λ _ v m. counted_down v (conn_object j) m),
  )

  handle_read-Keeps : (fuel j : ℕ) → Keeps P Q (handle_read p fuel j)
  unfolding handle_read
  handle_read-Keeps fuel j w l = ground (
    arith,
    and_then-Post P Q (accept_all p fuel w) (λ _. pure tt) (accept_all-Keeps fuel w l) (λ _ v m. m),
    and_then-Post P Q (do_recv p j w) (λ n. when (n == 0) (close_connection p j))
        (inv.received j w l) (λ n. when-Keeps P Q (n == 0) (close_connection p j) (inv.closed j)),
  )

  pub handle_external-Keeps :
      (fuel : ℕ) (info : InterruptInfo) → Keeps P Q (handle_external p fuel info)
  unfolding handle_external
  handle_external-Keeps fuel info w l =
      let writable = has_flag info.code fd_write in
      let readable = has_flag info.code fd_read in
      ground (
        arith,
        inv.closed info.conn w l,
        and_then-Post P Q (when writable (handle_write p info.conn) w)
            (λ _. when readable (handle_read p fuel info.conn))
            (when-Keeps P Q writable (handle_write p info.conn) (handle_write-Keeps info.conn) w l)
            (λ _.
              when-Keeps P Q readable (handle_read p fuel info.conn)
                (handle_read-Keeps fuel info.conn)),
      )

  pub handle_all-Keeps :
      (fuel : ℕ) (result : List (ℕ × InterruptInfo)) → Keeps P Q (handle_all p fuel result)
  unfolding handle_all
  handle_all-Keeps fuel [] w l = l
  handle_all-Keeps fuel ((sock, info) ∷ rest) w l = ground (
    arith,
    and_then-Post P Q (handle_internal p w)
        (λ go_on. if go_on then handle_all p fuel rest else pure false) (handle_internal-Keeps w l)
        (λ go_on.
          if-Keeps P Q go_on (handle_all p fuel rest) (pure false) (handle_all-Keeps fuel rest)
            (λ v k. k)),
    and_then-Post P Q (handle_external p fuel info w) (λ _. handle_all p fuel rest)
        (handle_external-Keeps fuel info w l) (λ _. handle_all-Keeps fuel rest),
  )

  send_all_free-Keeps : (outgoings : List (ℕ × List ℕ)) → Keeps P Q (send_all_free p outgoings)
  unfolding send_all_free
  send_all_free-Keeps [] w l = l
  send_all_free-Keeps ((j, ss) ∷ rest) w l =
      and_then-Post P Q (send_conn p j ss none w) _ (send_conn-Keeps j ss none w l)
        λ _. send_all_free-Keeps rest

  send_all_limited-Keeps :
      (outgoings : List (ℕ × List ℕ)) → Keeps P Q (send_all_limited p outgoings)
  unfolding send_all_limited
  send_all_limited-Keeps [] w l = l
  send_all_limited-Keeps ((j, ss) ∷ rest) w l =
      let guess = some (Bandwidth.guess j w.bws) in
      and_then-Post P Q (send_conn p j ss guess w) _ (send_conn-Keeps j ss guess w l)
        λ _. send_all_limited-Keeps rest

  recalc-Keeps : Keeps P Q (recalc p)
  unfolding recalc
  recalc-Keeps w l = elim (Option-cases (Bandwidth.recalc p.double (p.ftime w.calls) w.bws)) [
    | inl e ↦ ground arith
    | inr ((b, over), e) ↦ ground (arith, frame w w.outgoings b (w.calls + 1) (omega arith) l)
  ]

  pub idle-Keeps : Keeps P Q (idle p)
  unfolding idle
  idle-Keeps w l =
      and_then-Post P Q (when (not (Bandwidth.is_enable w.bws)) (send_all_free p w.outgoings) w) _
        (when-Keeps P Q (not (Bandwidth.is_enable w.bws)) (send_all_free p w.outgoings)
          (send_all_free-Keeps w.outgoings) w l)
        λ _ v k. and_then-Post P Q (recalc p v) _ (recalc-Keeps v k) λ excess u m.
          when-Keeps P Q (not excess) (send_all_limited p u.outgoings)
            (send_all_limited-Keeps u.outgoings) u m
