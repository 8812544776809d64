-- ===== src/Biocp/Invariant/Looping.antt =====
-- The handlers of messages, events and packets keep every invariant.
use tcp_fsm.Base.{
  ℕ, ◌+◌, ◌++◌, List, [], ◌∷◌, Option, none, some, true, false, ◌==◌, not, arith, inl, inr,
  Option-cases,
}
use tcp_fsm.Completion
use tcp_fsm.Completion.{Packet, Transfer}
use tcp_fsm.Connection.{fd_accept}
use tcp_fsm.Effects.{Object, conn_object, release, send_object, recv_object}
use tcp_fsm.Messages
use tcp_fsm.Messages.{InternalMessage, InternalMessages}
use tcp_fsm.Monad.{pure, ◌>>◌, when}
use tcp_fsm.Monad.Post.{Keeps, and_then-Post, bind-Keeps, if-Keeps, when-Keeps}
use tcp_fsm.Biocp.State.{Calls, External, BiocpWorld}
use tcp_fsm.Biocp.Invariant.{Invariant}
use tcp_fsm.Biocp.Schedule.{Action}
use tcp_fsm.Biocp.Close.{erase_first, close_connection, release_all, free_not_completed_objects}
use tcp_fsm.Biocp.Accept.{accept_connection, connection_established}
use tcp_fsm.Biocp.Loop.{
  Overlapped, of_recv, of_send, as_request, store, post_close, find_conn, stop_hearing, on_connect,
  on_lost, handle_external, on_create, on_close, on_close_wait, handle_pointer, handle_message,
  handle_popped, handle_internal, complete, handle, transferred, round,
}

module _ (p : Calls) (P Q R : BiocpWorld → Type 0) (Allowed : Action → Type 0)
    (inv : Invariant p P Q R Allowed) where
  open inv use {frame, counted_up, counted_down}

  -- A change of one of the fields that the property is not about.
  with_messages : (w : BiocpWorld) (q : InternalMessages) → P w → P (record w { i_messages = q })
  with_messages w q l = frame w q w.calls w.conns w.recvs w.sends l

  with_conns : (w : BiocpWorld) (hs : List ℕ) → P w → P (record w { conns = hs })
  with_conns w hs l = frame w w.i_messages w.calls hs w.recvs w.sends l

  with_calls : (w : BiocpWorld) (n : ℕ) → P w → P (record w { calls = n })
  with_calls w n l = frame w w.i_messages n w.conns w.recvs w.sends l

  release_all-Keeps : (object : ℕ → Object) (xs : List ℕ) → Keeps P Q (release_all object xs)
  unfolding release_all
  release_all-Keeps object [] w l = l
  release_all-Keeps object (x ∷ xs) w l =
      release_all-Keeps object xs _ (counted_down w (object x) l)

  free-Keeps : Keeps P Q free_not_completed_objects
  unfolding free_not_completed_objects
  free-Keeps w l =
      and_then-Post P Q (release_all send_object w.sends w) _
        (release_all-Keeps send_object w.sends w l)
        λ _ v k.
          and_then-Post P Q (release_all recv_object w.recvs v) _
            (release_all-Keeps recv_object w.recvs v k)
            λ _ v k.
              and_then-Post P Q (release_all conn_object w.conns v) _
                (release_all-Keeps conn_object w.conns v k)
                λ _ v k. frame v v.i_messages v.calls [] [] [] k

  stop_hearing-Keeps : Keeps P Q (stop_hearing p)
  unfolding stop_hearing
  stop_hearing-Keeps w l = ground (
    arith,
    with_calls w (w.calls + 1) l,
    with_calls w (w.calls + 1 + 1) l,
    inv.weaken (record w { calls = w.calls + 1 }),
    inv.weaken (record w { calls = w.calls + 1 + 1 }),
  )

  on_lost-Keeps : (o : Option ℕ) → Keeps P Q (on_lost p o)
  unfolding on_lost
  on_lost-Keeps none w l = l
  on_lost-Keeps (some j) w l =
      and_then-Post P Q (close_connection p j true w) _ (inv.closed j true w l) λ _ v k. tt

  on_create-Keeps : (j : ℕ) → Keeps P Q (on_create p j)
  unfolding on_create
  on_create-Keeps j w l =
      inv.created j _ (counted_up _ (conn_object j) (with_conns w (w.conns ++ j ∷ []) l))

  on_close-Keeps : (j : ℕ) → Keeps P Q (on_close p j)
  unfolding on_close
  on_close-Keeps j w l =
      and_then-Post P Q (close_connection p j false (record w { conns = w.conns ++ j ∷ [] })) _
        (inv.closed j false _ (with_conns w (w.conns ++ j ∷ []) l))
        λ _ v k. counted_down v (conn_object j) k

  on_close_wait-Keeps : (j : ℕ) → Keeps P Q (on_close_wait p j)
  unfolding on_close_wait
  on_close_wait-Keeps j =
      bind-Keeps P Q (on_close p j) (λ _. post_close j) (on_close-Keeps j) λ _. inv.close_posted j

  complete-Keeps : (r_conn code : ℕ) (ov : Overlapped) → Keeps P Q (complete p r_conn code ov)
  unfolding complete
  complete-Keeps r_conn code (of_recv r) w l =
      ground (arith, inv.received r w l, inv.closed r_conn true w l)
  complete-Keeps r_conn code (of_send s) w l =
      ground (arith, inv.was_sent s w l, inv.closed r_conn true w l)

  on_connect-Keeps : (o : Option ℕ) → Keeps P Q (on_connect p o)
  unfolding on_connect
  on_connect-Keeps none w l = l
  on_connect-Keeps (some j) w l =
      and_then-Post P Q (connection_established p j w) _ (inv.established j w l) λ kept_open v k.
        ground (
          arith,
          counted_down v (conn_object j) k,
          with_conns (record v { log = release (conn_object j) ∷ v.log }) (erase_first j v.conns),
        )

  handle_external-Keeps : (em : External) → Keeps P Q (handle_external p em)
  unfolding handle_external
  handle_external-Keeps em w l =
      and_then-Post P Q (when (em.events == fd_accept) (accept_connection p) w) _
        (when-Keeps P Q (em.events == fd_accept) (accept_connection p) (inv.accepts) w l)
        λ _ v k.
          let found = find_conn em.sock v.conns v in
          ground (arith, on_connect-Keeps found v k, on_lost-Keeps found v k)

  handle_pointer-Keeps : (code ptr : ℕ) → Keeps P Q (handle_pointer p code ptr)
  unfolding handle_pointer
  handle_pointer-Keeps code ptr w l = ground (
    arith,
    on_create-Keeps ptr w l,
    on_close-Keeps ptr w l,
    on_close_wait-Keeps ptr w l,
    inv.requested ptr w l,
    inv.broken_off ptr w l,
    handle_external-Keeps (w.external_at ptr) w l,
  )

  -- The message _P_EXIT.
  exit-Keeps : Keeps P Q (free_not_completed_objects >> (stop_hearing p >> pure false))
  exit-Keeps =
      bind-Keeps P Q free_not_completed_objects (λ _. stop_hearing p >> pure false) free-Keeps
        λ _. bind-Keeps P Q (stop_hearing p) (λ _. pure false) stop_hearing-Keeps (λ _ v k. k)

  handle_message-Keeps : (m : InternalMessage) → Keeps P Q (handle_message p m)
  unfolding handle_message
  handle_message-Keeps m w l = elim (Option-cases m.ptr) [
    | inl e ↦ ground (arith, inv.stopped w l, exit-Keeps w l)
    | inr (ptr, e) ↦ ground (
      arith,
      inv.stopped w l,
      exit-Keeps w l,
      and_then-Post P Q (handle_pointer p m.code ptr w) (λ _. pure true)
          (handle_pointer-Keeps m.code ptr w l) (λ _ v k. k),
    )
  ]

  handle_popped-Keeps :
      (o : Option (InternalMessage × InternalMessages)) → Keeps P Q (handle_popped p o)
  unfolding handle_popped
  handle_popped-Keeps none w l = tt
  handle_popped-Keeps (some (m, rest)) w l =
      handle_message-Keeps m (record w { i_messages = rest }) (with_messages w rest l)

  handle_internal-Keeps : Keeps P Q (handle_internal p)
  unfolding handle_internal
  handle_internal-Keeps w = handle_popped-Keeps (Messages.pop w.i_messages) w

  handle-Keeps :
      (r_conn : ℕ) (ov : Overlapped) (result : List (ℕ × ℕ)) → Keeps P Q (handle p r_conn ov result)
  unfolding handle
  handle-Keeps r_conn ov [] = λ w l. tt
  handle-Keeps r_conn ov ((sock, code) ∷ more) =
      if-Keeps P Q (sock == 0) (handle_internal p) (complete p r_conn code ov >> pure true)
        handle_internal-Keeps
        (bind-Keeps P Q (complete p r_conn code ov) (λ _. pure true) (complete-Keeps r_conn code ov)
          (λ _ v k. k))

  transferred-Keeps :
      (k : Packet) (ov : Overlapped) (o : Option Transfer) → Keeps P Q (transferred p k ov o)
  unfolding transferred
  transferred-Keeps k ov none = λ w l. tt
  transferred-Keeps k ov (some t) =
      bind-Keeps P Q (when (not (k.overlap == 0)) (store ov (t.requests k.overlap)))
        (λ _. handle p t.rconn ov t.result)
        (when-Keeps P Q (not (k.overlap == 0)) (store ov (t.requests k.overlap))
          (inv.stored ov (t.requests k.overlap)))
        λ _. handle-Keeps t.rconn ov t.result

  pub round-Keeps : (k : Packet) (ov : Overlapped) → Keeps P Q (round p k ov)
  unfolding round
  round-Keeps k ov w =
      transferred-Keeps k ov (Completion.get_transfer 0 k (λ a. as_request ov w) []) w
