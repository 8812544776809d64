-- ===== src/Win/Invariant/Running.antt =====
-- Every schedule keeps every invariant.
use tcp_fsm.Base.{
  ℕ, ◌+◌, ◌++◌, List, [], ◌∷◌, Option, none, some, Bool, true, false, not, ◌==◌, All, arith, inl,
  inr, Option-cases, Bool-cases,
}
use tcp_fsm.Bandwidth
use tcp_fsm.Completion
use tcp_fsm.Completion.{Packet}
use tcp_fsm.Effects.{Object, overlap_object, accept_object, send_object, recv_object, conn_object}
use tcp_fsm.Messages
use tcp_fsm.Messages.{InternalMessage, InternalMessages}
use tcp_fsm.Monad.{Answer, done, thrown, fault, pure, ◌>>=◌, try_catch, and_then, modify, when}
use tcp_fsm.Monad.Post.{Post, Keeps, and_then-Post, bind-Keeps, when-Keeps, when-Post}
use tcp_fsm.Win.State.{Windows, WinWorld}
use tcp_fsm.Win.Close.{close_connection, release_all, free_not_completed_objects}
use tcp_fsm.Win.Transfer.{
  do_send, send_request, keep_send, refresh_guess, guess_or, send_guessed, send_up_to_guess,
  send_all, sendbt,
}
use tcp_fsm.Win.Loop.{
  Overlap, of_accept, of_connect, of_recv, of_send, iov_of, as_request, close, close_wait,
  handle_pointer, handle_message, handle_popped, handle_internal, complete, recalc, idle, handle,
  round, serve,
}
use tcp_fsm.Win.Schedule.{Action, serves, perform, run}
use tcp_fsm.Win.Invariant.{Invariant}

module _ (p : Windows) (P Q R : WinWorld → Type 0) (Allowed : Action → Type 0)
    (inv : Invariant p P Q R Allowed) where
  open inv use {frame, counted_down}

  with_messages : (w : WinWorld) (q : InternalMessages) → P w → P (record w { i_messages = q })
  with_messages w q l = frame w q w.bws w.transfered_bytes w.calls w.conns w.sends l

  with_sends : (w : WinWorld) (ss : List ℕ) → P w → P (record w { sends = ss })
  with_sends w ss l = frame w w.i_messages w.bws w.transfered_bytes w.calls w.conns ss l

  with_conns : (w : WinWorld) (hs : List ℕ) → P w → P (record w { conns = hs })
  with_conns w hs l = frame w w.i_messages w.bws w.transfered_bytes w.calls hs w.sends l

  with_size : (w : WinWorld) (n : ℕ) → P w → P (record w { transfered_bytes = n })
  with_size w n l = frame w w.i_messages w.bws n w.calls w.conns w.sends l

  close-Keeps : (j : ℕ) → Keeps P Q (close p j)
  unfolding close
  close-Keeps j w l =
      and_then-Post P Q (close_connection p j false (record w { conns = w.conns ++ j ∷ [] })) _
        (inv.closed j false _ (with_conns w (w.conns ++ j ∷ []) l))
        λ _ v k. counted_down v (conn_object j) k

  close_wait-Keeps : (j : ℕ) → Keeps P Q (close_wait p j)
  unfolding close_wait
  close_wait-Keeps j w l =
      and_then-Post P Q (close_connection p j false (record w { conns = w.conns ++ j ∷ [] })) _
        (inv.closed j false _ (with_conns w (w.conns ++ j ∷ []) l))
        λ _ v k. counted_down _ (conn_object j) (inv.close_posted j v k)

  release_all-Keeps : (object : ℕ → Object) (xs : List ℕ) → Keeps P Q (release_all object xs)
  unfolding release_all
  release_all-Keeps object [] w l = l
  release_all-Keeps object (x ∷ xs) w l =
      release_all-Keeps object xs _ (counted_down w (object x) l)

  free-Keeps : Keeps P Q free_not_completed_objects
  unfolding free_not_completed_objects
  free-Keeps w l =
      and_then-Post P Q (release_all overlap_object w.overlaps w) _
        (release_all-Keeps overlap_object w.overlaps w l)
        λ _ v k.
          and_then-Post P Q (release_all accept_object w.accepts v) _
            (release_all-Keeps accept_object w.accepts v k)
            λ _ v k.
              and_then-Post P Q (release_all send_object w.sends v) _
                (release_all-Keeps send_object w.sends v k)
                λ _ v k.
                  and_then-Post P Q (release_all recv_object w.recvs v) _
                    (release_all-Keeps recv_object w.recvs v k)
                    λ _ v k.
                      and_then-Post P Q (release_all conn_object w.conns v) _
                        (release_all-Keeps conn_object w.conns v k) λ _ v k. inv.freed v k

  send_request-Keeps : (s : ℕ) → Keeps P Q (send_request p s)
  unfolding send_request keep_send
  send_request-Keeps s w l = elim (Bool-cases (Bandwidth.is_enable w.bws)) [
    | inl on ↦ simp on (with_sends w (w.sends ++ s ∷ []) l)
    | inr off ↦ simp off (
        and_then-Post P Q (do_send p s none w) _ (inv.sent s none w l)
          λ r v k. ground (arith, with_sends v (v.sends ++ s ∷ []) k))
  ]

  refresh_guess-Keeps : (j : ℕ) → Keeps P Q (refresh_guess j)
  unfolding refresh_guess
  refresh_guess-Keeps j w l = inv.guessed w j _ l

  send_up_to_guess-Keeps : (s h : ℕ) → Keeps P Q (send_up_to_guess p s h)
  unfolding send_up_to_guess
  send_up_to_guess-Keeps s h v k =
      and_then-Post P Q (do_send p s (some (v.conn_at h).guess) v) _
        (inv.sent s (some (v.conn_at h).guess) v k)
        λ r u m. inv.guessed u h (guess_or (u.conn_at h).guess r.1) m

  send_guessed-Keeps : (s : ℕ) → Keeps P Q (send_guessed p s)
  unfolding send_guessed
  send_guessed-Keeps s w l =
      and_then-Post P Q (refresh_guess (w.send_at s).iov.conn w) _
        (refresh_guess-Keeps (w.send_at s).iov.conn w l)
        λ _. send_up_to_guess-Keeps s (w.send_at s).iov.conn

  send_all-Keeps : (ss : List ℕ) → Keeps P Q (send_all p ss)
  unfolding send_all
  send_all-Keeps [] w l = l
  send_all-Keeps (s ∷ ss) w l =
      and_then-Post P Q (send_guessed p s w) _ (send_guessed-Keeps s w l)
        λ over v k. ground (arith, send_all-Keeps ss v k)

  sendbt-Keeps : Keeps P Q (sendbt p)
  unfolding sendbt
  sendbt-Keeps w l = send_all-Keeps w.sends w l

  handle_pointer-Keeps : (code ptr : ℕ) → Keeps P Q (handle_pointer p code ptr)
  unfolding handle_pointer
  handle_pointer-Keeps code ptr w l = ground (
    arith,
    inv.created ptr w l,
    close-Keeps ptr w l,
    close_wait-Keeps ptr w l,
    send_request-Keeps ptr w l,
    inv.broken_off ptr w l,
  )

  handle_message-Keeps : (m : InternalMessage) → Keeps P Q (handle_message p m)
  unfolding handle_message
  handle_message-Keeps m w l = elim (Option-cases m.ptr) [
    | inl e ↦ ground (
      arith,
      inv.stopped w l,
      and_then-Post P Q (free_not_completed_objects w) (λ _. pure false) (free-Keeps w l)
          (λ _ v k. k),
    )
    | inr (ptr, e) ↦ ground (
      arith,
      inv.stopped w l,
      and_then-Post P Q (free_not_completed_objects w) (λ _. pure false) (free-Keeps w l)
          (λ _ v k. k),
      and_then-Post P Q (handle_pointer p m.code ptr w) (λ _. pure true)
          (handle_pointer-Keeps m.code ptr w l) (λ _ v k. k),
    )
  ]

  handle_popped-Keeps :
      (o : Option (InternalMessage × InternalMessages)) → Keeps P Q (handle_popped p o)
  unfolding handle_popped
  handle_popped-Keeps none w l = tt
  handle_popped-Keeps (some (m, rest)) w l =
      handle_message-Keeps m (record w { i_messages = rest }) (with_messages w rest l)

  handle_internal-Keeps : Keeps P Q (handle_internal p)
  unfolding handle_internal
  handle_internal-Keeps w = handle_popped-Keeps (Messages.pop w.i_messages) w

  complete-Keeps : (code : ℕ) (ov : Overlap) → Keeps P Q (complete p code ov)
  unfolding complete
  complete-Keeps code (of_accept a) w l = ground (arith, inv.accepts a w l)
  complete-Keeps code (of_connect o) w l =
      ground (arith, inv.closed (w.overlap_at o).conn true w l, inv.connected o w l)
  complete-Keeps code (of_recv r) w l =
      ground (arith, inv.closed (w.recv_at r).iov.conn true w l, inv.received r w l)
  complete-Keeps code (of_send s) w l =
      ground (arith, inv.closed (w.send_at s).iov.conn true w l, inv.was_sent s w l)

  recalc-Keeps : Keeps P Q (recalc p)
  unfolding recalc
  recalc-Keeps w l = elim (Option-cases (Bandwidth.recalc p.double (p.ftime w.calls) w.bws)) [
    | inl e ↦ ground arith
    | inr ((b, over), e) ↦
        ground (arith, frame w w.i_messages b w.transfered_bytes (w.calls + 1) w.conns w.sends l)
  ]

  rest_sent-Keeps : Keeps P Q (recalc p >>= λ over. when (not over) (sendbt p))
  rest_sent-Keeps =
      bind-Keeps P Q (recalc p) _ recalc-Keeps
        λ over. when-Keeps P Q (not over) (sendbt p) sendbt-Keeps

  idle-Keeps : Keeps P Q (idle p)
  unfolding idle
  idle-Keeps w =
      when-Keeps P Q (Bandwidth.is_enable w.bws) (recalc p >>= λ over. when (not over) (sendbt p))
        rest_sent-Keeps w

  handle-Keeps : (ov : Overlap) (r : Option (ℕ × List (ℕ × ℕ))) → Keeps P Q (handle p ov r)
  unfolding handle
  handle-Keeps ov none w l = tt
  handle-Keeps ov (some (size, [])) w l =
      and_then-Post P Q (idle p (record w { transfered_bytes = size })) _
        (idle-Keeps _ (with_size w size l)) λ _ v k. k
  handle-Keeps ov (some (size, (sock, code) ∷ more)) w l = elim (Bool-cases (sock == 0)) [
    | inl zero_sock ↦ simp zero_sock (handle_internal-Keeps _ (with_size w size l))
    | inr other ↦ simp other (
        and_then-Post P Q (complete p code ov (record w { transfered_bytes = size })) _
          (complete-Keeps code ov _ (with_size w size l)) λ _ v k. k)
  ]

  -- After an exception the thread ends.
  ends :
      (w : WinWorld) (r : Answer WinWorld Bool)
      → Post P Q r
      → Post R R (
          and_then
            (try_catch (λ _. r) (pure false) w)
            (λ go_on. modify (λ v. record v { running = go_on })))
  ends w (done true v) h = inv.leave v h
  ends w (done false v) h = inv.ended v (inv.weaken v h)
  ends w (thrown v) h = inv.ended v h
  ends w fault h = tt

  round-Keeps : (k : Packet) (ov : Overlap) → Keeps P Q (round p k ov)
  unfolding round
  round-Keeps k ov w l =
      handle-Keeps ov (Completion.get_plain_transfer k (λ a. as_request (iov_of ov w)) []) w l

  serve-Keeps : (k : Packet) (ov : Overlap) → Keeps R R (serve p k ov)
  unfolding serve
  serve-Keeps k ov w l =
      when-Post R R w.running
        (try_catch (round p k ov) (pure false) >>= λ go_on.
          modify λ v. record v { running = go_on })
        w (λ on. ends w (round p k ov w) (round-Keeps k ov w (inv.enter w l on))) l

  perform-Keeps : (a : Action) → Allowed a → Keeps R R (perform p a)
  unfolding perform
  perform-Keeps (serves k ov) ok w l = serve-Keeps k ov w l
  perform-Keeps a ok w l = inv.called a tt ok w l

  pub run-Keeps : (schedule : List Action) → All Allowed schedule → Keeps R R (run p schedule)
  unfolding run
  run-Keeps [] a w l = l
  run-Keeps (x ∷ rest) a w l =
      and_then-Post R R (perform p x w) _ (perform-Keeps x a.0 w l) λ _ v k. run-Keeps rest a.1 v k
