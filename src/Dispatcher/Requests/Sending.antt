-- ===== src/Dispatcher/Requests/Sending.antt =====
-- do_send hands the bytes of a request over in order, and calls its callback once.
use tcp_fsm.Base.{ℕ, ◌+◌, ◌^◌, ◌≡◌, ◌≤◌, ◌<◌, refl, Option, none, some, to_size_t, arith}
use tcp_fsm.Platform.{Platform, SendsWithin, SendResult, sent, send_would_block, send_failed}
use tcp_fsm.World.{World, pure}
use tcp_fsm.Monad.Post.{Post, Keeps, and_then-Post}
use tcp_fsm.Dispatcher.Requests.{transcript, Accords, AccordsFrom, InOrder}
use tcp_fsm.Dispatcher.Transfer.{call_false_cb, account, sent_or_not, do_send, offered, spend}

module _ (p : Platform) (b s total : ℕ) (small : total < 2 ^ 31) where
  pub call_false_cb-Accords :
      (j : ℕ) → Keeps (AccordsFrom b s total) (InOrder s total) (call_false_cb p j)
  unfolding call_false_cb transcript
  call_false_cb-Accords j w a = ground arith

  account-Accords :
      (j sts k : ℕ) (w : World)
      → (j ≡ s → (w.sends s).sent_bytes + k ≤ total)
      → AccordsFrom b s total w
      → Post (AccordsFrom b s total) (InOrder s total) (account p j sts k w)
  unfolding account transcript
  account-Accords j sts k w fits a = ground arith

  sent_or_not-Accords :
      (j sts : ℕ) (guess : Option ℕ) (r : SendResult) (w : World)
      → ((k : ℕ) → r ≡ sent k → j ≡ s → (w.sends s).sent_bytes + k ≤ total)
      → AccordsFrom b s total w
      → Post (AccordsFrom b s total) (InOrder s total) (sent_or_not p j sts guess r w)
  unfolding sent_or_not transcript
  sent_or_not-Accords j sts guess (sent k) w fits a =
      and_then-Post (AccordsFrom b s total) (InOrder s total) (account p j sts k w)
        (λ ok. pure (ok, spend k guess)) (account-Accords j sts k w (fits k refl) a) λ _ v m. m
  sent_or_not-Accords j sts guess send_would_block w fits a = ground arith
  sent_or_not-Accords j sts guess send_failed w fits a = ground arith

  -- What is offered of the request fits what is left of it.
  offered-fits :
      (w : World) (guess : Option ℕ) (k : ℕ)
      → Accords s total w
      → k ≤ to_size_t (offered (w.sends s) guess)
      → (w.sends s).sent_bytes + k ≤ total
  offered-fits w none k a h = ground arith
  offered-fits w (some g) k a h = ground arith

  pub do_send-Accords :
      SendsWithin p
      → (j : ℕ) (guess : Option ℕ)
      → Keeps (AccordsFrom b s total) (InOrder s total) (do_send p j guess)
  unfolding do_send
  do_send-Accords limited j guess w a =
      let h = (w.sends j).iov.conn in
      let sts = offered (w.sends j) guess in
      let size = to_size_t sts in
      let answer = p.send w.calls (w.conns h).sock size in
      let fits : (k : ℕ) → answer ≡ sent k → j ≡ s → (w.sends s).sent_bytes + k ≤ total =
        λ k e same.
          offered-fits w guess k a.0 (rw same at (limited w.calls (w.conns h).sock size k e)) in
      ground (
        arith,
        sent_or_not-Accords j sts guess answer (record w { calls = w.calls + 1 }) fits
            (
              record {
                in_order = a.0.in_order;
                at_sent = a.0.at_sent;
                within = a.0.within;
                total_kept = a.0.total_kept;
                once = a.0.once;
              },
              omega arith,
            ),
      )
