-- ===== src/Biocp/Packets.antt =====
-- What tcp_dispatcher_biocp does with a packet for a request.
use tcp_fsm.Base.{
  ℕ, ◌+◌, ◌-◌, ◌≡◌, ◌≢◌, ◌<◌, ◌^◌, refl, ap, ◌∙◌, [], ◌∷◌, some, true, false, ◌==◌, arith, inl, inr,
  Bool-cases,
}
use tcp_fsm.Base.OrderedMap
use tcp_fsm.Completion
use tcp_fsm.Completion.{Packet, Request, Transfer, put, is_reset}
use tcp_fsm.Connection.{SendReq, fd_write, fd_close}
use tcp_fsm.Effects.{submitted, sent_so_far}
use tcp_fsm.Monad.{done, fault, update}
use tcp_fsm.Win.State.{io_pending}
use tcp_fsm.Biocp.State.{Calls, BiocpWorld}
use tcp_fsm.Biocp.Transfer.{after_next, send_complete}
use tcp_fsm.Biocp.Loop.{
  Overlapped, of_recv, of_send, as_request, store, complete, handle, transferred, round,
}

close_code-faults :
    (p : Calls) (ov : Overlapped) (sock : ℕ) (v : BiocpWorld)
    → sock ≢ 0
    → handle p 0 ov ((sock, fd_close) ∷ []) v ≡ fault
unfolding handle complete
close_code-faults p (of_recv r) sock v n = ground arith
close_code-faults p (of_send s) sock v n = ground arith

stored-faults :
    (p : Calls) (k : Packet) (ov : Overlapped) (t : Transfer) (sock : ℕ) (w : BiocpWorld)
    → sock ≢ 0
    → t.rconn ≡ 0
    → t.result ≡ (sock, fd_close) ∷ []
    → transferred p k ov (some t) w ≡ fault
unfolding transferred store
stored-faults p k (of_recv r) t sock w n c e = elim (Bool-cases (k.overlap == 0)) [
  | inl null ↦ simp (null, c, e) (close_code-faults p (of_recv r) sock w n)
  | inr there ↦ simp (there, c, e) (close_code-faults p (of_recv r) sock _ n)
]
stored-faults p k (of_send s) t sock w n c e = elim (Bool-cases (k.overlap == 0)) [
  | inl null ↦ simp (null, c, e) (close_code-faults p (of_send s) sock w n)
  | inr there ↦ simp (there, c, e) (close_code-faults p (of_send s) sock _ n)
]

-- What get_transfer of a failure gives.
lost : (rconn : ℕ) (k : Packet) (requests : ℕ → Request) → Transfer
lost rconn k requests = record {
  rconn = rconn;
  returned = 0;
  s_req = 0;
  r_req = 0;
  result = ((requests k.overlap).sock, fd_close) ∷ [];
  requests = requests;
}

failed-transfer :
    (k : Packet) (requests : ℕ → Request)
    → k.succeeded ≡ false
    → k.overlap ≢ 0
    → is_reset k.error ≡ false
    → Completion.get_transfer 0 k requests [] ≡ some (lost 0 k requests)
unfolding Completion.get_transfer Completion.get_failed OrderedMap.insert lost
failed-transfer k requests failed there other = ground arith

-- An operation that fails with another error than the two resets ends in a null pointer: get_transfer
-- reports FD_CLOSE, and the connection that thread_proc then closes is the one that it was given, 0.
pub round-lost :
    (p : Calls) (k : Packet) (ov : Overlapped) (w : BiocpWorld)
    → k.succeeded ≡ false
    → k.overlap ≢ 0
    → is_reset k.error ≡ false
    → (as_request ov w).sock ≢ 0
    → round p k ov w ≡ fault
unfolding round lost
round-lost p k ov w failed there other open_sock =
    ap (λ o. transferred p k ov o w) (failed-transfer k (λ a. as_request ov w) failed there other)
    ∙ stored-faults p k ov (lost 0 k (λ a. as_request ov w)) (as_request ov w).sock w open_sock refl
        refl

-- What get_transfer of a completed send gives.
sent_part : (k : Packet) (requests : ℕ → Request) → Transfer
sent_part k requests = record {
  rconn = 0;
  returned = k.size;
  s_req = k.overlap;
  r_req = 0;
  result = ((requests k.overlap).sock, fd_write) ∷ [];
  requests = put k.overlap (record (requests k.overlap) { transferred = k.size }) requests;
}

send-transfer :
    (k : Packet) (requests : ℕ → Request)
    → k.succeeded ≡ true
    → k.overlap ≢ 0
    → (requests k.overlap).code ≡ fd_write
    → Completion.get_transfer 0 k requests [] ≡ some (sent_part k requests)
unfolding Completion.get_transfer Completion.completed OrderedMap.insert sent_part
send-transfer k requests ok there code = ground arith

handle-resumes :
    (p : Calls) (s sock : ℕ) (w : BiocpWorld) (r : SendReq)
    → w.send_at s ≡ r
    → sock ≢ 0
    → r.sent_bytes < r.total_bytes
    → r.total_bytes < 2 ^ 32
    → p.wsa_send w.calls r.iov.sock (r.total_bytes - r.sent_bytes) ≡ io_pending
    → handle p 0 (of_send s) ((sock, fd_write) ∷ []) w
      ≡ done true (record w {
        calls = w.calls + 1;
        log =
            submitted s r.sent_bytes (r.total_bytes - r.sent_bytes)
            ∷ sent_so_far s r.sent_bytes
            ∷ w.log;
      })
unfolding handle complete send_complete after_next
handle-resumes p s sock w r e open_sock part small pending = ground arith

-- `get_transfer` has written the number of bytes into the request.
store-first :
    (p : Calls) (k : Packet) (s : ℕ) (t : Transfer) (size : ℕ) (w : BiocpWorld)
    → k.overlap ≢ 0
    → (t.requests k.overlap).transferred ≡ size
    → transferred p k (of_send s) (some t) w
      ≡ handle p t.rconn
          (of_send s)
          t.result
          (record w { send_at = update w.send_at s (record (w.send_at s) { sent_bytes = size }) })
unfolding transferred store
store-first p k s t size w there e = elim (Bool-cases (k.overlap == 0)) [
  | inl null ↦ ground arith
  | inr real ↦ simp (real, e) refl
]

part-stored :
    (k : Packet) (requests : ℕ → Request)
    → ((sent_part k requests).requests k.overlap).transferred ≡ k.size
unfolding sent_part put
part-stored k requests = ground arith

-- A send that completed in part goes on behind the bytes of the last packet, whatever went out before:
-- the request then has sent as many bytes as that packet says, and the rest that is posted begins
-- there.
pub round-resumes :
    (p : Calls) (k : Packet) (s : ℕ) (w : BiocpWorld)
    → k.succeeded ≡ true
    → k.overlap ≢ 0
    → (w.send_at s).iov.code ≡ fd_write
    → (w.send_at s).iov.sock ≢ 0
    → k.size < (w.send_at s).total_bytes
    → (w.send_at s).total_bytes < 2 ^ 32
    → p.wsa_send w.calls (w.send_at s).iov.sock ((w.send_at s).total_bytes - k.size) ≡ io_pending
    → round p k (of_send s) w
      ≡ done true (record w {
        send_at = update w.send_at s (record (w.send_at s) { sent_bytes = k.size });
        calls = w.calls + 1;
        log =
            submitted s k.size ((w.send_at s).total_bytes - k.size) ∷ sent_so_far s k.size ∷ w.log;
      })
unfolding round sent_part
round-resumes p k s w ok there code open_sock part small pending =
    ap (λ o. transferred p k (of_send s) o w)
      (send-transfer k (λ a. as_request (of_send s) w) ok there code)
    ∙ (store-first p k s (sent_part k (λ a. as_request (of_send s) w)) k.size w there
          (part-stored k (λ a. as_request (of_send s) w))
        ∙ handle-resumes p s (w.send_at s).iov.sock
            (record w {
              send_at = update w.send_at s (record (w.send_at s) { sent_bytes = k.size });
            })
            (record (w.send_at s) { sent_bytes = k.size }) (ground arith) open_sock part small
            pending)
