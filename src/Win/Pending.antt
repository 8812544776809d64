-- ===== src/Win/Pending.antt =====
-- The objects whose operations are not completed: how win_tcp_dispatcher keeps and releases them.
use tcp_fsm.Base.{ℕ, ◌++◌, ◌≡◌, refl, ap, ◌∙◌, List, [], ◌∷◌, Option, some, true, false}
use tcp_fsm.Base.OrderedMap
use tcp_fsm.Completion
use tcp_fsm.Completion.{Packet, Request}
use tcp_fsm.Effects.{
  Effect, Object, conn_object, recv_object, send_object, overlap_object, accept_object, release,
}
use tcp_fsm.Messages
use tcp_fsm.Messages.{InternalMessages, exit_code}
use tcp_fsm.Monad.{done, and_then, try_catch, modify, pure}
use tcp_fsm.Win.State.{Windows, WinWorld}
use tcp_fsm.Win.Close.{release_all, free_not_completed_objects}
use tcp_fsm.Win.Loop.{
  Overlap, iov_of, as_request, handle_message, handle_popped, handle_internal, handle, round, serve,
}

abbrev pub all_as : (ℕ → Object) → List ℕ → List Object
all_as object [] = []
all_as object (x ∷ xs) = object x ∷ all_as object xs

-- Everything that waits for a completion.
abbrev pub pending_objects : WinWorld → List Object
pending_objects w =
    all_as overlap_object w.overlaps
    ++ (all_as accept_object w.accepts
        ++ (all_as send_object w.sends
            ++ (all_as recv_object w.recvs ++ all_as conn_object w.conns)))

-- The log after one release of each.
abbrev pub released : List Object → List Effect → List Effect
released [] log = log
released (o ∷ os) log = released os (release o ∷ log)

released-append :
    (os more : List Object) (log : List Effect)
    → released (os ++ more) log ≡ released more (released os log)
released-append [] more log = refl
released-append (o ∷ os) more log = released-append os more (release o ∷ log)

release_all_lem :
    (object : ℕ → Object) (xs : List ℕ) (w : WinWorld)
    → release_all object xs w ≡ done tt (record w { log = released (all_as object xs) w.log })
unfolding release_all
release_all_lem object [] w = refl
release_all_lem object (x ∷ xs) w =
    release_all_lem object xs (record w { log = release (object x) ∷ w.log })

free_lem :
    (w : WinWorld)
    → free_not_completed_objects w
      ≡ done tt (record w {
        overlaps = [];
        accepts = [];
        conns = [];
        recvs = [];
        sends = [];
        log = released (pending_objects w) w.log;
      })
unfolding free_not_completed_objects
free_lem w = simp (release_all_lem, released-append) refl

stop-packet :
    (k : Packet) (requests : ℕ → Request)
    → k.succeeded ≡ true
    → k.overlap ≡ 0
    → Completion.get_plain_transfer k requests [] ≡ some (0, (0, 0) ∷ [])
unfolding Completion.get_plain_transfer OrderedMap.insert
stop-packet k requests ok stop = simp (ok, stop) refl

exit-message :
    (p : Windows) (w : WinWorld) (ptr : Option ℕ) (rest : InternalMessages)
    → Messages.pop w.i_messages ≡ some (record { code = exit_code; ptr = ptr }, rest)
    → handle_internal p w
      ≡ done false (record w {
        overlaps = [];
        accepts = [];
        conns = [];
        recvs = [];
        sends = [];
        i_messages = rest;
        log = released (pending_objects w) w.log;
      })
unfolding handle_internal handle_popped handle_message
exit-message p w ptr rest first = ap (λ r. handle_popped p r w) first ∙ simp free_lem refl

round-exit :
    (p : Windows) (k : Packet) (ov : Overlap) (w : WinWorld) (ptr : Option ℕ)
    (rest : InternalMessages)
    → k.succeeded ≡ true
    → k.overlap ≡ 0
    → Messages.pop w.i_messages ≡ some (record { code = exit_code; ptr = ptr }, rest)
    → round p k ov w
      ≡ done false (record w {
        overlaps = [];
        accepts = [];
        conns = [];
        recvs = [];
        sends = [];
        transfered_bytes = 0;
        i_messages = rest;
        log = released (pending_objects w) w.log;
      })
unfolding round handle
round-exit p k ov w ptr rest ok stop first =
    ap (λ r. handle p ov r w) (stop-packet k (λ a. as_request (iov_of ov w)) ok stop)
    ∙ exit-message p (record w { transfered_bytes = 0 }) ptr rest first

-- The thread takes a packet that `stop` posted while _P_EXIT is the first message: it ends, and
-- everything that waits for a completion has been released once.
pub serve-exit :
    (p : Windows) (k : Packet) (ov : Overlap) (w : WinWorld) (ptr : Option ℕ)
    (rest : InternalMessages)
    → w.running ≡ true
    → k.succeeded ≡ true
    → k.overlap ≡ 0
    → Messages.pop w.i_messages ≡ some (record { code = exit_code; ptr = ptr }, rest)
    → serve p k ov w
      ≡ done tt (record w {
        overlaps = [];
        accepts = [];
        conns = [];
        recvs = [];
        sends = [];
        transfered_bytes = 0;
        i_messages = rest;
        running = false;
        log = released (pending_objects w) w.log;
      })
unfolding serve
serve-exit p k ov w ptr rest on ok stop first = simp on (
    ap
      (λ r.
        and_then (try_catch (λ _. r) (pure false) w)
          (λ go_on. modify (λ v. record v { running = go_on })))
      (round-exit p k ov w ptr rest ok stop first))
