-- ===== src/Messages/Fifo.antt =====
-- The queue hands messages on in the order in which they were pushed.
use tcp_fsm.Base.{ℕ, zero, suc, ◌≡◌, refl, List, [], ◌∷◌, ◌++◌, none, some, length, arith}
use mathlib.Core.List.{append_assoc, append-nil}
use tcp_fsm.Messages.{InternalMessage, InternalMessages, push, push_ptr, pop, front_and_pop}

-- A message that is pushed with or without a pointer.
pub enqueue : InternalMessage → InternalMessages → InternalMessages
enqueue m q = elim m.ptr [ none ↦ push m.code q | some p ↦ push_ptr m.code p q ]

pub enqueue_all : List InternalMessage → InternalMessages → InternalMessages
enqueue_all [] q = q
enqueue_all (m ∷ ms) q = enqueue_all ms (enqueue m q)

-- `pop` as often as there is fuel, or until the queue is empty.
pub drain : ℕ → InternalMessages → List InternalMessage
unfolding pop
drain zero q = []
drain (suc n) q = elim (pop q) [ none ↦ [] | some (m, q') ↦ m ∷ drain n q' ]

enqueue-messages :
    (m : InternalMessage) (q : InternalMessages) → (enqueue m q).messages ≡ q.messages ++ m ∷ []
unfolding enqueue push push_ptr
enqueue-messages m q = ground arith

enqueue_all-messages :
    (ms : List InternalMessage) (q : InternalMessages)
    → (enqueue_all ms q).messages ≡ q.messages ++ ms
unfolding enqueue_all
enqueue_all-messages [] q = simp append-nil
enqueue_all-messages (m ∷ ms) q =
    simp (enqueue_all-messages ms (enqueue m q), enqueue-messages, append_assoc)

drain-messages :
    (q : InternalMessages) (ms : List InternalMessage) → q.messages ≡ ms → drain (length ms) q ≡ ms
unfolding drain pop
drain-messages q [] e = refl
drain-messages q (m ∷ ms) e =
    rw (e, front_and_pop) (ground (arith, drain-messages (record { messages = ms }) ms refl))

-- Messages that are pushed to any queue, each with or without a pointer, come out of `pop` in the
-- order in which they were pushed, behind those that were there.
pub drain-enqueue_all :
    (ms : List InternalMessage) (q : InternalMessages)
    → drain (length (q.messages ++ ms)) (enqueue_all ms q) ≡ q.messages ++ ms
drain-enqueue_all ms q =
    drain-messages (enqueue_all ms q) (q.messages ++ ms) (enqueue_all-messages ms q)
