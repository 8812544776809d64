-- ===== src/Biocp/Hearing.antt =====
-- What the listening thread of tcp_dispatcher_biocp hands to the dispatcher's thread.
use tcp_fsm.Base.{
  ℕ, ◌+◌, ◌≡◌, ◌≢◌, ◌≤◌, refl, sym, ◌∙◌, List, [], ◌∷◌, ◌++◌, some, true, false, ◌==◌, ◌&&◌, arith,
}
use mathlib.Core.List.{append_assoc, append-nil}
use tcp_fsm.Completion
use tcp_fsm.Messages
use tcp_fsm.Messages.{InternalMessage, external_code}
use tcp_fsm.Monad.{done, update}
use tcp_fsm.Wsa.{invalid_socket}
use tcp_fsm.Biocp.State.{Calls, External, BiocpWorld}
use tcp_fsm.Biocp.Api.{post}
use tcp_fsm.Biocp.Listening.{tell, hear_all}

-- No interrupt is the one that ends the thread or the one that ends the round.
abbrev pub AllPlain : ℕ → List (ℕ × ℕ) → Type 0
AllPlain listening [] = Unit {0}
AllPlain listening ((sock, events) ∷ rest) =
    ((sock == invalid_socket) ≡ false)
    × ((sock == listening && events == 0) ≡ false)
    × AllPlain listening rest

-- Each message carries the interrupt at its place.
abbrev pub Carries : (ℕ → External) → List InternalMessage → List (ℕ × ℕ) → Type 0
Carries at [] [] = Unit {0}
Carries at (m ∷ ms) ((sock, events) ∷ rest) =
    (m.code ≡ external_code)
    × (x : ℕ) × (m.ptr ≡ some x)
    × (at x ≡ record { sock = sock; events = events })
    × Carries at ms rest
Carries at _ _ = ⊥

module _ (p : Calls) where
  told_one : ℕ → ℕ → BiocpWorld → BiocpWorld
  unfolding Messages.push_ptr Completion.stop
  told_one sock events w = record w {
    external_at =
        update w.external_at (p.new_object w.calls) (record { sock = sock; events = events });
    calls = w.calls + 1;
    i_messages = Messages.push_ptr external_code (p.new_object w.calls) w.i_messages;
    iocp_r = Completion.stop w.iocp_r;
  }

  -- The state after the interrupts.
  told : List (ℕ × ℕ) → BiocpWorld → BiocpWorld
  told [] w = w
  told ((sock, events) ∷ rest) w = told rest (told_one sock events w)

  hear_all_lem :
      (result : List (ℕ × ℕ)) (w : BiocpWorld)
      → AllPlain w.listening_socket result
      → hear_all p result w ≡ done true (told result w)
  unfolding hear_all tell post told told_one
  hear_all_lem [] w a = refl
  hear_all_lem ((sock, events) ∷ rest) w a =
      simp (a.0, a.1) (hear_all_lem rest (told_one sock events w) a.2)

  -- An address that is not handed out any more keeps what it holds.
  told-other :
      (result : List (ℕ × ℕ)) (w : BiocpWorld) (x : ℕ)
      → ((m : ℕ) → w.calls ≤ m → p.new_object m ≢ x)
      → (told result w).external_at x ≡ w.external_at x
  unfolding told told_one
  told-other [] w x fresh = refl
  told-other ((sock, events) ∷ rest) w x fresh =
      told-other rest (told_one sock events w) x (λ m l. fresh m (omega (arith, l)))
      ∙ ground (arith, fresh w.calls (omega arith))

  told-Carries :
      ((m n : ℕ) → p.new_object m ≡ p.new_object n → m ≡ n)
      → (result : List (ℕ × ℕ)) (w : BiocpWorld)
      → (ms : List InternalMessage) × ((told result w).i_messages.messages
          ≡ w.i_messages.messages ++ ms)
        × Carries (told result w).external_at ms result
  unfolding told told_one Messages.push_ptr
  told-Carries distinct [] w = ([], sym (append-nil w.i_messages.messages), tt)
  told-Carries distinct ((sock, events) ∷ rest) w =
      let n = w.calls in
      let later = told-Carries distinct rest (told_one sock events w) in
      (
        record { code = external_code; ptr = some (p.new_object n) } ∷ later.0,
        later.1 ∙ append_assoc w.i_messages.messages _ later.0,
        (
          refl,
          p.new_object n,
          refl,
          told-other rest (told_one sock events w) (p.new_object n)
                (λ m l e. omega (arith, l, distinct m n e))
              ∙ ground arith,
          later.2,
        ),
      )

  -- Every interrupt that the listening thread is given before one that stops it reaches the queue of
  -- the dispatcher's thread, in order, behind the messages that are there: as a message that points at
  -- its socket and its events. The allocator does not hand out an address twice.
  pub hear_all-Carries :
      ((m n : ℕ) → p.new_object m ≡ p.new_object n → m ≡ n)
      → (result : List (ℕ × ℕ)) (w : BiocpWorld) → AllPlain w.listening_socket result
      → (v : BiocpWorld) × (hear_all p result w ≡ done true v)
        × (ms : List InternalMessage) × (v.i_messages.messages ≡ w.i_messages.messages ++ ms)
        × Carries v.external_at ms result
  hear_all-Carries distinct result w a =
      let carried = told-Carries distinct result w in
      (told result w, hear_all_lem result w a, carried.0, carried.1, carried.2)
