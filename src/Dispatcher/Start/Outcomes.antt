-- ===== src/Dispatcher/Start/Outcomes.antt =====
-- What the constructor of the dispatcher leaves behind, on each of its ways out.
use tcp_fsm.Base.{
  ℕ, ◌+◌, ◌≡◌, ◌≢◌, ◌⊎◌, List, [], ◌∷◌, none, some, Bool, true, arith, inl, inr, Option-cases,
}
use tcp_fsm.Platform.{Platform}
use tcp_fsm.World.{Effect, socket_closed, watched, World, Result, done, thrown, fault}
use tcp_fsm.Dispatcher.Start.{construct, listen_on, open_listening, give_up, reset_members}

-- The calls from the one numbered `n` on gave a socket that does not block, bound it to the port and listened
-- at it, and all of them succeeded.
pub record Listens (p : Platform) (port n sock : ℕ) : Type 0 where
  pub opened : p.socket n ≡ some sock
  pub nonblocking : p.set_nonblock (n + 1) sock ≡ true
  pub bound : p.bind (n + 1 + 1) sock (p.htons port) ≡ true
  pub listening : p.listen (n + 1 + 1 + 1) sock ≡ true

-- With the effects `log` before, the listening connection `ec` and the listening socket `sock`.
abbrev pub Outcome : (ℕ → Type 0) → Bool → List Effect → ℕ → ℕ → Result Bool → Type 0
Outcome listens accepted log ec sock (done ready w) =
    (ready ≡ true)
    × listens sock
    × (w.listening_socket ≡ some sock)
    × ((w.conns ec).sock ≡ sock)
    × (w.log ≡ watched ec ∷ log)
    × (w.accepted ≡ accepted)
    × (w.i_messages.messages ≡ [])
    × (w.bws.max_bw ≡ 0)
    × (w.sockets_counter ≡ 0)
Outcome listens accepted log ec sock (thrown w) =
    ((w.listening_socket ≡ none) × (w.log ≡ log))
    ⊎ ((w.listening_socket ≡ some sock) × (w.log ≡ socket_closed sock ∷ log))
Outcome listens accepted log ec sock fault = ⊥

-- With a port, the constructor either has opened a socket that does not block, bound it to the port and
-- listened at it, each with success, and returns a dispatcher that watches a connection over this
-- socket, accepts as it was told, and has an empty queue, no limit and no sockets counted; or
-- it throws, watches nothing, and has closed the listening socket if there is one. It does not fault.
pub construct_lem :
    (p : Platform) (port : ℕ) (accepted : Bool) (w : World)
    → port ≢ 0
    → (ec : ℕ) × (sock : ℕ) × Outcome
        (Listens p port w.calls)
        accepted
        w.log
        ec
        sock
        (construct p port accepted w)
unfolding construct give_up listen_on open_listening reset_members
construct_lem p port accepted w h = elim (Option-cases (p.socket w.calls)) [
  | inl e ↦ (0, 0, ground arith)
  | inr (sock, e) ↦ (p.new_object (w.calls + 1 + 1 + 1 + 1 + 1 + 1 + 1 + 1), sock, ground arith)
]
