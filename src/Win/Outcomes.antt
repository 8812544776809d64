-- ===== src/Win/Outcomes.antt =====
-- What the constructor of win_tcp_dispatcher leaves behind, on each of its ways out.
use tcp_fsm.Base.{
  ℕ, ◌+◌, ◌≡◌, ◌≢◌, ◌⊎◌, List, [], ◌∷◌, some, Bool, true, arith, inl, inr, Option-cases,
}
use tcp_fsm.Effects.{Effect, socket_closed, addref, accept_object}
use tcp_fsm.Monad.{Answer, done, thrown, fault}
use tcp_fsm.Win.State.{Windows, WinWorld}
use tcp_fsm.Win.Close.{socket_error}
use tcp_fsm.Win.Accept.{add_socket, accept_request}
use tcp_fsm.Win.Api.{construct, listen_on, give_up}

-- The calls from the one numbered `n` on gave a socket, bound it to the port and listened at it, filled in
-- the pointer to AcceptEx, made the completion port and the thread and added the socket to the port, and
-- all of them succeeded.
pub record Listens (p : Windows) (port n sock : ℕ) : Type 0 where
  pub opened : p.wsa_socket n ≡ some sock
  pub bound : p.bind (n + 1) sock (p.htons port) ≡ true
  pub listening : p.listen (n + 2) sock ≡ true
  pub can_accept : p.load_accept_ex (n + 3) ≡ true
  pub port_made : p.create_port (n + 5) ≡ true
  pub thread_made : p.create_thread (n + 6) ≡ true
  pub socket_added : p.add_socket (n + 7) sock ≡ true

abbrev pub Constructed :
    (ℕ → Type 0) → Bool → List Effect → ℕ → ℕ → Answer WinWorld (Unit {0}) → Type 0
Constructed listens accepted log a sock (done _ w) =
    listens sock
    × (w.listening_socket ≡ sock)
    × (w.running ≡ true)
    × (w.accepted ≡ accepted)
    × (w.accepts ≡ a ∷ [])
    × (w.sends ≡ [])
    × (w.i_messages.messages ≡ [])
    × (w.bws.max_bw ≡ 0)
    × (w.log ≡ addref (accept_object a) ∷ log)
Constructed listens accepted log a sock (thrown w) =
    ((w.listening_socket ≡ socket_error) × (w.log ≡ log))
    ⊎ ((w.listening_socket ≡ sock)
        × (earlier : List Effect) × (w.log ≡ socket_closed sock ∷ earlier))
Constructed listens accepted log a sock fault = ⊥

-- With a port, the constructor either has opened its listening socket, bound it to the port, listened at it
-- and added it to the completion port, each with success, and returns a dispatcher whose thread runs, which
-- keeps one request to accept, whether AcceptEx took it or not, and has an empty queue, nothing to send and
-- no limit; or it throws, and has closed the listening socket if there is one. It does not fault.
-- WSASocket returns no SOCKET_ERROR as a socket, and WSAIoctl fills in the pointer to AcceptEx, which the
-- constructor does not look at.
pub construct-outcome :
    (p : Windows) (port : ℕ) (accepted : Bool) (w : WinWorld)
    → port ≢ 0
    → ((n : ℕ) → p.wsa_socket n ≢ some socket_error)
    → ((n : ℕ) → p.load_accept_ex n ≡ true)
    → (a : ℕ) × (sock : ℕ) × Constructed
        (Listens p port w.calls)
        accepted
        w.log
        a
        sock
        (construct p port accepted w)
unfolding construct give_up listen_on add_socket accept_request
construct-outcome p port accepted w h valid loads = elim (Option-cases (p.wsa_socket w.calls)) [
  | inl e ↦ (0, 0, ground arith)
  | inr (sock, e) ↦ elim (Option-cases (p.wsa_socket (w.calls + 1 + 1 + 1 + 1 + 1 + 1 + 1 + 1))) [
    | inl f ↦ (0, sock, ground (arith, valid w.calls, loads (w.calls + 3)))
    | inr (asock, f) ↦ (
      p.new_object (w.calls + 1 + 1 + 1 + 1 + 1 + 1 + 1 + 1 + 1),
      sock,
      ground (arith, valid w.calls, loads (w.calls + 3)),
    )
  ]
]
