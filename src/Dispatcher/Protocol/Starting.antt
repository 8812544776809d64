-- ===== src/Dispatcher/Protocol/Starting.antt =====
-- A connection that is made or accepted begins in accord with the order of callbacks, and keeps to it.
use tcp_fsm.Base.{ℕ, List, All, subst, ◌+◌, ◌≡◌, ◌≢◌, arith, inl, inr, Option-cases}
use tcp_fsm.Connection.{Callbacks, SockAddr}
use tcp_fsm.Lifecycle.Traces.{Traced, TracedAt}
use tcp_fsm.Monad.Post.{Post}
use tcp_fsm.Platform.{Platform}
use tcp_fsm.World.{World, Result, done, thrown, fault}
use tcp_fsm.Dispatcher.Api.{connect_new}
use tcp_fsm.Dispatcher.Accept.{admit}
use tcp_fsm.Dispatcher.Schedule.{Action, run}
use tcp_fsm.Dispatcher.Protocol.Accepting.{NeverNew}
use tcp_fsm.Dispatcher.Protocol.Running.{NotConnecting, run-Trace}
use tcp_fsm.Dispatcher.Protocol.{pending, life, Lawful}

-- Where an operation returns an address that is not 0, the connection there is in order.
abbrev pub Begins : Result ℕ → Type 0
Begins (done h w) = h ≢ 0 → Lawful h w
Begins (thrown w) = Unit {0}
Begins fault = ⊥

-- A connection that `connect(ip, port, cb)` makes is in order, when there was no callback for its
-- address before; the method does not fault.
pub connect_new-Begins :
    (p : Platform) (ip port : ℕ) (cb : Callbacks) (w : World)
    → ((n : ℕ) → life (p.new_object n) w.log ≡ pending)
    → Begins (connect_new p ip port cb w)
unfolding connect_new life
connect_new-Begins p ip port cb w f = elim (Option-cases (p.socket w.calls)) [
  | inl e ↦ ground arith
  | inr (sock, e) ↦ ground (arith, f (w.calls + 1 + 1 + 1))
]

-- A connection that is accepted is in order when there was no callback for its address before;
-- accepting it does not fault.
pub admit-Begins :
    (p : Platform) (sock : ℕ) (addr : SockAddr) (w : World)
    → ((n : ℕ) → life (p.new_object n) w.log ≡ pending)
    → Begins (admit p sock addr w)
unfolding admit life
admit-Begins p sock addr w f = ground (arith, f w.calls)

module _ (p : Platform) (w : World) (unused : (n : ℕ) → life (p.new_object n) w.log ≡ pending)
    (h : ℕ) (real : h ≢ 0) (v : World) (kept : NeverNew p v.calls h) where
  -- The callbacks of a connection that `connect(ip, port, cb)` returned are a trace of the steps that the
  -- interface allows, whatever is called and reported from then on, when no object of an address
  -- that the allocator hands out has had a callback before, connect() is not called on the
  -- connection again and its address is not handed out a second time. Of a run that faults nothing is said.
  pub connect_new-Trace :
      (ip port : ℕ) (cb : Callbacks)
      → connect_new p ip port cb w ≡ done h v
      → (schedule : List Action) → All (NotConnecting h) schedule
      → Post
          (λ u. TracedAt h u.log (u.conns h).state (u.conns h).cbs)
          (λ u. Traced h u.log)
          (run p schedule v)
  connect_new-Trace ip port cb e schedule a =
      run-Trace p h real schedule a v
        (subst Begins e (connect_new-Begins p ip port cb w unused) real) kept

  -- The same of a connection that accept() made.
  pub admit-Trace :
      (sock : ℕ) (addr : SockAddr)
      → admit p sock addr w ≡ done h v
      → (schedule : List Action) → All (NotConnecting h) schedule
      → Post
          (λ u. TracedAt h u.log (u.conns h).state (u.conns h).cbs)
          (λ u. Traced h u.log)
          (run p schedule v)
  admit-Trace sock addr e schedule a =
      run-Trace p h real schedule a v (subst Begins e (admit-Begins p sock addr w unused) real) kept
