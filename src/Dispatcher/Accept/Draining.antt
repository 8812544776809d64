-- ===== src/Dispatcher/Accept/Draining.antt =====
-- The loop over new connections ends.
use tcp_fsm.Base.{
  ℕ, zero, suc, ◌+◌, ◌≤◌, ◌<◌, ◌≡◌, ◌≢◌, refl, Option, none, some, Bool, true, false, ◌==◌, arith,
  inl, inr, Bool-cases, if◌then◌else◌,
}
use tcp_fsm.Connection.{SockAddr}
use tcp_fsm.Platform.{Platform, AcceptResult, accept_done, accept_again, accept_failed}
use tcp_fsm.World.{World, Result, done, thrown, fault, and_then, pure}
use tcp_fsm.Dispatcher.Accept.{
  admit, admit_nonblocking, accept_result, accept_on, accept_connection, accept_all,
}

-- After `last` calls of the platform no connection is left to accept.
abbrev pub NoneLeft : Platform → ℕ → Type 0
NoneLeft p last = (n sock s : ℕ) (a : SockAddr) → last ≤ n → p.accept n sock ≢ accept_done s a

-- A connection that is returned took a call of the platform, which was before `last`.
abbrev Progress : ℕ → ℕ → Result ℕ → Type 0
Progress last n (done h w) = h ≢ 0 → (n < w.calls) × (n < last)
Progress last n (thrown w) = Unit {0}
Progress last n fault = ⊥

module _ (p : Platform) (last : ℕ) (none_left : NoneLeft p last) where
  admit_nonblocking-Progress :
      (sock : ℕ) (addr : SockAddr) (n : ℕ) (w : World)
      → n < last
      → n < w.calls
      → Progress last n (admit_nonblocking p sock addr w)
  unfolding admit_nonblocking admit
  admit_nonblocking-Progress sock addr n w l k = ground arith

  accept_result-Progress :
      (r : AcceptResult) (n sock : ℕ) (w : World)
      → p.accept n sock ≡ r
      → n < w.calls
      → Progress last n (accept_result p r w)
  unfolding accept_result
  accept_result-Progress (accept_done s a) n sock w e k =
      admit_nonblocking-Progress s a n w (ground (arith, none_left n sock s a)) k
  accept_result-Progress accept_again n sock w e k = λ h. absurd (h refl)
  accept_result-Progress accept_failed n sock w e k = tt

  accept_on-Progress : (o : Option ℕ) (w : World) → Progress last w.calls (accept_on p o w)
  unfolding accept_on
  accept_on-Progress none w = tt
  accept_on-Progress (some sock) w =
      accept_result-Progress (p.accept w.calls sock) w.calls sock (record w { calls = w.calls + 1 })
        refl (omega arith)

  accept_connection-Progress : (w : World) → Progress last w.calls (accept_connection p w)
  unfolding accept_connection
  accept_connection-Progress w = elim (Bool-cases w.accepted) [
    | inl on ↦ simp on (accept_on-Progress w.listening_socket w)
    | inr off ↦ simp off (λ h. absurd (h refl))
  ]

-- The loop did not run out of fuel, and did not fault.
abbrev pub Ends : Result Bool → Type 0
Ends (done true w) = Unit {0}
Ends (done false w) = ⊥
Ends (thrown w) = Unit {0}
Ends fault = ⊥

module _ (p : Platform) (last : ℕ) (none_left : NoneLeft p last) where
  next-Ends :
      (fuel n : ℕ) (r : Result ℕ)
      → last < n + suc fuel
      → Progress last n r
      → ((v : World) → 0 < fuel → last < v.calls + fuel → Ends (accept_all p fuel v))
      → Ends (and_then r (λ h. if h == 0 then pure true else accept_all p fuel))
  next-Ends fuel n (done h v) l g again = elim (Bool-cases (h == 0)) [
    | inl z ↦ simp z tt
    | inr k ↦ let moved = g (ground arith) in simp k (again v (omega arith) (omega arith))
  ]
  next-Ends fuel n (thrown v) l g again = tt
  next-Ends fuel n fault l g again = elim g [ ]

  -- The loop over new connections returns or throws, if none is left to accept after `last` calls of
  -- the platform: fuel for one round more than the calls up to then is enough.
  pub accept_all-Ends :
      (fuel : ℕ) (w : World) → 0 < fuel → last < w.calls + fuel → Ends (accept_all p fuel w)
  unfolding accept_all
  accept_all-Ends zero w f l = omega arith
  accept_all-Ends (suc fuel) w f l =
      next-Ends fuel w.calls (accept_connection p w) l
        (accept_connection-Progress p last none_left w) (accept_all-Ends fuel)
