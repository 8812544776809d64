-- ===== src/Wsa/Reporting.antt =====
-- What wsa_reactor reports of an event, and which events it goes on watching.
use tcp_fsm.Base.{
  ℕ, zero, suc, ◌<◌, ◌^◌, ◌≡◌, ◌≢◌, ◌↔◌, ◌⊎◌, refl, List, [], ◌∷◌, none, true, false, has_flag,
  arith, inl, inr, Bool-cases, All,
}
use tcp_fsm.Base.OrderedMap
use tcp_fsm.Base.OrderedMap.{find-erase_self, find-erase_ne, From}
use tcp_fsm.Connection.{fd_close}
use tcp_fsm.Wsa.{
  NetworkEvents, WsaReactor, Interrupted, Enumerated, happened, enum_failed, returns, event_bits,
  none_failed, what_happened, report, is_broken_socket,
}

none_failed-All :
    (ev : NetworkEvents) (bits : List ℕ)
    → (none_failed ev bits ≡ true)
      ↔ All (λ bit. has_flag ev.flags (2 ^ bit) ≡ true → ev.errors bit ≡ 0) bits
unfolding none_failed
none_failed-All ev [] = ((λ _. tt), λ _. refl)
none_failed-All ev (bit ∷ bits) =
    let (to, from) = none_failed-All ev bits in
    (
      (λ e. ((λ f. ground arith), to (ground arith))),
      λ a. let rest = from a.1 in let here = a.0 in ground arith,
    )

at_bit : (P : ℕ → Type 0) → All P event_bits → (bit : ℕ) → bit < 10 → P bit
at_bit P a zero l = a.0
at_bit P a (suc zero) l = a.1.0
at_bit P a (suc (suc zero)) l = a.1.1.0
at_bit P a (suc (suc (suc zero))) l = a.1.1.1.0
at_bit P a (suc (suc (suc (suc zero)))) l = a.1.1.1.1.0
at_bit P a (suc (suc (suc (suc (suc zero))))) l = a.1.1.1.1.1.0
at_bit P a (suc (suc (suc (suc (suc (suc zero)))))) l = a.1.1.1.1.1.1.0
at_bit P a (suc (suc (suc (suc (suc (suc (suc zero))))))) l = a.1.1.1.1.1.1.1.0
at_bit P a (suc (suc (suc (suc (suc (suc (suc (suc zero)))))))) l = a.1.1.1.1.1.1.1.1.0
at_bit P a (suc (suc (suc (suc (suc (suc (suc (suc (suc zero))))))))) l = a.1.1.1.1.1.1.1.1.1.0
at_bit P a (suc (suc (suc (suc (suc (suc (suc (suc (suc (suc n)))))))))) l = absurd (omega arith)

-- No event that happened carries an error; the events of a socket are numbered from 0 to 9.
abbrev pub NoError : NetworkEvents → Type 0
NoError ev = (bit : ℕ) → bit < 10 → has_flag ev.flags (2 ^ bit) ≡ true → ev.errors bit ≡ 0

-- Nothing failed exactly when none of the ten kinds of events that happened carries an error.
what_happened_lem : (ev : NetworkEvents) → (what_happened ev ≡ true) ↔ NoError ev
unfolding what_happened
what_happened_lem ev =
    let (to, from) = none_failed-All ev event_bits in
    (
      (λ e. at_bit (λ bit. has_flag ev.flags (2 ^ bit) ≡ true → ev.errors bit ≡ 0) (to e)),
      λ a. from (
        a 0 (omega arith),
        (
          a 1 (omega arith),
          (
            a 2 (omega arith),
            (
              a 3 (omega arith),
              (
                a 4 (omega arith),
                (
                  a 5 (omega arith),
                  (
                    a 6 (omega arith),
                    (a 7 (omega arith), (a 8 (omega arith), (a 9 (omega arith), tt))),
                  ),
                ),
              ),
            ),
          ),
        ),
      ),
    )

-- The socket of the event was reported as closed, and the event is watched no more, all others are.
abbrev pub IsDropped : ℕ → ℕ → WsaReactor → WsaReactor → List (ℕ × ℕ) → Type 0
IsDropped event socket r r' result =
    (result ≡ (socket, fd_close) ∷ [])
    × (OrderedMap.find event r'.wait_events ≡ none)
    × ((other : ℕ)
        → event ≢ other
        → OrderedMap.find other r'.wait_events ≡ OrderedMap.find other r.wait_events)

abbrev without : ℕ → WsaReactor → WsaReactor
without event r = record r { wait_events = OrderedMap.erase event r.wait_events }

without-IsDropped :
    (event socket : ℕ) (r : WsaReactor)
    → From 0 r.wait_events
    → IsDropped event socket r (without event r) ((socket, fd_close) ∷ [])
without-IsDropped event socket r s = (
  refl,
  find-erase_self event 0 r.wait_events s,
  λ other h. find-erase_ne event other r.wait_events h,
)

-- A reason to close: an event that happened with an error, or WSAENOTSOCK, WSAENOTCONN or WSAECONNRESET.
abbrev pub IsFailure : Enumerated → Type 0
IsFailure (happened ev) = ¬ NoError ev
IsFailure (enum_failed code) = (code ≡ 10038) ⊎ ((code ≡ 10057) ⊎ (code ≡ 10054))

-- What is reported where there is none: the flags, or nothing where they could not be read.
abbrev pub report_of : Enumerated → ℕ → WsaReactor → Interrupted
report_of (happened ev) socket r = returns true r ((socket, ev.flags) ∷ [])
report_of (enum_failed code) socket r = returns false r []

-- A signalled event of a socket, with no interrupt yet: on a failure, which is an error of one of the ten
-- kinds of events that happened or an error of a broken socket, the socket is reported as closed and its
-- event is watched no more; where there is no failure the reactor stays as it is, and the flags of
-- the socket are reported, or `false` is returned with nothing to report where the events could not be
-- read. The table is in the order of its keys.
pub report_lem :
    (event socket : ℕ) (x : Enumerated) (r : WsaReactor)
    → From 0 r.wait_events
    → (IsFailure x
        → (r' : WsaReactor) × (result : List (ℕ × ℕ)) × (report event socket x r []
            ≡ returns true r' result)
          × IsDropped event socket r r' result)
      × (¬ IsFailure x → report event socket x r [] ≡ report_of x socket r)
unfolding report OrderedMap.insert
report_lem event socket (happened ev) r s =
    let (to, from) = what_happened_lem ev in
    elim (Bool-cases (what_happened ev)) [
      | inl fine ↦ ((λ failure. absurd (failure (to fine))), λ _. rw fine refl)
      | inr wrong ↦ (
        (λ failure. (
          without event r,
          (socket, fd_close) ∷ [],
          rw wrong refl,
          without-IsDropped event socket r s,
        )),
        λ sound. absurd (sound λ none_there. ground (arith, from none_there)),
      )
    ]
report_lem event socket (enum_failed code) r s = elim (Bool-cases (is_broken_socket code)) [
  | inl broken ↦ (
    (λ failure. (
      without event r,
      (socket, fd_close) ∷ [],
      rw broken refl,
      without-IsDropped event socket r s,
    )),
    λ sound. absurd (sound (ground arith)),
  )
  | inr other ↦ ((λ failure. absurd (ground arith)), λ _. rw other refl)
]
