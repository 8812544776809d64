-- ===== src/Wsa/Polling.antt =====
-- The polling of the events of wsa_reactor in portions of 60.
use tcp_fsm.Base.{
  not, ◌||◌, ℕ, zero, suc, ◌+◌, ◌-◌, ◌*◌, ◌≤◌, ◌<◌, ◌≡◌, ◌≢◌, refl, List, [], ◌∷◌, Option, none,
  some, Bool, true, false, ltb, length, take, drop, arith, ◌⊎◌, inl, inr, Option-cases, Bool-cases,
}
use tcp_fsm.Base.OrderedMap
use tcp_fsm.Wsa.{
  happened, enum_failed, WsaReactor, WaitAnswer, signalled, timed_out, handles_failed, Waits,
  Enumerated, faults, Polled, at, polling, polling_failed, outside, get_elem?, portion, patience,
  copies_within, events_of, poll, wait_all, choose, dispatch, dispatch_polled, get_interrupt,
  report,
}

-- Documented of WaitForMultipleObjects: it answers with the index of a handle that it was given, and
-- without a limit of time it does not time out.
abbrev pub AnswersWithin : Waits → Type 0
AnswersWithin wait =
    (n : ℕ) (t : Option ℕ) (handles : List ℕ)
    → ((i : ℕ) → wait n t handles ≡ signalled i → i < length handles)
      × (wait n none handles ≢ timed_out)

length-drop : (j : ℕ) (xs : List ℕ) → length (drop j xs) ≡ length xs - j
length-drop zero xs = omega arith
length-drop (suc j) [] = omega arith
length-drop (suc j) (x ∷ xs) = omega (arith, length-drop j xs)

length-take : (j : ℕ) (xs : List ℕ) → length (take j xs) ≤ j
length-take zero xs = omega arith
length-take (suc j) [] = omega arith
length-take (suc j) (x ∷ xs) = omega (arith, length-take j xs)

length-take_le : (j : ℕ) (xs : List ℕ) → length (take j xs) ≤ length xs
length-take_le zero xs = omega arith
length-take_le (suc j) [] = omega arith
length-take_le (suc j) (x ∷ xs) = omega (arith, length-take_le j xs)

get_elem?-length : (xs : List ℕ) (i : ℕ) → get_elem? xs i ≡ none → length xs ≤ i
unfolding get_elem?
get_elem?-length [] i e = omega arith
get_elem?-length (x ∷ xs) zero e = cc
get_elem?-length (x ∷ xs) (suc i) e = omega (arith, get_elem?-length xs i e)

-- What an answer is worth: an index that is in range, and no handle that was not filled in.
abbrev InRange : List ℕ → Polled → Type 0
InRange events (at i) = i < length events
InRange events outside = ⊥
InRange events polling_failed = Unit {0}
InRange events polling = Unit {0}

portion-fits :
    (events : List ℕ) (q j : ℕ)
    → j ≡ 60 * q
    → j < length events
    → j + portion events j ≤ length events
portion-fits events q j e h = ground arith

answered :
    (wait : Waits) (events : List ℕ) (n i j size : ℕ) (t : Option ℕ)
    → AnswersWithin wait
    → wait n t (take size (drop j events)) ≡ signalled i
    → i + j < length events
answered wait events n i j size t a e = omega (
  arith,
  (a n t (take size (drop j events))).0 i e,
  length-take_le size (drop j events),
  length-drop j events,
)

no_more : (a b : ℕ) → b ≤ a → ltb a b ≡ false
no_more a b h = ground arith

-- Up to 33 portions are copied from within the array.
portion-copied :
    (events : List ℕ) (q j : ℕ)
    → length events ≤ 1980
    → j ≡ 60 * q
    → j < length events
    → (not (copies_within j) || ltb (length events) (j + portion events j)) ≡ false
portion-copied events q j few e h = let fits = portion-fits events q j e h in ground arith

answers :
    (x : WaitAnswer) → ((i : ℕ) × (x ≡ signalled i)) ⊎ ((x ≡ timed_out) ⊎ (x ≡ handles_failed))
answers (signalled i) = inl (i, refl)
answers timed_out = inr (inl refl)
answers handles_failed = inr (inr refl)

poll-InRange :
    (wait : Waits) (events : List ℕ) (fuel n q j : ℕ)
    → AnswersWithin wait
    → length events ≤ 1980
    → j ≡ 60 * q
    → InRange events (poll wait events fuel n j)
unfolding poll
poll-InRange wait events zero n q j a u e = tt
poll-InRange wait events (suc fuel) n q j a u e = elim (Bool-cases (ltb j (length events))) [
  | inl inside ↦
      let copied = portion-copied events q j u e (ground arith) in
      rw (poll, inside, copied)
        (elim (answers (wait n (patience events j) (take (portion events j) (drop j events)))) [
          | inl (i, s) ↦
              rw (poll, s) (answered wait events n i j (portion events j) (patience events j) a s)
          | inr (inl s) ↦
              rw s (poll-InRange wait events fuel (n + 1) (q + 1) (j + 60) a u (omega (arith, e)))
          | inr (inr s) ↦ rw s tt
        ])
  | inr past ↦ rw (poll, past) (poll-InRange wait events fuel n 0 0 a u (omega arith))
]

choose-InRange :
    (wait : Waits) (events : List ℕ) (fuel : ℕ)
    → AnswersWithin wait
    → length events ≤ 1980
    → InRange events (choose fuel wait events)
unfolding choose wait_all
choose-InRange wait events fuel a u = elim (Bool-cases (ltb 60 (length events))) [
  | inl many ↦ rw (choose, many) (poll-InRange wait events fuel 0 0 0 a u (omega arith))
  | inr few ↦
      rw (choose, few)
        (elim (answers (wait 0 none events)) [
          | inl (i, s) ↦ rw (wait_all, s) ((a 0 none events).0 i s)
          | inr (inl s) ↦ absurd ((a 0 none events).1 s)
          | inr (inr s) ↦ rw (wait_all, s) tt
        ])
]

report-ne-faults :
    (event socket : ℕ) (x : Enumerated) (r : WsaReactor) (result : List (ℕ × ℕ))
    → report event socket x r result ≢ faults
unfolding report
report-ne-faults event socket (happened ev) r result e = ground arith
report-ne-faults event socket (enum_failed code) r result e = ground arith

dispatch-ne-faults :
    (reset : Bool) (enumerate : ℕ → ℕ → Enumerated) (event : ℕ) (r : WsaReactor)
    (result : List (ℕ × ℕ))
    → dispatch reset enumerate event r result ≢ faults
unfolding dispatch
dispatch-ne-faults reset enumerate event r result e =
    elim (Option-cases (OrderedMap.find event r.wait_events)) [
      | inl q ↦ ground arith
      | inr (socket, q) ↦
          ground (arith, report-ne-faults event socket (enumerate socket event) r result)
    ]

dispatch_polled-ne-faults :
    (reset : Bool) (enumerate : ℕ → ℕ → Enumerated) (x : Polled) (r : WsaReactor)
    (result : List (ℕ × ℕ))
    → InRange (events_of r) x
    → dispatch_polled reset enumerate x r result ≢ faults
unfolding dispatch_polled
dispatch_polled-ne-faults reset enumerate polling r result h e = cc
dispatch_polled-ne-faults reset enumerate polling_failed r result h e = cc
dispatch_polled-ne-faults reset enumerate outside r result h e = elim h [ ]
dispatch_polled-ne-faults reset enumerate (at i) r result h e =
    elim (Option-cases (get_elem? (events_of r) i)) [
      | inl q ↦ absurd (omega (arith, get_elem?-length (events_of r) i q))
      | inr (event, q) ↦
          dispatch-ne-faults reset enumerate event r result (rw (q, dispatch_polled) at e)
    ]

-- With at most 1980 events, the two of its own included, `get_interrupt` stays within its arrays: it
-- copies no handle from behind the array of 2000, waits for none that it did not fill in, and goes on
-- with an event of its array, however long it polls. WaitForMultipleObjects answers as documented.
pub get_interrupt-ne-faults :
    (fuel : ℕ) (wait : Waits) (reset : Bool) (enumerate : ℕ → ℕ → Enumerated) (r : WsaReactor)
    (result : List (ℕ × ℕ))
    → AnswersWithin wait
    → length (events_of r) ≤ 1980
    → get_interrupt fuel wait reset enumerate r result ≢ faults
unfolding get_interrupt
get_interrupt-ne-faults fuel wait reset enumerate r result a l e =
    dispatch_polled-ne-faults reset enumerate (choose fuel wait (events_of r)) r result
      (choose-InRange wait (events_of r) fuel a l)
      (rw (no_more 2000 (length (events_of r)) (omega arith)) at e)

-- Documented of WaitForMultipleObjects, where `is_set` are the events that are signalled: it does not fail,
-- it answers with the index of a signalled one, and does not time out when it is given one.
pub record Serves (is_set : ℕ → Bool) (wait : Waits) : Type 0 where
  pub goes_well : (n : ℕ) (t : Option ℕ) (handles : List ℕ) → wait n t handles ≢ handles_failed
  pub finds :
      (n : ℕ) (t : Option ℕ) (handles : List ℕ) (i : ℕ)
      → wait n t handles ≡ signalled i
      → (e : ℕ) × (get_elem? handles i ≡ some e) × (is_set e ≡ true)
  pub misses_none :
      (n : ℕ) (t : Option ℕ) (handles : List ℕ) (i e : ℕ)
      → get_elem? handles i ≡ some e
      → is_set e ≡ true
      → wait n t handles ≢ timed_out

get_elem?-take :
    (events : List ℕ) (i size e : ℕ)
    → i < size
    → get_elem? events i ≡ some e
    → get_elem? (take size events) i ≡ some e
unfolding get_elem?
get_elem?-take events i zero e h g = absurd (omega arith)
get_elem?-take [] i (suc size) e h g = g
get_elem?-take (x ∷ xs) zero (suc size) e h g = g
get_elem?-take (x ∷ xs) (suc i) (suc size) e h g = get_elem?-take xs i size e (omega arith) g

get_elem?-drop :
    (events : List ℕ) (i j k e : ℕ)
    → k ≡ j + i
    → get_elem? events k ≡ some e
    → get_elem? (drop j events) i ≡ some e
unfolding get_elem?
get_elem?-drop events i zero k e h g = let q : i ≡ k = omega arith in rw q g
get_elem?-drop [] i (suc j) k e h g = cc
get_elem?-drop (x ∷ xs) i (suc j) zero e h g = absurd (omega arith)
get_elem?-drop (x ∷ xs) i (suc j) (suc k) e h g = get_elem?-drop xs i j k e (omega arith) g

get_elem?-lt : (events : List ℕ) (i e : ℕ) → get_elem? events i ≡ some e → i < length events
unfolding get_elem?
get_elem?-lt [] i e h = cc
get_elem?-lt (x ∷ xs) zero e h = omega arith
get_elem?-lt (x ∷ xs) (suc i) e h = omega (arith, get_elem?-lt xs i e h)

portion-reaches :
    (events : List ℕ) (q j i : ℕ)
    → j ≡ 60 * q
    → i < length events
    → i < j + 60
    → i < j + portion events j
portion-reaches events q j i e h l = ground arith

get_elem?-of_take :
    (events : List ℕ) (i size e : ℕ)
    → get_elem? (take size events) i ≡ some e
    → get_elem? events i ≡ some e
unfolding get_elem?
get_elem?-of_take events i zero e g = cc
get_elem?-of_take [] i (suc size) e g = g
get_elem?-of_take (x ∷ xs) zero (suc size) e g = g
get_elem?-of_take (x ∷ xs) (suc i) (suc size) e g = get_elem?-of_take xs i size e g

get_elem?-of_drop :
    (events : List ℕ) (i j k e : ℕ)
    → k ≡ i + j
    → get_elem? (drop j events) i ≡ some e
    → get_elem? events k ≡ some e
unfolding get_elem?
get_elem?-of_drop events i zero k e h g = let q : k ≡ i = omega arith in rw q g
get_elem?-of_drop [] i (suc j) k e h g = cc
get_elem?-of_drop (x ∷ xs) i (suc j) zero e h g = absurd (omega arith)
get_elem?-of_drop (x ∷ xs) i (suc j) (suc k) e h g = get_elem?-of_drop xs i j k e (omega arith) g

-- The loops have ended with a signalled event of the array.
abbrev pub Served : (ℕ → Bool) → List ℕ → Polled → Type 0
Served is_set events (at k) = (e : ℕ) × (get_elem? events k ≡ some e) × (is_set e ≡ true)
Served is_set events polling_failed = ⊥
Served is_set events outside = ⊥
Served is_set events polling = ⊥

module _ (is_set : ℕ → Bool) (wait : Waits) (events : List ℕ) (sound : Serves is_set wait) where
  -- An answer about a portion is one about the array.
  answered-Served :
      (n j k size : ℕ) (t : Option ℕ)
      → wait n t (take size (drop j events)) ≡ signalled k
      → Served is_set events (at (k + j))
  answered-Served n j k size t x =
      let (e, here, set) = sound.finds n t (take size (drop j events)) k x in
      (
        e,
        get_elem?-of_drop events k j (k + j) e refl
            (get_elem?-of_take (drop j events) k size e here),
        set,
      )

  module _ (i e : ℕ) (there : get_elem? events i ≡ some e) (set : is_set e ≡ true) where
    in_portion :
        (n j size : ℕ) (t : Option ℕ)
        → j ≤ i
        → i < j + size
        → wait n t (take size (drop j events)) ≢ timed_out
    in_portion n j size t h k x =
        sound.misses_none n t (take size (drop j events)) (i - j) e
          (get_elem?-take (drop j events) (i - j) size e (omega arith)
            (get_elem?-drop events (i - j) j i e (omega arith) there))
          set x

    poll-Served :
        (fuel n q j : ℕ)
        → length events ≤ 1980
        → j ≡ 60 * q
        → j ≤ i
        → i < j + 60 * fuel
        → Served is_set events (poll wait events fuel n j)
    unfolding poll
    poll-Served zero n q j few m h k = absurd (omega arith)
    poll-Served (suc fuel) n q j few m h k =
        let below = get_elem?-lt events i e there in
        let inside : ltb j (length events) ≡ true = ground arith in
        rw (poll, inside, portion-copied events q j few m (omega arith))
          (elim (answers (wait n (patience events j) (take (portion events j) (drop j events)))) [
            | inl (k', x) ↦
                rw (poll, x) (answered-Served n j k' (portion events j) (patience events j) x)
            | inr (inl x) ↦ elim (Bool-cases (ltb i (j + 60))) [
              | inl near ↦ absurd (
                  in_portion n j (portion events j) (patience events j) h
                    (portion-reaches events q j i m below (ground arith)) x)
              | inr far ↦
                  rw (poll, x)
                    (poll-Served fuel (n + 1) (q + 1) (j + 60) few (omega arith) (ground arith)
                      (omega arith))
            ]
            | inr (inr x) ↦ absurd (sound.goes_well n _ _ x)
          ])

-- The polling serves a signalled event wherever one stands in the array: with a wait for each portion of
-- 60 up to a signalled event, the loops end, and at the index of an event that is signalled. There are at
-- most 1980 events. WaitForMultipleObjects does not fail, answers with a signalled event that it is
-- given, and does not time out when it is given one.
pub choose-Served :
    (is_set : ℕ → Bool) (wait : Waits) (events : List ℕ)
    → Serves is_set wait
    → (fuel i e : ℕ) → get_elem? events i ≡ some e
    → is_set e ≡ true
    → length events ≤ 1980
    → i < 60 * fuel
    → Served is_set events (choose fuel wait events)
unfolding choose wait_all
choose-Served is_set wait events sound fuel i e there set few k =
    elim (Bool-cases (ltb 60 (length events))) [
      | inl many ↦
          rw (choose, many)
            (poll-Served is_set wait events sound i e there set fuel 0 0 0 few (omega arith)
              (omega arith) (omega arith))
      | inr all_at_once ↦
          rw (choose, all_at_once)
            (elim (answers (wait 0 none events)) [
              | inl (k', x) ↦ rw (wait_all, x) (sound.finds 0 none events k' x)
              | inr (inl x) ↦ absurd (sound.misses_none 0 none events i e there set x)
              | inr (inr x) ↦ absurd (sound.goes_well 0 none events x)
            ])
    ]
