-- ===== src/Examples/Reactors.antt =====
-- The theorems on the reactors at concrete inputs.
use tcp_fsm.Base.{ℕ, ◌≡◌, ◌≢◌, refl, List, [], ◌∷◌, some, true, false, ◌==◌, if◌then◌else◌, arith}
use tcp_fsm.Base.OrderedMap
use tcp_fsm.Reactor
use tcp_fsm.Base.{◌+◌, Bool-cases, inl, inr, zero, suc}
use tcp_fsm.Base.OrderedMap.{From}
use tcp_fsm.Reactor.{
  epoll_in, epoll_out, epoll_err, EpollEvent, WaitResult, ready, interrupted, LinuxReactor,
  InterruptInfo, interrupts, code_of,
}
use tcp_fsm.Reactor.Waking.{Told, first_under, first_ready, get_interrupt-Told}
use tcp_fsm.Wsa.{
  NetworkEvents, WsaReactor, Waits, WaitAnswer, signalled, timed_out, handles_failed, Enumerated,
  happened, returns, Interrupted, faults, polling, event_bits, what_happened, report, choose,
  get_elem?,
}
use tcp_fsm.Wsa
use tcp_fsm.Wsa.Polling.{AnswersWithin, Serves, Served, get_interrupt-ne-faults, choose-Served}
use tcp_fsm.Wsa.Reporting.{IsFailure, IsDropped, report_of, report_lem}
use tcp_fsm.Completion
use tcp_fsm.Completion.{Packet, Request, Transfer}
use tcp_fsm.Completion.Reports.{Reports, get_transfer_lem}

-- A signal, and then an event of the connection at 7 and one of the pipe.
abbrev two_events : List WaitResult
two_events =
    interrupted
    ∷ ready (record { events = 5; user_data = 7 } ∷ record { events = 1; user_data = 3 } ∷ [])
    ∷ []

abbrev with_pipe : LinuxReactor
with_pipe = record { threads = []; pipe_fd = 3; pipe = 0 ∷ 0 ∷ []; room = 16384; lost = 0 }

abbrev two_interrupts : List (ℕ × InterruptInfo)
two_interrupts =
    (0, record { code = 0; conn = 0; sreq = 0 }) ∷ (4, record { code = 3; conn = 7; sreq = 0 }) ∷ []

two_events_give :
    Reactor.get_interrupt (λ h. 4) two_events with_pipe []
    ≡ interrupts true (record with_pipe { pipe = 0 ∷ [] }) two_interrupts
unfolding Reactor.get_interrupt Reactor.translate_all Reactor.translate Reactor.code_of
    Reactor.read_pipe OrderedMap.insert
two_events_give = refl

get_interrupt-Told_example :
    Told 3 (first_under (λ h. 4) 3 4 (first_ready two_events)) (OrderedMap.find 4 two_interrupts)
get_interrupt-Told_example =
    get_interrupt-Told (λ h. 4) two_events with_pipe (record with_pipe { pipe = 0 ∷ [] })
      two_interrupts true (refl, (refl, tt)) two_events_give 4

-- Two sockets are watched; every wait answers with its first handle.
abbrev two_watched : WsaReactor
two_watched = record { wait_events = (20, 4) ∷ (21, 5) ∷ []; interrupt_event = 10; exit_event = 11 }

first_handle : Waits
first_handle n t [] = tcp_fsm.Wsa.handles_failed
first_handle n t (x ∷ xs) = signalled 0

abbrev reading : NetworkEvents
reading = record { flags = 1; errors = λ bit. 0 }

first_handle-AnswersWithin : AnswersWithin first_handle
unfolding first_handle
first_handle-AnswersWithin n t [] = ((λ i e. cc), λ e. cc)
first_handle-AnswersWithin n t (x ∷ xs) = ((λ i e. ground arith), λ e. cc)

get_interrupt-ne-faults_example :
    Wsa.get_interrupt 1 first_handle true (λ socket event. happened reading) two_watched [] ≢ faults
unfolding Wsa.events_of
get_interrupt-ne-faults_example =
    get_interrupt-ne-faults 1 first_handle true (λ socket event. happened reading) two_watched []
      first_handle-AnswersWithin (omega arith)

-- A wait answers with the first handle that is 4, the event that is signalled.
abbrev later : WaitAnswer → WaitAnswer
later (signalled i) = signalled (i + 1)
later timed_out = timed_out
later handles_failed = handles_failed

abbrev first_four : List ℕ → WaitAnswer
first_four [] = timed_out
first_four (x ∷ xs) = if x == 4 then signalled 0 else later (first_four xs)

abbrev waits_for_four : Waits
waits_for_four n t handles = first_four handles

later-goes_well : (x : WaitAnswer) → x ≢ handles_failed → later x ≢ handles_failed
later-goes_well (signalled i) h e = cc
later-goes_well timed_out h e = cc
later-goes_well handles_failed h e = h refl

first_four-goes_well : (xs : List ℕ) → first_four xs ≢ handles_failed
first_four-goes_well [] e = cc
first_four-goes_well (x ∷ xs) e =
    ground (arith, later-goes_well (first_four xs) (first_four-goes_well xs))

later-signalled :
    (x : WaitAnswer) (i : ℕ) → later x ≡ signalled i → (k : ℕ) × (x ≡ signalled k) × (i ≡ k + 1)
later-signalled (signalled k) i e = (k, refl, ground arith)
later-signalled timed_out i e = cc
later-signalled handles_failed i e = cc

first_four-finds :
    (xs : List ℕ) (i : ℕ)
    → first_four xs ≡ signalled i
    → (e : ℕ) × (get_elem? xs i ≡ some e) × ((e == 4) ≡ true)
unfolding get_elem?
first_four-finds [] i h = cc
first_four-finds (x ∷ xs) i h = elim (Bool-cases (x == 4)) [
  | inl four ↦ let first : i ≡ 0 = ground arith in rw first (x, refl, four)
  | inr other ↦
      let (k, there, next) = later-signalled (first_four xs) i (rw (other, first_four) at h) in
      let (e, found, four) = first_four-finds xs k there in
      let q : i ≡ suc k = omega arith in rw q (e, found, four)
]

later-timed_out : (x : WaitAnswer) → later x ≡ timed_out → x ≡ timed_out
later-timed_out (signalled k) e = cc
later-timed_out timed_out e = refl
later-timed_out handles_failed e = cc

first_four-misses_none :
    (xs : List ℕ) (i e : ℕ) → get_elem? xs i ≡ some e → (e == 4) ≡ true → first_four xs ≢ timed_out
unfolding get_elem?
first_four-misses_none [] i e g four h = cc
first_four-misses_none (x ∷ xs) zero e g four h = ground arith
first_four-misses_none (x ∷ xs) (suc i) e g four h =
    ground (arith, later-timed_out (first_four xs), first_four-misses_none xs i e g four)

-- The numbers below n, from the greatest on.
abbrev below : ℕ → List ℕ
below zero = []
below (suc n) = n ∷ below n

four-Serves : Serves (λ e. e == 4) waits_for_four
four-Serves = record {
  goes_well = λ n t. first_four-goes_well;
  finds = λ n t. first_four-finds;
  misses_none = λ n t. first_four-misses_none;
}

choose-Served_example : Served (λ e. e == 4) (below 70) (choose 2 waits_for_four (below 70))
unfolding get_elem?
choose-Served_example =
    choose-Served (λ e. e == 4) waits_for_four (below 70) four-Serves 2 65 4 refl refl (omega arith)
      (omega arith)

report_lem_example :
    (IsFailure (happened reading)
      → (r' : WsaReactor) × (result : List (ℕ × ℕ)) × (Wsa.report 20 4
            (happened reading)
            two_watched
            []
          ≡ returns true r' result)
        × IsDropped 20 4 two_watched r' result)
    × (¬ IsFailure (happened reading)
        → Wsa.report 20 4 (happened reading) two_watched []
          ≡ report_of (happened reading) 4 two_watched)
report_lem_example = report_lem 20 4 (happened reading) two_watched (omega arith, (omega arith, tt))

-- Six bytes of the request at 11 were sent.
abbrev six_sent : Packet
six_sent = record { succeeded = true; timed_out = false; error = 0; size = 6; overlap = 11 }

abbrev sending : Request
sending = record { sock = 4; code = 2; conn_sock = 4; transferred = 0 }

abbrev all_sending : ℕ → Request
all_sending a = sending

abbrev after_six : Transfer
after_six = record {
  rconn = 0;
  returned = 6;
  s_req = 11;
  r_req = 0;
  result = (4, 2) ∷ [];
  requests = λ b. if 11 == b then record sending { transferred = 6 } else sending;
}

six_sent_give : Completion.get_transfer 0 six_sent all_sending [] ≡ some after_six
unfolding Completion.get_transfer Completion.completed Completion.put OrderedMap.insert
six_sent_give = refl

get_transfer_lem_example : Reports six_sent all_sending after_six 4 2
get_transfer_lem_example = get_transfer_lem 0 six_sent all_sending after_six six_sent_give
