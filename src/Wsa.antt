-- ===== src/Wsa.antt =====
-- The reactor over events of WinSock: wsa_reactor.cpp, with its class in multi_reactor.h. What the
-- waits and the other calls of Windows answer is an argument; a handle is a number. The mutex of
-- the table is held in each access, and no other thread changes it between two of them here.
pub mod Polling
pub mod Reporting
use tcp_fsm.Base.{
  ℕ, zero, suc, ◌+◌, ◌-◌, ◌^◌, ◌%◌, List, [], ◌∷◌, Option, none, some, Bool, true, false, ◌==◌, ltb,
  not, ◌||◌, if◌then◌else◌, length, take, drop, has_flag,
}
use tcp_fsm.Base.OrderedMap
use tcp_fsm.Connection.{fd_close}

-- WSANETWORKEVENTS: the flags, and the error of each bit.
pub record NetworkEvents : Type 0 where
  pub flags : ℕ
  pub errors : ℕ → ℕ

pub record WsaReactor : Type 0 where
  pub wait_events : List (ℕ × ℕ)  -- from an event to its socket
  pub interrupt_event : ℕ
  pub exit_event : ℕ

-- WaitForMultipleObjects: the index of a signalled handle, WAIT_TIMEOUT or WAIT_FAILED.
pub data WaitAnswer : Type 0 where
  signalled : ℕ → WaitAnswer
  timed_out handles_failed : WaitAnswer

-- What a wait answers, given the number of waits before it, the milliseconds, and the handles.
abbrev pub Waits : Type 0
Waits = ℕ → Option ℕ → List ℕ → WaitAnswer

unfoldable pub get_elem? : {A : Type 0} → List A → ℕ → Option A
get_elem? [] i = none
get_elem? (x ∷ xs) zero = some x
get_elem? (x ∷ xs) (suc i) = get_elem? xs i

-- `WSACreateEvent`, if it succeeds, and whether `WSAEventSelect` does: `none` is the exception.
unfoldable pub add_event : Option ℕ → Bool → ℕ → WsaReactor → Option WsaReactor
add_event none selected socket r = none
add_event (some event) selected socket r =
    if selected
    then some (record r { wait_events = OrderedMap.insert event socket r.wait_events })
    else none

erase_socket : ℕ → List (ℕ × ℕ) → List (ℕ × ℕ)
erase_socket socket [] = []
erase_socket socket ((event, s) ∷ rest) =
    if s == socket then rest else (event, s) ∷ erase_socket socket rest

-- The first entry for the socket goes.
unfoldable pub del_event : ℕ → WsaReactor → WsaReactor
unfolding erase_socket
del_event socket r = record r { wait_events = erase_socket socket r.wait_events }

keys : List (ℕ × ℕ) → List ℕ
keys [] = []
keys ((event, s) ∷ rest) = event ∷ keys rest

-- The array that `get_interrupt` fills.
unfoldable pub events_of : WsaReactor → List ℕ
unfolding keys
events_of r = r.interrupt_event ∷ r.exit_event ∷ keys r.wait_events

pub data Polled : Type 0 where
  at : ℕ → Polled
  polling_failed : Polled
  outside : Polled  -- handles that were not filled in are waited for, or read behind the array
  polling : Polled  -- the fuel ran out

-- How many handles a portion at `j` has.
abbrev pub portion : List ℕ → ℕ → ℕ
portion events j = if ltb (length events) (j + 60) then length events % 60 else 60

-- The last portion is waited for 100 milliseconds, the others not at all.
abbrev pub patience : List ℕ → ℕ → Option ℕ
patience events j = some (if ltb (length events) (j + 60) then 100 else 0)

-- How many handles the array has room for.
abbrev pub array_size : ℕ
array_size = 2000

-- Whether the copy of 60 handles from `j` on stays in the array.
abbrev pub copies_within : ℕ → Bool
copies_within j = not (ltb array_size (j + 60))

-- The two loops over the events in portions of 60, from `j` on; `n` waits were made before. 60 handles
-- are copied whatever the portion has.
unfoldable pub poll : Waits → List ℕ → ℕ → ℕ → ℕ → Polled
poll wait events zero n j = polling
poll wait events (suc fuel) n j = elim (ltb j (length events)) [
  | true ↦ elim (not (copies_within j) || ltb (length events) (j + portion events j)) [
    | true ↦ outside
    | false ↦ elim (wait n (patience events j) (take (portion events j) (drop j events))) [
      | signalled i ↦ at (i + j)
      | timed_out ↦ poll wait events fuel (n + 1) (j + 60)
      | handles_failed ↦ polling_failed
    ]
  ]
  | false ↦ poll wait events fuel n 0
]

-- One wait without a limit of time for all events.
unfoldable pub wait_all : Waits → List ℕ → Polled
wait_all wait events = elim (wait 0 none events) [
  | signalled i ↦ at i
  | timed_out ↦ at 258
  | handles_failed ↦ polling_failed
]

-- The index that `get_interrupt` goes on with.
unfoldable pub choose : ℕ → Waits → List ℕ → Polled
unfolding poll wait_all
choose fuel wait events =
    if ltb 60 (length events) then poll wait events fuel 0 0 else wait_all wait events

-- Reading, writing, out-of-band data, accepting, connecting, closing, quality of service of a socket
-- and of a group, routing and the addresses: FD_READ_BIT to FD_ADDRESS_LIST_CHANGE_BIT.
abbrev pub event_bits : List ℕ
event_bits = 0 ∷ 1 ∷ 2 ∷ 3 ∷ 4 ∷ 5 ∷ 6 ∷ 7 ∷ 8 ∷ 9 ∷ []

unfoldable pub none_failed : NetworkEvents → List ℕ → Bool
none_failed ev [] = true
none_failed ev (bit ∷ bits) =
    if has_flag ev.flags (2 ^ bit)
    then if ev.errors bit == 0 then none_failed ev bits else false
    else none_failed ev bits

unfoldable pub what_happened : NetworkEvents → Bool
unfolding none_failed
what_happened ev = none_failed ev event_bits

-- The socket -1.
abbrev pub invalid_socket : ℕ
invalid_socket = 2 ^ 64 - 1

-- WSAENOTSOCK, WSAENOTCONN and WSAECONNRESET.
abbrev pub is_broken_socket : ℕ → Bool
is_broken_socket code = code == 10038 || code == 10057 || code == 10054

-- WSAEnumNetworkEvents: the events, or an error.
pub data Enumerated : Type 0 where
  happened : NetworkEvents → Enumerated
  enum_failed : ℕ → Enumerated

-- `get_interrupt` returns, throws, polls on, or goes out of the bounds of its array.
pub data Interrupted : Type 0 where
  returns : Bool → WsaReactor → List (ℕ × ℕ) → Interrupted
  throws polls faults : Interrupted

abbrev pub close_and_erase : ℕ → ℕ → WsaReactor → List (ℕ × ℕ) → Interrupted
close_and_erase event socket r result =
    returns true (record r { wait_events = OrderedMap.erase event r.wait_events })
      (OrderedMap.insert socket fd_close result)

-- What is done with the event of a socket.
unfoldable pub report : ℕ → ℕ → Enumerated → WsaReactor → List (ℕ × ℕ) → Interrupted
unfolding what_happened
report event socket (happened ev) r result =
    if what_happened ev
    then returns true r (OrderedMap.insert socket ev.flags result)
    else close_and_erase event socket r result
report event socket (enum_failed code) r result =
    if is_broken_socket code then close_and_erase event socket r result else returns false r result

-- What is done with a signalled event, given whether ResetEvent succeeds.
unfoldable pub dispatch : Bool → (ℕ → ℕ → Enumerated) → ℕ → WsaReactor → List (ℕ × ℕ) → Interrupted
unfolding report
dispatch reset enumerate event r result =
    if event == r.interrupt_event
    then if reset then returns true r (OrderedMap.insert 0 0 result) else throws
    else if event == r.exit_event
    then if reset then returns true r (OrderedMap.insert invalid_socket 0 result) else throws
    else elim (OrderedMap.find event r.wait_events) [
      | none ↦ returns false r result
      | some socket ↦ report event socket (enumerate socket event) r result
    ]

unfoldable pub dispatch_polled :
    Bool → (ℕ → ℕ → Enumerated) → Polled → WsaReactor → List (ℕ × ℕ) → Interrupted
unfolding dispatch
dispatch_polled reset enumerate polling r result = polls
dispatch_polled reset enumerate outside r result = faults
dispatch_polled reset enumerate polling_failed r result = throws
dispatch_polled reset enumerate (at i) r result = elim (get_elem? (events_of r) i) [
  | none ↦ faults
  | some event ↦ dispatch reset enumerate event r result
]

-- `fuel` is for the waits of the polling.
unfoldable pub get_interrupt :
    ℕ → Waits → Bool → (ℕ → ℕ → Enumerated) → WsaReactor → List (ℕ × ℕ) → Interrupted
unfolding dispatch_polled choose events_of
get_interrupt fuel wait reset enumerate r result =
    if ltb array_size (length (events_of r))
    then faults
    else dispatch_polled reset enumerate (choose fuel wait (events_of r)) r result

-- Which events `stop(socket)` sets: the exit event and the interrupt event.
unfoldable pub stop : ℕ → Bool × Bool
stop socket = (socket == invalid_socket, true)
