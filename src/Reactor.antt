-- ===== src/Reactor.antt =====
-- linux_reactor.cpp, with its class in multi_reactor.h and `interrupt_info` of imulti_reactor.h:
-- events of epoll become interrupts, and a pipe wakes the thread that waits for them. What epoll_wait
-- returns is an argument. The pipe takes a bounded number of numbers; the log file is left out.
pub mod Pending
pub mod Waking
use tcp_fsm.Base.{
  ℕ, ◌-◌, ◌%◌, ◌^◌, Option, none, some, List, [], ◌∷◌, ◌++◌, Bool, true, false, not, ◌==◌,
  if◌then◌else◌, ltb, length, ◌+◌, bit_or, has_flag,
}
use tcp_fsm.Base.OrderedMap
use tcp_fsm.Connection.{fd_read, fd_write, fd_close}

abbrev pub epoll_in : ℕ
epoll_in = 1

abbrev pub epoll_out : ℕ
epoll_out = 4

abbrev pub epoll_err : ℕ
epoll_err = 8

pub record InterruptInfo : Type 0 where
  pub code : ℕ
  pub conn : ℕ  -- an address, or 0
  pub sreq : ℕ

-- What the constructor stores.
abbrev pub no_info : InterruptInfo
no_info = record { code = 0; conn = 0; sreq = 0 }

-- `epoll_event`: `data` holds an address, or a descriptor in its low 32 bits.
pub record EpollEvent : Type 0 where
  pub events : ℕ
  pub user_data : ℕ

pub data WaitResult : Type 0 where
  ready : List EpollEvent → WaitResult
  interrupted wait_failed : WaitResult  -- errno is EINTR, or another

pub record LinuxReactor : Type 0 where
  pub threads : List ℕ
  pub pipe_fd : ℕ  -- pipe_fds[0]
  pub pipe : List ℕ  -- the numbers that were written and not read yet
  pub room : ℕ  -- how many numbers the pipe takes
  pub lost : ℕ  -- how many writes failed on the full pipe, whose results are not looked at

unfoldable pub add_thread : ℕ → LinuxReactor → LinuxReactor
add_thread t r = record r { threads = r.threads ++ (t ∷ []) }

is_among : ℕ → List ℕ → Bool
is_among t [] = false
is_among t (s ∷ ss) = if s == t then true else is_among t ss

-- A call of epoll_ctl: EPOLL_CTL_ADD or EPOLL_CTL_DEL, a descriptor, and an event.
pub data CtlOp : Type 0 where
  ctl_add ctl_del : CtlOp

pub record Ctl : Type 0 where
  pub op : CtlOp
  pub fd : ℕ
  pub event : EpollEvent

-- The structure is zero but for the descriptor, so that its 64 bits of data are the descriptor.
control : CtlOp → (Ctl → Bool) → ℕ → Option Ctl
control op succeeds socket =
    let call : Ctl = record {
      op = op;
      fd = socket;
      event = record { events = bit_or epoll_in epoll_out; user_data = socket };
    } in
    if succeeds call then some call else none

-- `add_event(socket, type)`, which does not use the type: the call that it makes, or `none` where it
-- throws.
unfoldable pub add_event : (Ctl → Bool) → ℕ → ℕ → Option Ctl
unfolding control
add_event succeeds socket type = control ctl_add succeeds socket

unfoldable pub del_event : (Ctl → Bool) → ℕ → Option Ctl
unfolding control
del_event succeeds socket = control ctl_del succeeds socket

close_if_open : ℕ → List ℕ
close_if_open fd = if fd == 2 ^ 32 - 1 then [] else fd ∷ []

-- What the destructor closes, given `pipe_fds` and `epfd`.
unfoldable pub closed_at_end : ℕ × ℕ → ℕ → List ℕ
unfolding close_if_open
closed_at_end pipe_fds epfd = close_if_open pipe_fds.0 ++ close_if_open pipe_fds.1 ++ (epfd ∷ [])

-- `stop` on the thread `self`. The pipe does not block.
unfoldable pub stop : ℕ → ℕ → LinuxReactor → LinuxReactor
unfolding is_among
stop self socket r =
    if is_among self r.threads
    then r
    else if ltb (length r.pipe) r.room
    then record r { pipe = r.pipe ++ (socket ∷ []) }
    else record r { lost = r.lost + 1 }

-- The flags of an event, in the words of the interface.
unfoldable pub code_of : ℕ → ℕ
code_of events =
    let r = if has_flag events epoll_in then bit_or 0 fd_read else 0 in
    let w = if has_flag events epoll_out then bit_or r fd_write else r in
    if has_flag events epoll_err then bit_or w fd_close else w

-- `read` of one number: on an empty pipe it fails, and the variable keeps its 0.
unfoldable pub read_pipe : List ℕ → ℕ × List ℕ
read_pipe [] = (0, [])
read_pipe (n ∷ ns) = (n, ns)

-- One round of the loop over the events; `sock_of` reads the socket of a connection.
unfoldable pub translate :
    (ℕ → ℕ)
    → EpollEvent
    → LinuxReactor × List (ℕ × InterruptInfo)
    → LinuxReactor × List (ℕ × InterruptInfo)
unfolding read_pipe code_of
translate sock_of e (r, result) =
    if e.user_data % 2 ^ 32 == r.pipe_fd
    then (
      record r { pipe = (read_pipe r.pipe).1 },
      OrderedMap.insert (read_pipe r.pipe).0 no_info result,
    )
    else (
      r,
      OrderedMap.insert (sock_of e.user_data)
          (record { code = code_of e.events; conn = e.user_data; sreq = 0 }) result,
    )

unfoldable pub translate_all :
    (ℕ → ℕ)
    → List EpollEvent
    → LinuxReactor × List (ℕ × InterruptInfo)
    → LinuxReactor × List (ℕ × InterruptInfo)
unfolding translate
translate_all sock_of [] s = s
translate_all sock_of (e ∷ es) s = translate_all sock_of es (translate sock_of e s)

pub data Interrupts : Type 0 where
  interrupts : Bool → LinuxReactor → List (ℕ × InterruptInfo) → Interrupts
  failed : Interrupts
  waiting : Interrupts  -- no result of epoll_wait is left

pub is_nil : List EpollEvent → Bool
is_nil [] = true
is_nil (e ∷ es) = false

-- `get_interrupt(result)`, given what its calls of epoll_wait return in turn.
unfoldable pub get_interrupt :
    (ℕ → ℕ) → List WaitResult → LinuxReactor → List (ℕ × InterruptInfo) → Interrupts
unfolding translate_all is_nil
get_interrupt sock_of [] r result = waiting
get_interrupt sock_of (interrupted ∷ waits) r result = get_interrupt sock_of waits r result
get_interrupt sock_of (wait_failed ∷ waits) r result = failed
get_interrupt sock_of (ready es ∷ waits) r result =
    let (r', result') = translate_all sock_of es (r, result) in
    interrupts (not (is_nil es)) r' result'
