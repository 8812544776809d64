-- ===== src/Select.antt =====
-- socket_reactor: multi_reactor.cpp, with its class in multi_reactor.h. It waits by select(2), and a
-- pair of sockets wakes it. `get_interrupt` reads `ready_socket` and `desc_set`, which the class does
-- not declare: here they are a record of their own. What the system calls answer is an argument; a
-- descriptor is an int, with -1 for none. The log file is left out.
pub mod Watching
use tcp_fsm.Base.{
  ℕ, ◌+◌, ◌-◌, ◌*◌, ◌/◌, ◌^◌, List, [], ◌∷◌, ◌++◌, Option, none, some, Bool, true, false, not, ◌&&◌,
  ◌||◌, ◌==◌, ltb, if◌then◌else◌, has_flag,
}
use tcp_fsm.Base.OrderedMap
use tcp_fsm.Connection.{fd_accept}

-- -1 as an int.
abbrev pub minus_one : ℕ
minus_one = 2 ^ 32 - 1

-- What the reactor calls. The descriptors of `socket` are numbered by the calls; the others are
-- given the descriptor.
pub record Sockets : Type 0 where
  pub socket : ℕ → ℕ
  pub bind : ℕ → Bool
  pub getsockname : ℕ → Bool
  pub listen : ℕ → Bool
  pub connect : ℕ → Bool
  pub accept : ℕ → ℕ

pub record SocketReactor : Type 0 where
  pub pipe_fds : ℕ × ℕ
  pub isocket : ℕ
  pub r_desc_set : List (ℕ × Unit {0})
  pub w_desc_set : List (ℕ × Unit {0})
  pub pipe : ℕ  -- the bytes that were sent and not read yet, which are zeros

-- Where the socket that the listener accepted is at hand; `listener` is not closed.
made : ℕ → ℕ → ℕ → Option SocketReactor
made junk end accepted =
    if accepted == minus_one
    then none
    else some (record {
      pipe_fds = (accepted, end);
      isocket = junk;
      r_desc_set = [];
      w_desc_set = [];
      pipe = 0;
    })

-- The constructor, `none` if it throws: a failure of `socket`, -1, is compared with 0.
unfoldable pub construct : Sockets → ℕ → Option SocketReactor
unfolding made
construct k junk =
    let listener = k.socket 0 in
    let end = k.socket 1 in
    if listener == 0
      || not (k.bind listener)
      || not (k.getsockname listener)
      || not (k.listen listener)
      || not (k.connect end)
    then none
    else made junk end (k.accept listener)

unfoldable pub add_event : ℕ → ℕ → SocketReactor → SocketReactor
add_event socket type r =
    if has_flag type fd_accept
    then record r { r_desc_set = OrderedMap.insert socket tt r.r_desc_set }
    else record r { w_desc_set = OrderedMap.insert socket tt r.w_desc_set }

pub keys : List (ℕ × Unit {0}) → List ℕ
keys [] = []
keys ((d, u) ∷ ds) = d ∷ keys ds

-- The three sets that select is given, and the greatest descriptor.
pub record FdSets : Type 0 where
  pub rset : List ℕ
  pub wset : List ℕ
  pub eset : List ℕ
  pub max : ℕ

-- The loop over `r_desc_set`.
add_reading : List ℕ → FdSets → FdSets
add_reading [] s = s
add_reading (d ∷ ds) s =
    add_reading ds
      (record s { rset = d ∷ s.rset; eset = d ∷ s.eset; max = if ltb s.max d then d else s.max })

-- The loop over `w_desc_set`.
add_writing : List ℕ → FdSets → FdSets
add_writing [] s = s
add_writing (d ∷ ds) s =
    add_writing ds
      (record s { wset = d ∷ s.wset; eset = d ∷ s.eset; max = if ltb s.max d then d else s.max })

unfoldable pub sets_of : SocketReactor → FdSets
unfolding keys add_reading add_writing
sets_of r = add_writing (keys r.w_desc_set) (
    add_reading (keys r.r_desc_set)
      (record { rset = r.pipe_fds.0 ∷ []; wset = []; eset = []; max = r.pipe_fds.0 }))

-- FD_SETSIZE of glibc: FD_SET is defined for the descriptors below it.
abbrev pub fd_setsize : ℕ
fd_setsize = 1024

unfoldable pub all_below : List ℕ → Bool
all_below [] = true
all_below (d ∷ ds) = ltb d fd_setsize && all_below ds

-- The sets, `none` where one of the calls of FD_SET is not defined. Where all are, the descriptors are
-- ints that are not negative, and compare as such.
unfoldable pub fd_sets : SocketReactor → Option FdSets
unfolding all_below sets_of keys
fd_sets r =
    if ltb r.pipe_fds.0 fd_setsize && all_below (keys r.r_desc_set) && all_below (keys r.w_desc_set)
    then some (sets_of r)
    else none

-- select(2), given the greatest descriptor plus one and the sets: how many are ready, and which of
-- `rset`; `none` is -1.
abbrev pub Select : Type 0
Select = ℕ → List ℕ → List ℕ → List ℕ → Option (ℕ × (ℕ → Bool))

pub record Undeclared : Type 0 where
  pub ready_socket : ℕ
  pub desc_set : List (ℕ × Unit {0})

-- `faults` where the loop goes on from an iterator whose element was erased, and where a descriptor does
-- not fit into the sets.
pub data Interrupted : Type 0 where
  returns : Bool → SocketReactor → Undeclared → Interrupted
  throws faults : Interrupted

-- `read` into an int: as many of its bytes, from the lowest on, as there are, become 0.
unfoldable pub read_bytes : ℕ → ℕ → ℕ × ℕ
read_bytes n value = let k = if ltb n 4 then n else 4 in (n - k, value / 256 ^ k * 256 ^ k)

take_pipe : Bool → SocketReactor → Undeclared → SocketReactor × Undeclared
unfolding read_bytes
take_pipe ready r u =
    if ready
    then (
      record r { pipe = (read_bytes r.pipe u.ready_socket).0 },
      record u { ready_socket = (read_bytes r.pipe u.ready_socket).1 },
    )
    else (r, u)

any_ready : (ℕ → Bool) → List ℕ → Bool
any_ready is_set [] = false
any_ready is_set (d ∷ ds) = is_set d || any_ready is_set ds

-- What is done with the answer of select: the first of `desc_set` that is ready is closed and erased.
unfoldable pub take_ready : Option (ℕ × (ℕ → Bool)) → SocketReactor → Undeclared → Interrupted
unfolding take_pipe any_ready keys
take_ready none r u = throws
take_ready (some (res, is_set)) r u =
    let (r', u') = take_pipe (is_set r.pipe_fds.0) r u in
    if any_ready is_set (keys u.desc_set) then faults else returns (not (res == 0)) r' u'

unfoldable pub get_interrupt : Select → SocketReactor → Undeclared → Interrupted
unfolding take_ready fd_sets
get_interrupt select r u = elim (fd_sets r) [
  | none ↦ faults
  | some s ↦ take_ready (select (s.max + 1) s.rset s.wset s.eset) r u
]

-- One byte is sent, whatever the socket.
unfoldable pub interrupt : ℕ → SocketReactor → SocketReactor
interrupt socket r = record r { pipe = r.pipe + 1 }

unfoldable pub who : SocketReactor → ℕ
who r = r.isocket

unfoldable pub which : SocketReactor → ℕ
which r = 0

unfoldable pub internal_interrupt : SocketReactor → Bool
internal_interrupt r = r.isocket == 0

close_if_open : ℕ → List ℕ
close_if_open fd = if fd == minus_one then [] else fd ∷ []

-- The destructor: the descriptors that it closes, in order, and the reactor without its sockets.
unfoldable pub destroy : SocketReactor → List ℕ × SocketReactor
unfolding close_if_open
destroy r = (
  close_if_open r.pipe_fds.0 ++ close_if_open r.pipe_fds.1,
  record r { r_desc_set = []; w_desc_set = [] },
)
