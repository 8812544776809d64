-- ===== src/Kqueue.antt =====
-- fbsd_reactor.cpp, with its class in multi_reactor.h: events of kqueue, and a pipe that wakes the
-- thread. What the system calls answer is an argument; the changes that kevent is asked for and does
-- not refuse are kept in a list, the last one first. A descriptor is a number that is not negative. Writes to the pipe are
-- taken to succeed; the log file is left out.
pub mod Reporting
use tcp_fsm.Base.{
  ℕ, ◌-◌, ◌^◌, List, [], ◌∷◌, ◌++◌, Option, none, some, Bool, true, false, not, ◌==◌, if◌then◌else◌,
}
use tcp_fsm.Base.OrderedMap
use tcp_fsm.Reactor.{read_pipe}

-- A change of what the queue watches: EV_ADD and EV_DELETE with EVFILT_READ.
pub data Change : Type 0 where
  added deleted : ℕ → Change

-- What the reactor calls. `none` is success, and `some` gives errno.
pub record Kernel : Type 0 where
  pub pipe : Option (ℕ × ℕ)
  pub kqueue : Option ℕ
  pub kevent : ℕ → List Change → Change → Option ℕ  -- given the changes before

pub record FbsdReactor : Type 0 where
  pub kqfd : ℕ
  pub pipe_fds : ℕ × ℕ
  pub isocket : ℕ
  pub desc_set : List (ℕ × Unit {0})
  pub pipe : List ℕ  -- the numbers that were written and not read yet
  pub changes : List Change

-- `struct kevent`, of which the reactor uses the descriptor.
pub record Kevent : Type 0 where
  pub ident : ℕ

-- An operation returns, or throws, each with the reactor at that point.
pub data Result (A : Type 0) : Type 0 where
  returns : A → FbsdReactor → Result A
  throws : FbsdReactor → Result A

abbrev pub and_then : {A B : Type 0} → Result A → (A → FbsdReactor → Result B) → Result B
and_then (returns a r) f = f a r
and_then (throws r) f = throws r

-- The pipe stays unset where pipe(2) fails, which the constructor does not take for an error.
fds_of : ℕ × ℕ → Option (ℕ × ℕ) → ℕ × ℕ
fds_of junk none = junk
fds_of junk (some fds) = fds

watch_pipe : Kernel → FbsdReactor → Option FbsdReactor
watch_pipe k r = elim (k.kevent r.kqfd [] (added r.pipe_fds.0)) [
  | none ↦ some (record r { changes = added r.pipe_fds.0 ∷ [] })
  | some e ↦ none
]

-- The constructor, `none` if it throws; `junk` and `junk_fds` are what unset members hold.
unfoldable pub construct : Kernel → ℕ → ℕ × ℕ → Option FbsdReactor
unfolding fds_of watch_pipe
construct k junk junk_fds = elim k.kqueue [
  | none ↦ none
  | some fd ↦ watch_pipe k (record {
    kqfd = fd;
    pipe_fds = fds_of junk_fds k.pipe;
    isocket = junk;
    desc_set = [];
    pipe = [];
    changes = [];
  })
]

-- `add_event(socket, type)`: the type is not used.
unfoldable pub add_event : Kernel → ℕ → ℕ → FbsdReactor → Result (Unit {0})
add_event k socket type r = elim (k.kevent r.kqfd r.changes (added socket)) [
  | none ↦ returns tt (record r {
    changes = added socket ∷ r.changes;
    desc_set = OrderedMap.insert socket tt r.desc_set;
  })
  | some e ↦ throws r
]

-- An event of the pipe: `isocket` takes the number that is read.
abbrev pub take_pipe : FbsdReactor → FbsdReactor
take_pipe r = record r { isocket = (read_pipe r.pipe).0; pipe = (read_pipe r.pipe).1 }

put_socket : ℕ → FbsdReactor → FbsdReactor
put_socket socket r = record r { isocket = socket; changes = deleted socket ∷ r.changes }

-- An event of a socket, which is taken out of the queue: ENOENT, which is 2, is no error.
take_socket : Kernel → ℕ → FbsdReactor → Result (Unit {0})
unfolding put_socket
take_socket k socket r = elim (k.kevent r.kqfd r.changes (deleted socket)) [
  | none ↦ returns tt (put_socket socket r)
  | some e ↦ if e == 2 then returns tt (put_socket socket r) else throws r
]

-- One round of the loop over the events.
unfoldable pub take_event : Kernel → Kevent → FbsdReactor → Result (Unit {0})
unfolding take_socket
take_event k e r =
    if e.ident == r.pipe_fds.0 then returns tt (take_pipe r) else take_socket k e.ident r

unfoldable pub take_events : Kernel → List Kevent → FbsdReactor → Result (Unit {0})
unfolding take_event
take_events k [] r = returns tt r
take_events k (e ∷ es) r = and_then (take_event k e r) λ _ r'. take_events k es r'

abbrev pub is_nil : List Kevent → Bool
is_nil [] = true
is_nil (e ∷ es) = false

-- `get_interrupt()`, given what its call of kevent returns: `none` is -1.
unfoldable pub get_interrupt : Kernel → Option (List Kevent) → FbsdReactor → Result Bool
unfolding take_events
get_interrupt k none r = throws r
get_interrupt k (some es) r = and_then (take_events k es r) λ _ r'. returns (not (is_nil es)) r'

unfoldable pub interrupt : ℕ → FbsdReactor → FbsdReactor
interrupt socket r = record r { pipe = r.pipe ++ (socket ∷ []) }

unfoldable pub who : FbsdReactor → ℕ
who r = r.isocket

unfoldable pub which : FbsdReactor → ℕ
which r = 0

unfoldable pub internal_interrupt : FbsdReactor → Bool
internal_interrupt r = r.isocket == 0

-- -1 as an int.
abbrev minus_one : ℕ
minus_one = 2 ^ 32 - 1

close_if_open : ℕ → List ℕ
close_if_open fd = if fd == minus_one then [] else fd ∷ []

-- The destructor: the descriptors that it closes, in order, and the reactor without its sockets.
unfoldable pub destroy : FbsdReactor → List ℕ × FbsdReactor
unfolding close_if_open
destroy r = (
  close_if_open r.pipe_fds.0 ++ close_if_open r.pipe_fds.1 ++ (r.kqfd ∷ []),
  record r { desc_set = [] },
)
