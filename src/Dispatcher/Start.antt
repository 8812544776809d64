-- ===== src/Dispatcher/Start.antt =====
-- The constructors of tcp_dispatcher (tcp_dispatcher.cpp) and of linux_reactor (linux_reactor.cpp).
pub mod Outcomes
use tcp_fsm.Base.{ℕ, [], Option, none, some, Bool, true, false, ◌==◌, not, if◌then◌else◌}
use tcp_fsm.Bandwidth.{make_bwstop}
use tcp_fsm.Connection.{no_callbacks, tcp_conn_struct}
use tcp_fsm.Messages.{empty_queue}
use tcp_fsm.Platform.{Platform}
use tcp_fsm.Reactor.{LinuxReactor}
use tcp_fsm.World.{
  socket_closed, World, M, pure, ◌>>=◌, ◌>>◌, try_catch, throw, get, modify, emit, call, set_conn,
  update,
}
use tcp_fsm.Dispatcher.Close.{add_conn}

-- What stands before the `try`: the dispatcher is given the memory as it is.
unfoldable pub reset_members : ℕ → Bool → World → World
unfolding make_bwstop
reset_members junk accepted w = record w {
  listening_socket = none;
  accepted = accepted;
  outgoings = [];
  bws = make_bwstop junk 0;
  sockets_counter = 0;
}

-- `if( !ok ) throw exception(…)`
abbrev require : Bool → M (Unit {0})
require ok = if ok then pure tt else throw

abbrev from_pipe : ℕ → Option ℕ → ℕ
from_pipe junk none = junk
from_pipe junk (some fd) = fd

module _ (p : Platform) where
  -- `linux_reactor()`. Where `pipe` fails its ends are unset.
  unfoldable pub make_multi_reactor : M LinuxReactor
  make_multi_reactor = do
    found ← call p.pipe
    let fd = from_pipe p.junk found
    created ← call p.epoll_create
    require created
    added ← call (λ n. p.epoll_add n fd)
    require added
    pure (record { threads = []; pipe_fd = fd; pipe = []; room = p.pipe_room; lost = 0 })

  -- `listening_socket=::socket(…)`
  unfoldable pub open_listening : M ℕ
  open_listening = do
    found ← call p.socket
    modify λ w. record w { listening_socket = found }
    elim found [ none ↦ throw | some sock ↦ pure sock ]

  unfoldable pub start_thread : ℕ → M (Unit {0})
  unfolding make_multi_reactor tcp_conn_struct add_conn empty_queue
  start_thread sock = do
    mr ← make_multi_reactor
    modify λ w. record w { mr = mr }
    started ← call p.create_thread
    require started
    ec ← call p.new_object
    set_conn ec (tcp_conn_struct p.junk_addr sock no_callbacks)
    add_conn p ec
    modify λ w. record w { i_messages = empty_queue }

  unfoldable pub listen_on : ℕ → M (Unit {0})
  unfolding open_listening start_thread
  listen_on port = do
    sock ← open_listening
    nonblocking ← call (λ n. p.set_nonblock n sock)
    require nonblocking
    bound ← call (λ n. p.bind n sock (p.htons port))
    require bound
    listening ← call (λ n. p.listen n sock)
    require listening
    start_thread sock

  -- `if( -1!=listening_socket ) close(listening_socket); throw;`
  unfoldable pub give_up : M (Unit {0})
  give_up = do
    w ← get
    elim w.listening_socket [
      | none ↦ pure tt
      | some sock ↦ do emit (socket_closed sock); call (λ n. p.close n sock); pure tt
    ]
    throw

  -- `tcp_dispatcher(listen_port, accepted)`: whether there is a thread with its reactor and queue.
  unfoldable pub construct : ℕ → Bool → M Bool
  unfolding reset_members listen_on give_up
  construct port accepted = do
    modify (reset_members p.junk accepted)
    if port == 0 then pure false else (do try_catch (listen_on port) give_up; pure true)
