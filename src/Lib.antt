-- ===== src/Lib.antt =====
-- tcp_fsm: a library that runs TCP connections on one thread and tells its user by callbacks what
-- becomes of them. This development models its dispatcher for POSIX, the one over a completion port
-- for Windows, the older one there with two threads, and their reactors.
--
-- The parts. A `tcp_dispatcher` (tcp_dispatcher.h, tcp_dispatcher.cpp) owns a thread. Methods that
-- other threads call put a message in the queue (internal_messages.h, internal_messages.cpp) and wake
-- the thread through the pipe of the reactor (linux_reactor.cpp, multi_reactor.h). The thread takes
-- the interrupts of the reactor, carries out the messages, accepts, receives and sends, and calls the
-- callbacks (itcp_dispatcher.h) of the connections (connection.h). What a connection may send in a
-- round is bounded by the limiter (bwstop.h, bwstop.cpp). A `win_tcp_dispatcher` (win_tcp_dispatcher.h,
-- win_tcp_dispatcher.cpp) does the same with operations that it posts to a completion port
-- (cp_reactor.cpp) and carries on when they complete; it keeps lists of the objects of those that are
-- not completed. `tcp_dispatcher_biocp` (tcp_dispatcher_biocp.h, tcp_dispatcher_biocp.cpp) posts its
-- transfers to a completion port (iocp_reactor.cpp), while a second thread waits for new connections
-- (wsa_reactor.cpp) and hands what it finds to the first one as messages. Two more reactors, for
-- kqueue (fbsd_reactor.cpp) and for select(2) (multi_reactor.cpp), do not have the interface that the
-- dispatchers use, and stand alone.
--
-- The files.
--   Base            numbers modulo 2^32, Boolean tests, lists, a std::map as an ordered list
--   Messages        internal_messages: `push`, `push_ptr`, `pop`, `size`, `empty`
--   Bandwidth       bwstop: `insert`, `erase`, `on`, `off`, `recalc` (`measure` and `guess_all` are its
--                   two loops), `guess`, `can`, `turn`; below it the theorems on the measurement, the
--                   minimum, the removal of old records, the table and the virtual clock
--   Connection      connection.h, overlappedplus.h, overlappedplus.cpp: the records and constructors
--   Platform        what the program calls: sockets, epoll, the allocator, the clock, `double`
--   Reactor         linux_reactor: `get_interrupt`, `stop`, `add_thread`, `add_event`, `del_event`; Waking
--                   and Pending are about its events and the pipe that wakes the thread
--   Wsa             wsa_reactor (wsa_reactor.cpp, multi_reactor.h): `add_event`, `del_event`,
--                   `get_interrupt` with its polling, `what_happened`, `stop`
--   Kqueue          fbsd_reactor (fbsd_reactor.cpp, multi_reactor.h), over kqueue
--   Select          socket_reactor (multi_reactor.cpp, multi_reactor.h), over select(2)
--   Completion      iocp_reactor (iocp_reactor.cpp) and cp_reactor (cp_reactor.cpp): `get_transfer`
--   Monad           operations on a state that throw or fault, and below it the rules by which a property
--                   of the state passes through them
--   Effects         what leaves a dispatcher: the entries of its log
--   Lifecycle       the order of callbacks that itcp_dispatcher.h promises, as an automaton on the log of
--                   any dispatcher, and below it as a system of steps
--   World           the members of tcp_dispatcher and the calls that leave it
--   Dispatcher      tcp_dispatcher: Start (the constructors), Close (create_connection, close_connection,
--                   connection_established), Transfer (do_recv, do_send), Accept (accept_connection),
--                   Api (the methods of the interface), Loop (thread_proc), Schedule (the steps of all
--                   threads); Invariant carries a property through all of them; Protocol, Requests and
--                   Stopping are three such properties; Waking is about the queue and the pipe,
--                   Closing about a closed connection, Starving about requests that are passed
--                   over, Reading about what recv(2) answers
--   Win             win_tcp_dispatcher: State (what it calls, and its members), Close (close_connection
--                   and the lists of pending objects), Transfer (WSASend and WSARecv, posted and
--                   completed), Accept (ConnectEx and AcceptEx), Api (the methods), Loop (thread_proc,
--                   one packet at a time), Schedule; Invariant carries a property through all of them;
--                   Protocol (the order of callbacks) and Requests (the callback of a request) are two;
--                   Pending is about the lists, Outcomes about the constructor
--   Biocp           tcp_dispatcher_biocp: State, Close (close_connection and the lists), Transfer
--                   (send_request, send_complete, recv_complete), Accept (accept_connection,
--                   connection_established), Api (the methods), Listening (listening_thread) and Loop
--                   (thread_proc), one wait at a time, Schedule (the steps of all threads); Invariant
--                   carries a property through all of them; Protocol (the order of callbacks) and
--                   Requests (the callback of a request) are two; Packets is about what a packet does
--                   to a request, Hearing about the messages of the listening thread
--   Examples        a platform with numbers, and runs on it
--
-- How the code is read. A pointer is a number, 0 the null pointer; an object is a value of a
-- function from addresses. An operation takes the state and gives a new one, an exception with
-- the state at that point, or `fault` where the code has no defined behaviour (a null pointer, a
-- division by 0, an unset pointer). Each call of the platform (Platform, Windows in Win.State,
-- Calls in Biocp.State) is given the number of calls before it, so that no result is fixed. Calls
-- of callbacks, `addref` and `release`, and bytes that go to a socket are effects in the log.
-- Integers of 32 bits wrap around; comparisons of int with uint32_t are unsigned, as in C++.
--
-- A schedule is a list of method calls and rounds of the thread; the mutex of the queue makes
-- each method a step. A round is given what its calls of epoll_wait return. The loop over new
-- connections runs on fuel, which bounds the connections accepted in one round: one more than the
-- calls of the platform after which no connection is left is enough. The Windows dispatcher needs
-- no fuel: a step of its thread is one packet, which the schedule gives together with the
-- structure that the packet points at. The polling of Wsa runs on fuel for its waits: one for
-- each portion of 60 events up to a signalled one is enough. The schedule theorems hold for every
-- amount.
--
-- Not modelled. Log files; refcounted_obj, pthread_stuff and exception, which are not
-- in the repository, and so the destructors that a last `release` would run; allocation that
-- fails; the moment between the push of a message and the write to the pipe. A dispatcher with the port 0 has no thread: `construct`
-- returns false. A method that a callback calls stands in the schedule after the round.
pub mod Base
pub mod Messages
pub mod Bandwidth
pub mod Connection
pub mod Platform
pub mod Reactor
pub mod Wsa
pub mod Kqueue
pub mod Select
pub mod Completion
pub mod Monad
pub mod Lifecycle
pub mod Effects
pub mod World
pub mod Dispatcher
pub mod Win
pub mod Biocp
mod Examples
