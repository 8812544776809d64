-- ===== src/Examples/Biocp.antt =====
-- Windows with calls that succeed, and the theorems on tcp_dispatcher_biocp at concrete inputs.
use tcp_fsm.Base.{ℕ, ◌+◌, ◌≡◌, refl, List, [], ◌∷◌, ◌++◌, some, true, false, arith}
use tcp_fsm.Completion.{Packet}
use tcp_fsm.Effects.{
  Effect, release, addref, conn_object, send_object, recv_object, submitted, sent_so_far, sent_cb,
  connected_cb, closed_cb, socket_closed,
}
use tcp_fsm.Messages.{InternalMessage}
use tcp_fsm.Monad.{Answer, done, thrown, fault, update}
use tcp_fsm.Monad.Post.{Post}
use tcp_fsm.Examples.{nowhere, waiting_conn, five_bytes}
use tcp_fsm.Win.State.{io_pending}
use tcp_fsm.Biocp.Api
use tcp_fsm.Biocp.Loop
use tcp_fsm.Biocp.Accept
use tcp_fsm.Biocp.Close
use tcp_fsm.Biocp.Transfer
use tcp_fsm.Biocp.Schedule
use tcp_fsm.Base.OrderedMap
use tcp_fsm.Wsa
use tcp_fsm.Messages
use tcp_fsm.Completion
use tcp_fsm.Win.Structures.{send_req_struct}
use tcp_fsm.Biocp.State.{Calls, BiocpWorld, connect_going_on, nothing_to_accept}
use tcp_fsm.Biocp.Listening.{hear_all}
use tcp_fsm.Biocp.Loop.{of_recv, of_send, round}
use tcp_fsm.Biocp.Schedule.{Action, connects_new, closes, sends, serves, run}
use tcp_fsm.Biocp.Protocol.{life}
use tcp_fsm.Biocp.Protocol.Running.{Followed, threads-Trace}
use tcp_fsm.Biocp.Requests.{report_on, Answered}
use tcp_fsm.Biocp.Requests.Running.{threads-Answered}
use tcp_fsm.Biocp.Packets.{round-lost, round-resumes}
use tcp_fsm.Biocp.Hearing.{Carries, hear_all-Carries}

abbrev calls : Calls
calls = record {
  junk = 9;
  junk_addr = nowhere;
  new_object = λ n. n + 100;
  throws = λ n. false;
  fill_callbacks = λ n. record { read = true; closed = true; connected = false };
  htons = λ n. n;
  wsa_socket = λ n. some 5;
  bind = λ n sock port. true;
  listen = λ n sock. true;
  set_nonblock = λ n sock. true;
  make_events = λ n. true;
  create_event = λ n. some n;
  event_select = λ n sock type. true;
  set_event = λ n. true;
  create_port = λ n. true;
  add_conn = λ n sock. true;
  create_thread = λ n. true;
  wsa_connect = λ n sock addr. connect_going_on;
  wsa_accept = λ n sock. nothing_to_accept;
  filled = λ n size. [];
  wsa_recv = λ n sock. io_pending;
  wsa_send = λ n sock size. io_pending;
}

-- The connection 7 waits for its interrupt, whose message is in the queue.
abbrev waiting : BiocpWorld
waiting = record {
  conn_at = λ h. waiting_conn;
  recv_at = λ r. record { iov = record { sock = 4; code = 1; conn = 7 }; size = 0; filled = [] };
  send_at = λ s. five_bytes;
  external_at = λ x. record { sock = 4; events = 16 };
  listening_socket = 5;
  accepted = true;
  stop_accepting_sem = 0;
  iocp_r = record { threads = []; posted = [] };
  wsa_r = record { wait_events = []; interrupt_event = 1; exit_event = 2 };
  i_messages = record { messages = record { code = 11; ptr = some 12 } ∷ [] };
  conns = 7 ∷ [];
  recvs = [];
  sends = 11 ∷ [];
  running = true;
  hearing = true;
  calls = 0;
  log = [];
}

abbrev done_packet : ℕ → ℕ → Packet
done_packet size overlap = record {
  succeeded = true;
  timed_out = false;
  error = 0;
  size = size;
  overlap = overlap;
}

-- The connection is made, sends, and is closed.
abbrev life_of_two_threads : List Action
life_of_two_threads =
    serves (done_packet 0 0) (of_recv 0)
    ∷ sends 7 (1 ∷ 2 ∷ []) true
    ∷ serves (done_packet 0 0) (of_recv 0)
    ∷ serves (done_packet 2 105) (of_send 105)
    ∷ closes 7
    ∷ serves (done_packet 0 0) (of_recv 0)
    ∷ []

threads-Trace_example : Post (Followed 7) (Followed 7) (run calls life_of_two_threads waiting)
unfolding life
threads-Trace_example =
    threads-Trace calls 7 (λ e. omega (arith, e)) (λ n e. omega arith) life_of_two_threads
      (tt, (tt, (tt, (tt, (tt, (tt, tt)))))) waiting ((λ e. refl), refl)

-- The request 11 completes in part, and then is reported whole; its last packet comes twice.
abbrev two_parts : List Action
two_parts =
    serves (done_packet 3 11) (of_send 11)
    ∷ serves (done_packet 5 11) (of_send 11)
    ∷ serves (done_packet 5 11) (of_send 11)
    ∷ []

threads-Answered_example : Post (Answered 11 5) (Answered 11 5) (run calls two_parts waiting)
unfolding report_on
threads-Answered_example =
    threads-Answered calls 11 5 (λ n e. omega arith) two_parts waiting
      (record {
        running = λ e. record { honest = refl; total_kept = refl; once = λ e. cc };
        honest = refl;
      })

abbrev failed_packet : Packet
failed_packet = record { succeeded = false; timed_out = false; error = 121; size = 0; overlap = 11 }

round-lost_example : round calls failed_packet (of_send 11) waiting ≡ fault
round-lost_example =
    round-lost calls failed_packet (of_send 11) waiting refl (λ e. omega (arith, e)) refl
      (λ e. omega (arith, e))

-- Three of the five bytes went out.
round-resumes_example :
    round calls (done_packet 3 11) (of_send 11) waiting
    ≡ done true (record waiting {
      send_at = update waiting.send_at 11 (record five_bytes { sent_bytes = 3 });
      calls = 1;
      log = submitted 11 3 2 ∷ sent_so_far 11 3 ∷ [];
    })
round-resumes_example =
    round-resumes calls (done_packet 3 11) 11 waiting refl (λ e. omega (arith, e)) refl
      (λ e. omega (arith, e)) (omega arith) (omega arith) refl

abbrev two_interrupts : List (ℕ × ℕ)
two_interrupts = (5, 8) ∷ (4, 32) ∷ []

hear_all-Carries_example :
    (v : BiocpWorld) × (hear_all calls two_interrupts waiting ≡ done true v)
    × (ms : List InternalMessage) × (v.i_messages.messages
        ≡ (record { code = 11; ptr = some 12 } ∷ []) ++ ms)
    × Carries v.external_at ms two_interrupts
hear_all-Carries_example =
    hear_all-Carries calls (λ m n e. omega (arith, e)) two_interrupts waiting
      (refl, refl, (refl, refl, tt))

abbrev log_after : Answer BiocpWorld (Unit {0}) → List Effect
log_after (done a w) = w.log
log_after (thrown w) = w.log
log_after fault = []

life_of_two_threads_log :
    log_after (run calls life_of_two_threads waiting)
    ≡ release (conn_object 7)
      ∷ socket_closed 4
      ∷ closed_cb 7
      ∷ addref (conn_object 7)
      ∷ release (send_object 105)
      ∷ sent_cb 105 true
      ∷ sent_so_far 105 2
      ∷ submitted 105 0 2
      ∷ addref (send_object 105)
      ∷ addref (send_object 105)
      ∷ addref (conn_object 7)
      ∷ release (conn_object 7)
      ∷ addref (recv_object 103)
      ∷ addref (conn_object 7)
      ∷ connected_cb 7 7
      ∷ []
unfolding run Schedule.perform Loop.serve Loop.round Loop.transferred Loop.store Loop.handle
    Loop.handle_internal Loop.handle_popped Loop.handle_message Loop.handle_pointer
    Loop.handle_external Loop.on_connect Loop.find_conn Loop.on_close Loop.complete
    Transfer.send_request Transfer.after_first Transfer.keep_send Transfer.send_complete
    Transfer.end_send Transfer.callback Transfer.activate_receiving Transfer.new_recv
    Accept.connection_established Accept.establish Accept.mark_connected Accept.add_conn
    Accept.receive_or_close Close.close_connection Close.close_in_state Close.forget
    Close.close_socket Close.erase_first Close.free_completed_send Close.free_completed_conn
    Api.close_conn Api.send Api.post send_req_struct Messages.push_ptr Messages.pop
    Completion.get_transfer Completion.completed Completion.put Completion.stop OrderedMap.insert
    Wsa.del_event
life_of_two_threads_log = refl

two_parts_log :
    log_after (run calls two_parts waiting)
    ≡ release (send_object 11)
      ∷ sent_so_far 11 5
      ∷ release (send_object 11)
      ∷ sent_cb 11 true
      ∷ sent_so_far 11 5
      ∷ submitted 11 3 2
      ∷ sent_so_far 11 3
      ∷ []
unfolding run Schedule.perform Loop.serve Loop.round Loop.transferred Loop.store Loop.handle
    Loop.handle_internal Loop.handle_popped Loop.handle_message Loop.handle_pointer
    Loop.handle_external Loop.on_connect Loop.find_conn Loop.on_close Loop.complete
    Transfer.send_request Transfer.after_first Transfer.keep_send Transfer.send_complete
    Transfer.end_send Transfer.callback Transfer.activate_receiving Transfer.new_recv
    Accept.connection_established Accept.establish Accept.mark_connected Accept.add_conn
    Accept.receive_or_close Close.close_connection Close.close_in_state Close.forget
    Close.close_socket Close.erase_first Close.free_completed_send Close.free_completed_conn
    Api.close_conn Api.send Api.post send_req_struct Messages.push_ptr Messages.pop
    Completion.get_transfer Completion.completed Completion.put Completion.stop OrderedMap.insert
    Wsa.del_event
two_parts_log = refl
