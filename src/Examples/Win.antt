-- ===== src/Examples/Win.antt =====
-- Windows with calls that succeed, a run of win_tcp_dispatcher on it, and the theorems on it at
-- concrete inputs.
use tcp_fsm.Base.{ℕ, ◌+◌, ◌≡◌, ◌≢◌, ◌<◌, refl, List, [], ◌∷◌, none, some, true, false, arith}
use tcp_fsm.Completion
use tcp_fsm.Completion.{Packet}
use tcp_fsm.Effects.{
  Effect, conn_object, recv_object, send_object, overlap_object, addref, release, connected_cb,
  closed_cb, sent_cb, submitted, transmitted, socket_closed,
}
use tcp_fsm.Messages
use tcp_fsm.Messages.{exit_code}
use tcp_fsm.Monad.{Answer, done, thrown, fault}
use tcp_fsm.Monad.Post.{Post}
use tcp_fsm.Examples.{
  whole, nowhere, waiting_conn, five_bytes, before, quiet, quiet-NeverNew, whole_life,
  before-Lawful,
}
use tcp_fsm.Dispatcher.Schedule as Posix
use tcp_fsm.Dispatcher.Protocol.Running.{run-Trace}
use tcp_fsm.Lifecycle.Traces.{Traced, TracedAt}
use tcp_fsm.Win.State.{Windows, WinWorld, io_pending}
use tcp_fsm.Win.Close.{free_completed_send}
use tcp_fsm.Win.Transfer.{keep_send, posted_length}
use tcp_fsm.Win.Api
use tcp_fsm.Win.Loop
use tcp_fsm.Win.Accept
use tcp_fsm.Win.Close
use tcp_fsm.Win.Transfer
use tcp_fsm.Win.Schedule
use tcp_fsm.Bandwidth
use tcp_fsm.Base.OrderedMap
use tcp_fsm.Win.Api.{construct}
use tcp_fsm.Win.Loop.{of_connect, of_recv, of_send, serve}
use tcp_fsm.Win.Schedule.{Action, serves, closes, run}
use tcp_fsm.Win.Protocol.{life}
use tcp_fsm.Win.Protocol.Running.{Followed, serves-Trace}
use tcp_fsm.Win.Requests.{report_on, Answered}
use tcp_fsm.Win.Requests.Running.{run-Answered}
use tcp_fsm.Win.Pending.{serve-exit}
use tcp_fsm.Win.Outcomes.{Listens, Constructed, construct-outcome}

abbrev windows : Windows
windows = record {
  double = whole;
  junk = 9;
  junk_addr = nowhere;
  ftime = λ n. record { time = 1000 + n; millitm = 0 };
  new_object = λ n. n + 100;
  throws = λ n. false;
  fill_callbacks = λ n. record { read = true; closed = true; connected = false };
  htons = λ n. n;
  wsa_socket = λ n. some 5;
  bind = λ n sock port. true;
  listen = λ n sock. true;
  set_nonblock = λ n sock. true;
  create_port = λ n. true;
  add_socket = λ n sock. true;
  create_thread = λ n. true;
  load_accept_ex = λ n. true;
  load_connect_ex = λ n. true;
  connect_ex = λ n sock addr. io_pending;
  accept_ex = λ n listening sock. io_pending;
  peer = λ n. nowhere;
  filled = λ n size. [];
  wsa_recv = λ n sock. io_pending;
  wsa_send = λ n sock size. io_pending;
}

-- The connection 7 waits for ConnectEx, and the message to send the request 11 is in the queue.
abbrev connecting : WinWorld
connecting = record {
  conn_at = λ h. waiting_conn;
  recv_at = λ r. record { iov = record { sock = 4; code = 1; conn = 7 }; size = 0; filled = [] };
  send_at = λ s. five_bytes;
  overlap_at = λ o. record { sock = 4; code = 16; conn = 7 };
  accept_at = λ a. record { sock = 6; code = 8; conn = 0 };
  listening_socket = 5;
  accepted = true;
  accept_ex_loaded = true;
  connect_ex_loaded = true;
  stop_accepting_sem = 0;
  cp_r = record { threads = []; posted = [] };
  i_messages = record { messages = record { code = 3; ptr = some 11 } ∷ [] };
  bws = record { states = []; max_bw = 0; cur_bw = 0 };
  transfered_bytes = 0;
  overlaps = 9 ∷ [];
  accepts = [];
  conns = 7 ∷ [];
  recvs = [];
  sends = [];
  running = true;
  calls = 0;
  log = [];
}

abbrev packet : ℕ → ℕ → Packet
packet size overlap = record {
  succeeded = true;
  timed_out = false;
  error = 0;
  size = size;
  overlap = overlap;
}

-- The connection is made, the request is posted and completes, and the connection is closed.
abbrev life_on_windows : List Action
life_on_windows =
    serves (packet 0 9) (of_connect 9)
    ∷ serves (packet 0 0) (of_recv 0)
    ∷ serves (packet 5 11) (of_send 11)
    ∷ closes 7
    ∷ serves (packet 0 0) (of_recv 0)
    ∷ []

windows-NeverNew : (h : ℕ) → h < 100 → (n : ℕ) → windows.new_object n ≢ h
windows-NeverNew h l n e = omega arith

serves-Trace_example : Post (Followed 7) (Followed 7) (run windows life_on_windows connecting)
unfolding life
serves-Trace_example =
    serves-Trace windows 7 (λ e. omega (arith, e)) (windows-NeverNew 7 (omega arith))
      life_on_windows (tt, (tt, (tt, (tt, (tt, tt))))) connecting ((λ e. refl), refl)

connecting-Answered : Answered 11 5 connecting
unfolding report_on
connecting-Answered = record {
  running = λ e. record { honest = refl; reached_sent = refl; total_kept = refl; once = λ f. cc };
  honest = refl;
}

run-Answered_example : Post (Answered 11 5) (Answered 11 5) (run windows life_on_windows connecting)
run-Answered_example =
    run-Answered windows 11 5 (windows-NeverNew 11 (omega arith)) life_on_windows connecting
      connecting-Answered

-- The thread is told to end while a ConnectEx is pending.
abbrev leaving : WinWorld
leaving = record connecting {
  i_messages = record { messages = record { code = exit_code; ptr = none } ∷ [] };
}

serve-exit_example :
    serve windows (packet 0 0) (of_recv 0) leaving
    ≡ done tt (record leaving {
      overlaps = [];
      accepts = [];
      conns = [];
      recvs = [];
      sends = [];
      transfered_bytes = 0;
      i_messages = record { messages = [] };
      running = false;
      log = release (conn_object 7) ∷ release (overlap_object 9) ∷ [];
    })
unfolding Messages.pop
serve-exit_example =
    serve-exit windows (packet 0 0) (of_recv 0) leaving none (record { messages = [] }) refl refl
      refl refl

construct-outcome_example :
    (a : ℕ) × (sock : ℕ) × Constructed
      (Listens windows 80 0)
      true
      []
      a
      sock
      (construct windows 80 true connecting)
construct-outcome_example =
    construct-outcome windows 80 true connecting (λ e. omega (arith, e)) (λ n e. ground arith)
      λ n. refl

run-Trace_example :
    Post
      (λ v. TracedAt 7 v.log (v.conns 7).state (v.conns 7).cbs)
      (λ v. Traced 7 v.log)
      (Posix.run quiet whole_life before)
run-Trace_example =
    run-Trace quiet 7 (λ e. omega (arith, e)) whole_life (tt, (tt, (tt, (tt, (tt, (tt, tt))))))
      before before-Lawful (quiet-NeverNew 0 7 (omega arith))

abbrev log_after : Answer WinWorld (Unit {0}) → List Effect
log_after (done a w) = w.log
log_after (thrown w) = w.log
log_after fault = []

life_on_windows_log :
    log_after (run windows life_on_windows connecting)
    ≡ release (conn_object 7)
      ∷ socket_closed 4
      ∷ closed_cb 7
      ∷ addref (conn_object 7)
      ∷ release (send_object 11)
      ∷ sent_cb 11 true
      ∷ transmitted 11 0 5
      ∷ submitted 11 0 5
      ∷ release (conn_object 7)
      ∷ release (overlap_object 9)
      ∷ addref (recv_object 102)
      ∷ addref (conn_object 7)
      ∷ connected_cb 7 7
      ∷ []
unfolding run Schedule.perform Loop.serve Loop.round Loop.handle Loop.handle_internal
    Loop.handle_popped Loop.handle_message Loop.handle_pointer Loop.complete Loop.close
    Transfer.send_request Transfer.do_send Transfer.after_post keep_send Transfer.complete_send
    Transfer.record_bandwidth Transfer.callback Transfer.activate_receiving Transfer.new_recv
    Accept.complete_connect Accept.establish Accept.start_receiving Accept.mark_connected
    Accept.receive_or_close Close.close_connection Close.close_in_state Close.forget
    Close.close_socket Close.free_both Close.erase_first free_completed_send
    Close.free_completed_conn Close.free_completed_overlap Api.close_conn Api.post Messages.push_ptr
    Messages.pop Completion.get_plain_transfer Completion.stop OrderedMap.insert Bandwidth.is_enable
    Bandwidth.on Bandwidth.off Bandwidth.insert Bandwidth.erase
life_on_windows_log = refl
