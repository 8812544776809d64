-- ===== src/Examples.antt =====
-- A small platform, a run of the dispatcher on it, and the theorems on runs at concrete inputs.
mod Limiter
mod Reactors
mod Starting
mod Waking
mod Win
mod Biocp
use tcp_fsm.Base.{
  Bool, ℕ, ◌+◌, ◌*◌, ◌/◌, ◌%◌, ◌^◌, ◌≤◌, ◌<◌, ◌≡◌, ◌≢◌, refl, ltb, List, [], ◌∷◌, ◌++◌, none, some,
  true, false, ◌==◌, if◌then◌else◌, arith, inl, inr, u32,
}
use tcp_fsm.Base.OrderedMap
use tcp_fsm.Messages
use tcp_fsm.Messages.{
  InternalMessage, InternalMessages, empty_queue, exit_code, create_connection_code,
  close_connection_code,
}
use tcp_fsm.Messages.Fifo.{drain, enqueue_all, drain-enqueue_all}
use tcp_fsm.Bandwidth.{
  Timeb, BwRecord, BwState, Bwstop, Double, Sweep, VirtualClock, turn, mod_of, measure_one, recalc,
  insert, on, off, erase, guess, can,
}
use tcp_fsm.Bandwidth.Measure.{fresh_bytes, all_fresh_bytes, Measured, recalc_measures}
use tcp_fsm.Bandwidth.Minimum.{recalc-ne-none}
use tcp_fsm.Bandwidth.Prune.{stale_count, measure_one_prunes}
use tcp_fsm.Bandwidth.States.{disabled_unchanged, state_of, insert_lem, erase_lem}
use tcp_fsm.Connection.{cs_wait4connect, SockAddr, TcpConn, SendReq}
use tcp_fsm.Platform.{Platform, connect_in_progress, accept_again, sent, SendsWithin, received}
use tcp_fsm.Reactor.{EpollEvent, ready, WaitResult}
use tcp_fsm.World.{
  World, Result, done, thrown, fault, Effect, connected_cb, closed_cb, sent_cb, transmitted,
  socket_closed, conn_object, recv_object, send_object, addref, release,
}
use tcp_fsm.Bandwidth
use tcp_fsm.Reactor
use tcp_fsm.Dispatcher.Api
use tcp_fsm.Dispatcher.Close
use tcp_fsm.Dispatcher.Transfer
use tcp_fsm.Dispatcher.Loop
use tcp_fsm.Dispatcher.Schedule
use tcp_fsm.Monad.Post.{Post}
use tcp_fsm.Dispatcher.Schedule.{Action, rounds, sends, closes, connects_new, run}
use tcp_fsm.Dispatcher.Protocol.{life, Lawful, Unbroken}
use tcp_fsm.Dispatcher.Protocol.Accepting.{NeverNew}
use tcp_fsm.Dispatcher.Requests.{transcript, Accords, InOrder}
use tcp_fsm.Dispatcher.Requests.Running.{run-Accords}

-- Whole numbers in place of `double`, with 0.1 and 0.5 as 1.
abbrev whole : Double
whole = record {
  D = ℕ;
  of_uint32 = λ n. n;
  add = λ a b. a + b;
  mul = λ a b. a * b;
  div = λ a b. a / b;
  tenth = 1;
  half = 1;
  to_int = λ n. n % 2 ^ 32;
  to_uint32 = λ n. n % 2 ^ 32;
}

abbrev nowhere : SockAddr
nowhere = record { ip = 0; port = 0 }

-- Every call succeeds; a socket takes at most three bytes at a time.
abbrev three_bytes : ℕ → ℕ
three_bytes size = if size == 0 then 0 else if size == 1 then 1 else if size == 2 then 2 else 3

abbrev quiet : Platform
quiet = record {
  double = whole;
  junk = 9;
  junk_addr = nowhere;
  ftime = λ n. record { time = 1000 + n; millitm = 0 };
  new_object = λ n. n + 100;
  throws = λ n. false;
  fill_callbacks = λ n. record { read = true; closed = true; connected = false };
  htons = λ n. n;
  pipe = λ n. some 3;
  pipe_room = 16384;
  epoll_create = λ n. true;
  create_thread = λ n. true;
  socket = λ n. some 5;
  set_nonblock = λ n sock. true;
  bind = λ n sock port. true;
  listen = λ n sock. true;
  connect = λ n sock addr. connect_in_progress;
  accept = λ n sock. accept_again;
  recv = λ n sock size. received (65 ∷ []);
  send = λ n sock size. sent (three_bytes size);
  close = λ n sock. true;
  epoll_add = λ n sock. true;
}

-- A connection that waits, at 7, with the socket 4 and the request 8 to receive.
abbrev waiting_conn : TcpConn
waiting_conn = record {
  sock = 4;
  addr = nowhere;
  cbs = record { read = true; closed = true; connected = true };
  recv = 8;
  guess = 0;
  close_sem = 0;
  checkbyte = 255;
  state = cs_wait4connect;
}

-- A request of five bytes for it, at 11.
abbrev five_bytes : SendReq
five_bytes = record {
  iov = record { sock = 4; code = 2; conn = 7 };
  break_sem = 0;
  total_bytes = 5;
  sent_bytes = 0;
  sent_cb = true;
  bytes = 1 ∷ 2 ∷ 3 ∷ 4 ∷ 5 ∷ [];
}

-- The request was sent; its message is in the queue, and a 0 is in the pipe.
abbrev before : World
before = record {
  conns = λ h. waiting_conn;
  recvs = λ r. record { iov = record { sock = 4; code = 1; conn = 7 }; size = 0; filled = [] };
  sends = λ s. five_bytes;
  listening_socket = none;
  accepted = false;
  i_messages = record { messages = record { code = 3; ptr = some 11 } ∷ [] };
  mr = record { threads = []; pipe_fd = 3; pipe = 0 ∷ []; room = 16384; lost = 0 };
  outgoings = [];
  bws = record { states = []; max_bw = 0; cur_bw = 0 };
  sockets_counter = 1;
  calls = 0;
  log = [];
}

abbrev woken : WaitResult
woken = ready (record { events = 1; user_data = 3 } ∷ [])

abbrev writable : WaitResult
writable = ready (record { events = 4; user_data = 7 } ∷ [])

-- The connection is made, the request goes out in two parts, and the connection is closed.
abbrev whole_life : List Action
whole_life =
    rounds 1 (woken ∷ [])
    ∷ rounds 1 (writable ∷ [])
    ∷ rounds 1 (writable ∷ [])
    ∷ rounds 1 (writable ∷ [])
    ∷ closes 7
    ∷ rounds 1 (woken ∷ [])
    ∷ []

abbrev log_after : Result Bool → List Effect
log_after (done a w) = w.log
log_after (thrown w) = w.log
log_after fault = []

whole_life_log :
    log_after (run quiet whole_life before)
    ≡ release (conn_object 7)
      ∷ release (conn_object 7)
      ∷ release (recv_object 8)
      ∷ socket_closed 4
      ∷ closed_cb 7
      ∷ addref (conn_object 7)
      ∷ release (send_object 11)
      ∷ sent_cb 11 true
      ∷ transmitted 11 3 2
      ∷ transmitted 11 0 3
      ∷ release (conn_object 7)
      ∷ connected_cb 7 7
      ∷ []
unfolding run Schedule.run_from Schedule.step Schedule.perform Loop.round Loop.serve Loop.handle_all
    Loop.handle_internal Loop.handle_message Loop.handle_pointer Loop.send_request Loop.enqueue_send
    Loop.handle_external Loop.handle_write Loop.on_writable Loop.send_conn Loop.on_close Loop.idle
    Loop.recalc Transfer.send_each Transfer.do_send Transfer.sent_or_not Transfer.account
    Transfer.pause Transfer.finish_send Transfer.callback Close.connection_established
    Close.establish Close.mark_connected Close.record_bandwidth Close.close_connection
    Close.close_in_state Close.forget Close.close_socket Close.finish_close Api.close_conn Api.post
    Messages.push_ptr Messages.pop Reactor.get_interrupt Reactor.translate_all Reactor.translate
    Reactor.code_of Reactor.read_pipe Reactor.stop OrderedMap.insert OrderedMap.find
    OrderedMap.modify OrderedMap.erase insert on off erase recalc Bandwidth.is_enable
whole_life_log = refl

quiet-NeverNew : (b h : ℕ) → h < 100 → NeverNew quiet b h
quiet-NeverNew b h l n le e = omega arith

quiet-SendsWithin : SendsWithin quiet
quiet-SendsWithin n sock size k e = ground arith

before-Lawful : Lawful 7 before
unfolding life
before-Lawful = refl

before-Accords : Accords 11 5 before
unfolding transcript
before-Accords = record {
  in_order = refl;
  at_sent = refl;
  within = omega arith;
  total_kept = refl;
  once = λ e. cc;
}

run-Accords_example : Post (Accords 11 5) (InOrder 11 5) (run quiet whole_life before)
run-Accords_example =
    run-Accords quiet 11 5 (omega arith) quiet-SendsWithin whole_life before
      (quiet-NeverNew 0 11 (omega arith)) before-Accords

abbrev two_messages : List InternalMessage
two_messages = record { code = 7; ptr = some 7 } ∷ record { code = 10; ptr = none } ∷ []

drain-enqueue_all_example :
    drain 3 (enqueue_all two_messages before.i_messages)
    ≡ record { code = 3; ptr = some 11 } ∷ two_messages
drain-enqueue_all_example = drain-enqueue_all two_messages before.i_messages
