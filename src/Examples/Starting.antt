-- ===== src/Examples/Starting.antt =====
-- The theorems on the operations of the dispatcher at concrete inputs.
use tcp_fsm.Base.{ℕ, ◌≡◌, refl, [], ◌∷◌, ◌++◌, none, some, true, ◌==◌, if◌then◌else◌, arith}
use tcp_fsm.Platform.{Platform, accept_again}
use tcp_fsm.World.{World, Result, done, thrown, fault}
use tcp_fsm.Monad.Post.{Post}
use tcp_fsm.Dispatcher.Schedule.{run}
use tcp_fsm.Dispatcher.Requests.{transcript, Accords}
use tcp_fsm.Connection.{Callbacks, cs_closed}
use tcp_fsm.Platform.{accept_done}
use tcp_fsm.Examples.{nowhere, quiet, before, whole_life}
use tcp_fsm.Base.OrderedMap
use tcp_fsm.Bandwidth
use tcp_fsm.Dispatcher.Starving.{guess-send_each}
use tcp_fsm.Base.{Bool}
use tcp_fsm.Messages
use tcp_fsm.Messages.{InternalMessage}
use tcp_fsm.Dispatcher.Loop
use tcp_fsm.Dispatcher.Transfer
use tcp_fsm.Dispatcher.Loop.{handle_internal}
use tcp_fsm.Dispatcher.Api.{can_return_close}
use tcp_fsm.Dispatcher.Reading.{After, handle_read_lem}
use tcp_fsm.Dispatcher.Loop.{handle_read}
use tcp_fsm.Platform.{received}
use tcp_fsm.Dispatcher.Start.{construct}
use tcp_fsm.Dispatcher.Start.Outcomes.{Listens, Outcome, construct_lem}
use tcp_fsm.Dispatcher.Api.{send}
use tcp_fsm.Dispatcher.Close.{close_connection}
use tcp_fsm.Dispatcher.Transfer.{send_each}
use tcp_fsm.Dispatcher.Accept.{accept_all}
use tcp_fsm.Dispatcher.Accept.Draining.{NoneLeft, Ends, accept_all-Ends}
use tcp_fsm.Lifecycle.Traces.{Traced, TracedAt}
use tcp_fsm.Dispatcher.Api.{connect_new}
use tcp_fsm.Dispatcher.Schedule.{closes}
use tcp_fsm.Dispatcher.Protocol.{life, pending}
use tcp_fsm.Dispatcher.Protocol.Starting.{connect_new-Trace}
use tcp_fsm.Dispatcher.Requests.Starting.{send-Accords_new}
use tcp_fsm.Dispatcher.Stopping.{accepted_calls, Refuses, CallsStay, after_stop, stop-Refuses}
use tcp_fsm.Dispatcher.Closing.{
  close_connection-twice, close_connection-send_each, handle_internal-close_wait,
}

construct_lem_example :
    (ec : ℕ) × (sock : ℕ) × Outcome
      (Listens quiet 80 0)
      true
      before.log
      ec
      sock
      (construct quiet 80 true before)
construct_lem_example = construct_lem quiet 80 true before (λ e. omega (arith, e))

send-Accords_new_example :
    (w' : World) × (send quiet 7 (1 ∷ 2 ∷ []) true before ≡ done 100 w')
    × Accords 100 2 w'
    × (w'.i_messages.messages
        ≡ before.i_messages.messages ++ record { code = 3; ptr = some 100 } ∷ [])
unfolding transcript
send-Accords_new_example = send-Accords_new quiet 7 (1 ∷ 2 ∷ []) true before (omega arith) refl

abbrev all_callbacks : Callbacks
all_callbacks = record { read = true; closed = true; connected = true }

-- The dispatcher accepts at the socket 6.
abbrev accepting : World
accepting = record before { listening_socket = some 6; accepted = true }

abbrev stop_message : InternalMessage
stop_message = record { code = 6; ptr = none }

stop-Refuses_example :
    Post
      (Refuses quiet (accepted_calls accepting.log))
      (CallsStay (accepted_calls accepting.log))
      (after_stop quiet stop_message whole_life accepting)
stop-Refuses_example = stop-Refuses quiet stop_message whole_life accepting refl

-- One connection comes, and no other.
abbrev one_comes : Platform
one_comes = record quiet {
  accept = λ n sock. if n == 0 then accept_done 5 nowhere else accept_again;
}

one_comes-NoneLeft : NoneLeft one_comes 1
one_comes-NoneLeft n sock s a l e = ground arith

accept_all-Ends_example : Ends (accept_all one_comes 2 accepting)
accept_all-Ends_example =
    accept_all-Ends one_comes 1 one_comes-NoneLeft 2 accepting (omega arith) (omega arith)

closed_world : World
closed_world = world_after (close_connection quiet 7 before)
  where
    world_after : Result (Unit {0}) → World
    world_after (done a w) = w
    world_after (thrown w) = w
    world_after fault = before

before_closes : close_connection quiet 7 before ≡ done tt closed_world
unfolding close_connection closed_world
before_closes = refl

close_connection-twice_example :
    ((closed_world.conns 7).state ≡ cs_closed)
    × (close_connection quiet 7 closed_world ≡ done tt closed_world)
close_connection-twice_example = close_connection-twice quiet 7 before closed_world before_closes

request_stays : (closed_world.sends 11).iov.conn ≡ 7
unfolding closed_world close_connection
request_stays = refl

close_connection-send_each_example :
    send_each quiet (11 ∷ 12 ∷ []) none closed_world ≡ done (12 ∷ []) closed_world
close_connection-send_each_example =
    close_connection-send_each quiet 7 11 (12 ∷ []) none before closed_world before_closes
      request_stays

-- A limiter that knows no connection.
abbrev limited : World
limited = record before { bws = record { states = []; max_bw = 100; cur_bw = 0 } }

guess-send_each_example :
    send_each quiet (11 ∷ 12 ∷ []) (some (Bandwidth.guess 7 limited.bws)) limited
    ≡ done (11 ∷ 12 ∷ []) limited
unfolding OrderedMap.find
guess-send_each_example = guess-send_each quiet 7 (11 ∷ 12 ∷ []) limited refl (refl, (refl, tt))

-- close_conn_wait was called for the connection.
abbrev close_waits : World
close_waits = record before {
  i_messages = record { messages = record { code = 7; ptr = some 7 } ∷ [] };
}

wait_over : World
wait_over = world_after (handle_internal quiet close_waits)
  where
    world_after : Result Bool → World
    world_after (done b w) = w
    world_after (thrown w) = w
    world_after fault = before

wait_handled : handle_internal quiet close_waits ≡ done true wait_over
unfolding Loop.handle_internal wait_over Loop.handle_message Loop.handle_pointer Loop.on_close_wait
    close_connection Messages.pop
wait_handled = refl

handle_internal-close_wait_example :
    ((wait_over.conns 7).state ≡ cs_closed)
    × (can_return_close 7 wait_over ≡ true)
    × (wait_over.i_messages.messages ≡ [])
    × (true ≡ true)
handle_internal-close_wait_example =
    handle_internal-close_wait quiet 7 [] close_waits wait_over true refl wait_handled

one_byte : World
one_byte = world_after (handle_read quiet 1 7 before)
  where
    world_after : Result (Unit {0}) → World
    world_after (done b w) = w
    world_after (thrown w) = w
    world_after fault = before

one_byte_read : handle_read quiet 1 7 before ≡ done tt one_byte
unfolding handle_read one_byte Transfer.do_recv Transfer.receive Transfer.deliver
one_byte_read = refl

handle_read_lem_example : After quiet 7 before (received (65 ∷ [])) one_byte
handle_read_lem_example =
    handle_read_lem quiet 7 (received (65 ∷ [])) 1 before one_byte
      (refl, (λ e. omega (arith, e)), refl) refl one_byte_read

abbrev world_after : World → Result ℕ → World
world_after otherwise (done h v) = v
world_after otherwise (thrown v) = otherwise
world_after otherwise fault = otherwise

-- The connection to 127.0.0.1 that is opened first.
abbrev opened : World
opened = world_after before (connect_new quiet 2130706433 80 all_callbacks before)

before-unused : (n : ℕ) → life (quiet.new_object n) before.log ≡ pending
unfolding life
before-unused n = refl

connect_new-Trace_example :
    Post
      (λ u. TracedAt 103 u.log (u.conns 103).state (u.conns 103).cbs)
      (λ u. Traced 103 u.log)
      (run quiet (closes 103 ∷ whole_life) opened)
unfolding connect_new
connect_new-Trace_example =
    connect_new-Trace quiet before before-unused 103 (λ e. omega (arith, e)) opened
      (λ n le e. ground arith) 2130706433 80 all_callbacks refl (closes 103 ∷ whole_life)
      (tt, (tt, (tt, (tt, (tt, (tt, (tt, tt)))))))
