-- ===== src/Messages.antt =====
-- The queue of requests to the dispatcher's thread: internal_messages.h and internal_messages.cpp.
-- The mutex makes each call one step. A message without an argument holds the pointer that its
-- constructor left unset: `none` here.
pub mod Fifo
use tcp_fsm.Base.{ℕ, List, [], ◌∷◌, ◌++◌, Option, none, some, Bool, true, false, length}

abbrev pub close_connection_code : ℕ
close_connection_code = 1

abbrev pub create_connection_code : ℕ
create_connection_code = 2

abbrev pub send_request_code : ℕ
send_request_code = 3

abbrev pub stop_accepting_code : ℕ
stop_accepting_code = 6

abbrev pub close_connection_wait_code : ℕ
close_connection_wait_code = 7

abbrev pub break_send_code : ℕ
break_send_code = 8

abbrev pub do_nothing_code : ℕ
do_nothing_code = 9

abbrev pub exit_code : ℕ
exit_code = 10

abbrev pub external_code : ℕ
external_code = 11

pub record InternalMessage : Type 0 where
  pub code : ℕ
  pub ptr : Option ℕ

-- The std::queue, oldest first.
pub record InternalMessages : Type 0 where
  pub messages : List InternalMessage

unfoldable pub empty_queue : InternalMessages
empty_queue = record { messages = [] }

unfoldable pub push : ℕ → InternalMessages → InternalMessages
push code q = record { messages = q.messages ++ (record { code = code; ptr = none } ∷ []) }

unfoldable pub push_ptr : ℕ → ℕ → InternalMessages → InternalMessages
push_ptr code ptr q = record {
  messages = q.messages ++ (record { code = code; ptr = some ptr } ∷ []);
}

front_and_pop : List InternalMessage → Option (InternalMessage × InternalMessages)
front_and_pop [] = none
front_and_pop (m ∷ ms) = some (m, record { messages = ms })

-- `none` is the undefined `front()` of an empty queue.
unfoldable pub pop : InternalMessages → Option (InternalMessage × InternalMessages)
unfolding front_and_pop
pop q = front_and_pop q.messages

unfoldable pub size : InternalMessages → ℕ
size q = length q.messages

is_nil : List InternalMessage → Bool
is_nil [] = true
is_nil (m ∷ ms) = false

unfoldable pub empty : InternalMessages → Bool
unfolding is_nil
empty q = is_nil q.messages
