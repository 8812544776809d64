-- ===== src/Dispatcher/Requests/Starting.antt =====
-- A request that `send` makes begins in accord with the log.
use tcp_fsm.Base.{
  ℕ, ◌^◌, ◌≡◌, ◌<◌, refl, List, [], ◌∷◌, ◌++◌, some, Bool, true, false, length, arith,
}
use tcp_fsm.Messages
use tcp_fsm.Platform.{Platform}
use tcp_fsm.World.{World, done}
use tcp_fsm.Dispatcher.Api.{send, post}
use tcp_fsm.Dispatcher.Requests.{Transcript, transcript, Accords}

-- Nothing is told of the request yet.
abbrev pub nothing_yet : Transcript
nothing_yet = record { at = 0; ended = false; in_order = true }

-- `send` returns the address of a new request, which is in accord with the log, of the size of the
-- buffer, when the log tells nothing of that address before; its message is the last in the queue. The
-- size is below 2^32.
pub send-Accords_new :
    (p : Platform) (h : ℕ) (bytes : List ℕ) (cb : Bool) (w : World)
    → length bytes < 2 ^ 32
    → transcript (p.new_object w.calls) (length bytes) w.log ≡ nothing_yet
    → (w' : World) × (send p h bytes cb w ≡ done (p.new_object w.calls) w')
      × Accords (p.new_object w.calls) (length bytes) w'
      × (w'.i_messages.messages
          ≡ w.i_messages.messages
            ++ record { code = Messages.send_request_code; ptr = some (p.new_object w.calls) } ∷ [])
unfolding send post transcript Messages.push_ptr
send-Accords_new p h bytes cb w l f = (_, refl, ground arith, refl)
