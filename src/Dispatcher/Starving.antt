-- ===== src/Dispatcher/Starving.antt =====
-- Requests that the loop over the requests of a connection passes over and keeps.
use tcp_fsm.Base.{
  ℕ, ◌≡◌, refl, List, [], ◌∷◌, Option, none, some, false, All, ltb, sub32, arith, if◌then◌else◌,
}
use tcp_fsm.Base.OrderedMap
use tcp_fsm.Bandwidth
use tcp_fsm.Connection.{is_closed}
use tcp_fsm.Platform.{Platform}
use tcp_fsm.World.{World, done}
use tcp_fsm.Dispatcher.Transfer.{do_send, send_each, offered}

-- The connection of the request is not closed.
abbrev pub IsOpen : World → ℕ → Type 0
IsOpen w s = is_closed (w.conns (w.sends s).iov.conn).state ≡ false

do_send-nothing :
    (p : Platform) (s : ℕ) (guess : Option ℕ) (w : World)
    → IsOpen w s
    → offered (w.sends s) guess ≡ 0
    → do_send p s guess w ≡ done (false, guess) w
unfolding do_send
do_send-nothing p s guess w o e = ground arith

nothing_to_offer : (total sent : ℕ) → (if ltb 0 (sub32 total sent) then 0 else sub32 total sent) ≡ 0
nothing_to_offer total sent = ground arith

zero-send_each :
    (p : Platform) (ss : List ℕ) (w : World)
    → All (IsOpen w) ss
    → send_each p ss (some 0) w ≡ done ss w
unfolding send_each
zero-send_each p [] w o = refl
zero-send_each p (s ∷ ss) w o =
    let rest = zero-send_each p ss w o.1 in
    let stays = do_send-nothing p s (some 0) w o.0 (nothing_to_offer _ _) in
    ground (arith, rest, stays)

guess_unknown :
    (h : ℕ) (b : Bandwidth.Bwstop) → OrderedMap.find h b.states ≡ none → Bandwidth.guess h b ≡ 0
unfolding Bandwidth.guess
guess_unknown h b f = ground arith

-- A connection that the limiter does not know gets nothing: the loop over requests of open connections
-- with the limiter's guess for it, whatever they are, sends no byte and changes nothing.
pub guess-send_each :
    (p : Platform) (h : ℕ) (ss : List ℕ) (w : World)
    → OrderedMap.find h w.bws.states ≡ none
    → All (IsOpen w) ss
    → send_each p ss (some (Bandwidth.guess h w.bws)) w ≡ done ss w
guess-send_each p h ss w f o = rw (guess_unknown h w.bws f) (zero-send_each p ss w o)
