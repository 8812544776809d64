-- ===== src/Lifecycle.antt =====
-- The order of callbacks that itcp_dispatcher.h promises for a connection, as an automaton that reads
-- the log of any dispatcher, and what it has to do with the state of the connection.
pub mod Traces
use tcp_fsm.Base.{ℕ, List, [], ◌∷◌, Bool, true, false, not, ◌&&◌, ◌==◌, if◌then◌else◌}
use tcp_fsm.Connection.{ConnState, cs_wait4connect, cs_connected, cs_closed, Callbacks}
use tcp_fsm.Effects.{
  Effect, addref, release, connected_cb, closed_cb, read_cb, sent_cb, accepted_cb, transmitted,
  submitted, sent_so_far, socket_closed, watched,
}

-- Not connected yet, connected, closed after that, never connected; `broken` for a callback that
-- the interface excludes.
pub data Life : Type 0 where
  pending up over refused broken : Life

abbrev pub opens : Life → Life
opens pending = up
opens _ = broken

abbrev pub refuses : Life → Life
refuses pending = refused
refuses _ = broken

abbrev pub closes : Life → Life
closes up = over
closes _ = broken

-- Data may come until the connection is closed or refused.
abbrev pub reads : Life → Life
reads pending = pending
reads up = up
reads _ = broken

unfoldable pub advance : ℕ → Effect → Life → Life
advance h (connected_cb j x) l = if j == h then (if x == 0 then refuses l else opens l) else l
advance h (accepted_cb j) l = if j == h then opens l else l
advance h (closed_cb j) l = if j == h then closes l else l
advance h (read_cb j bytes) l = if j == h then reads l else l
advance h (sent_cb s b) l = l
advance h (addref o) l = l
advance h (release o) l = l
advance h (transmitted s i n) l = l
advance h (submitted s i n) l = l
advance h (sent_so_far s n) l = l
advance h (socket_closed s) l = l
advance h (watched j) l = l

-- The callbacks of the connection `h` so far.
unfoldable pub life : ℕ → List Effect → Life
unfolding advance
life h [] = pending
life h (e ∷ log) = advance h e (life h log)

-- The state says where the connection is in its life; a closed one has no callback left that could
-- be called, and only one that waits has `connected`.
abbrev pub agrees : ConnState → Life → Callbacks → Bool
agrees cs_wait4connect pending cbs = true
agrees cs_connected up cbs = not cbs.connected
agrees cs_closed over cbs = not cbs.connected && not cbs.read
agrees cs_closed refused cbs = not cbs.connected && not cbs.read
agrees _ _ cbs = false

abbrev pub not_broken : Life → Bool
not_broken broken = false
not_broken _ = true
