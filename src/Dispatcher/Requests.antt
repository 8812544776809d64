-- ===== src/Dispatcher/Requests.antt =====
-- What becomes of a request to send, read from the log: the bytes that the socket took of it, from
-- which offset on, and the one call of its callback.
pub mod Sending
pub mod Running
pub mod Starting
use tcp_fsm.Base.{
  ℕ, ◌+◌, ◌≡◌, ◌≤◌, List, [], ◌∷◌, Bool, true, false, not, ◌&&◌, ◌||◌, ◌==◌, if◌then◌else◌,
}
use tcp_fsm.World.{
  Effect, addref, release, connected_cb, closed_cb, read_cb, sent_cb, accepted_cb, transmitted,
  submitted, sent_so_far, socket_closed, watched, World,
}

-- The next byte to send, whether the callback was called, and whether all was in order so far.
pub record Transcript : Type 0 where
  pub at : ℕ
  pub ended : Bool
  pub in_order : Bool

-- Some bytes went out: they must begin where the last ones ended.
abbrev pub send_bytes : ℕ → ℕ → Transcript → Transcript
send_bytes i n t = record t { at = t.at + n; in_order = t.in_order && t.at == i }

-- The callback was called: for the first time, and with `true` only where all bytes are out.
abbrev pub end_request : ℕ → Bool → Transcript → Transcript
end_request total value t = record t {
  ended = true;
  in_order = t.in_order && not t.ended && (not value || t.at == total);
}

unfoldable pub follow : ℕ → ℕ → Effect → Transcript → Transcript
follow s total (transmitted j i n) t = if j == s then send_bytes i n t else t
follow s total (sent_cb j value) t = if j == s then end_request total value t else t
follow s total (connected_cb j x) t = t
follow s total (accepted_cb j) t = t
follow s total (closed_cb j) t = t
follow s total (read_cb j bytes) t = t
follow s total (addref o) t = t
follow s total (release o) t = t
follow s total (submitted j i n) t = t
follow s total (sent_so_far j n) t = t
follow s total (socket_closed x) t = t
follow s total (watched j) t = t

unfoldable pub transcript : ℕ → ℕ → List Effect → Transcript
unfolding follow
transcript s total [] = record { at = 0; ended = false; in_order = true }
transcript s total (e ∷ log) = follow s total e (transcript s total log)

-- The request agrees with what the log tells of it.
pub record Accords (s total : ℕ) (w : World) : Type 0 where
  pub in_order : (transcript s total w.log).in_order ≡ true
  pub at_sent : (transcript s total w.log).at ≡ (w.sends s).sent_bytes
  pub within : (w.sends s).sent_bytes ≤ total
  pub total_kept : (w.sends s).total_bytes ≡ total
  pub once : (transcript s total w.log).ended ≡ true → (w.sends s).sent_cb ≡ false

-- The same of a state that at least `b` calls of the platform have led to.
abbrev pub AccordsFrom : ℕ → ℕ → ℕ → World → Type 0
AccordsFrom b s total w = Accords s total w × (b ≤ w.calls)

abbrev pub InOrder : ℕ → ℕ → World → Type 0
InOrder s total w = (transcript s total w.log).in_order ≡ true
