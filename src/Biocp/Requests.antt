-- ===== src/Biocp/Requests.antt =====
-- What becomes of a request to send of tcp_dispatcher_biocp, read from the log: what the last completion
-- said of its bytes, and the one call of its callback.
pub mod Handling
pub mod Accepting
pub mod Calling
pub mod Running
use tcp_fsm.Base.{
  ℕ, ◌≡◌, List, [], ◌∷◌, Bool, true, false, not, ◌&&◌, ◌||◌, ◌==◌, ltb, if◌then◌else◌,
}
use tcp_fsm.Effects.{
  Effect, addref, release, connected_cb, closed_cb, read_cb, sent_cb, accepted_cb, transmitted,
  submitted, sent_so_far, socket_closed, watched,
}
use tcp_fsm.Biocp.State.{BiocpWorld}

-- The `sent_bytes` at the last completion, whether the callback was called, and whether each call so
-- far was the first, and with `true` only when the completion had come to the end.
pub record Report : Type 0 where
  pub reached : ℕ
  pub told : Bool
  pub honest : Bool

abbrev pub tell : ℕ → Bool → Report → Report
tell total value t = record t {
  told = true;
  honest = t.honest && not t.told && (not value || not (ltb t.reached total));
}

unfoldable pub note : ℕ → ℕ → Effect → Report → Report
note s total (sent_so_far j n) t = if j == s then record t { reached = n } else t
note s total (sent_cb j value) t = if j == s then tell total value t else t
note s total (transmitted j i n) t = t
note s total (connected_cb j x) t = t
note s total (accepted_cb j) t = t
note s total (closed_cb j) t = t
note s total (read_cb j bytes) t = t
note s total (addref o) t = t
note s total (release o) t = t
note s total (submitted j i n) t = t
note s total (socket_closed x) t = t
note s total (watched j) t = t

unfoldable pub report_on : ℕ → ℕ → List Effect → Report
unfolding note
report_on s total [] = record { reached = 0; told = false; honest = true }
report_on s total (e ∷ log) = note s total e (report_on s total log)

-- The request agrees with what the log tells of it.
pub record Reported (s total : ℕ) (w : BiocpWorld) : Type 0 where
  pub honest : (report_on s total w.log).honest ≡ true
  pub total_kept : (w.send_at s).total_bytes ≡ total
  pub once : (report_on s total w.log).told ≡ true → (w.send_at s).sent_cb ≡ false

abbrev pub Honest : ℕ → ℕ → BiocpWorld → Type 0
Honest s total w = (report_on s total w.log).honest ≡ true

-- While the thread is in its loop, the request agrees with the log.
pub record Answered (s total : ℕ) (w : BiocpWorld) : Type 0 where
  pub running : w.running ≡ true → Reported s total w
  pub honest : Honest s total w
