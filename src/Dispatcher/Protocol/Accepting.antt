-- ===== src/Dispatcher/Protocol/Accepting.antt =====
-- Accepting keeps the order of callbacks of the connections that are there: the allocator hands out
-- other addresses.
use tcp_fsm.Base.{ℕ, ◌+◌, ◌≢◌, ◌≤◌, Option, none, some, arith}
use tcp_fsm.Connection.{SockAddr}
use tcp_fsm.Platform.{Platform, AcceptResult, accept_done, accept_again, accept_failed}
use tcp_fsm.Monad.Post.{Keeps}
use tcp_fsm.Dispatcher.Protocol.{life, LawfulFrom, Unbroken}
use tcp_fsm.Dispatcher.Accept.{
  admit, admit_nonblocking, accept_result, accept_on, accept_connection,
}

-- From the call numbered `b` on the address `h` is not handed out.
abbrev pub NeverNew : Platform → ℕ → ℕ → Type 0
NeverNew p b h = (n : ℕ) → b ≤ n → p.new_object n ≢ h

module _ (p : Platform) (b h : ℕ) (kept : NeverNew p b h) where
  admit-Lawful :
      (sock : ℕ) (addr : SockAddr) → Keeps (LawfulFrom b h) (Unbroken h) (admit p sock addr)
  unfolding admit life
  admit-Lawful sock addr w l = ground (arith, kept w.calls l.1)

  accept_result-Lawful :
      (r : AcceptResult) → Keeps (LawfulFrom b h) (Unbroken h) (accept_result p r)
  unfolding accept_result admit_nonblocking life
  accept_result-Lawful (accept_done sock addr) w l =
      ground (arith, admit-Lawful sock addr (record w { calls = w.calls + 1 }) (ground arith))
  accept_result-Lawful accept_again w l = l
  accept_result-Lawful accept_failed w l = ground arith

  accept_on-Lawful : (o : Option ℕ) → Keeps (LawfulFrom b h) (Unbroken h) (accept_on p o)
  unfolding accept_on
  accept_on-Lawful none w l = ground arith
  accept_on-Lawful (some sock) w l =
      accept_result-Lawful (p.accept w.calls sock) (record w { calls = w.calls + 1 }) (ground arith)

  pub accept_connection-Lawful : Keeps (LawfulFrom b h) (Unbroken h) (accept_connection p)
  unfolding accept_connection
  accept_connection-Lawful w l = ground (arith, accept_on-Lawful w.listening_socket w l)
