-- ===== src/Reactor/Pending.antt =====
-- How many of the numbers in the pipe one wait of linux_reactor takes out, and what it reports then.
use native.Mathlib.Nat.{add-zero, zero-add, add_assoc}
use tcp_fsm.Base.{
  ℕ, ◌+◌, ◌≤◌, ◌%◌, ◌^◌, ◌≡◌, ◌≢◌, refl, List, [], ◌∷◌, ◌==◌, if◌then◌else◌, arith, inl, inr,
  Bool-cases, All, length,
}
use tcp_fsm.Base.OrderedMap
use tcp_fsm.Reactor.{
  InterruptInfo, EpollEvent, LinuxReactor, WaitResult, ready, interrupted, wait_failed, read_pipe,
  no_info, translate, translate_all,
}
use tcp_fsm.Reactor.Waking.{Zeros}

-- How many of the events are of the pipe.
abbrev pub wake : ℕ → EpollEvent → ℕ
wake fd e = if e.user_data % 2 ^ 32 == fd then 1 else 0

abbrev pub wakes : ℕ → List EpollEvent → ℕ
wakes fd [] = 0
wakes fd (e ∷ es) = wake fd e + wakes fd es

-- Documented of epoll: a descriptor is in the events of a wait at most once.
abbrev pub IsOnce : ℕ → WaitResult → Type 0
IsOnce fd (ready es) = wakes fd es ≤ 1
IsOnce fd interrupted = Unit {0}
IsOnce fd wait_failed = Unit {0}

-- The first interrupt is the internal one.
abbrev pub Wakes : List (ℕ × InterruptInfo) → Type 0
Wakes [] = ⊥
Wakes ((sock, info) ∷ rest) = sock ≡ 0

insert-Wakes :
    (k : ℕ) (v : InterruptInfo) (m : List (ℕ × InterruptInfo))
    → Wakes m
    → Wakes (OrderedMap.insert k v m)
unfolding OrderedMap.insert
insert-Wakes k v [] h = absurd h
insert-Wakes k v ((j, w) ∷ m) h = ground arith

insert_zero-Wakes :
    (v : InterruptInfo) (m : List (ℕ × InterruptInfo)) → Wakes (OrderedMap.insert 0 v m)
unfolding OrderedMap.insert
insert_zero-Wakes v [] = refl
insert_zero-Wakes v ((j, w) ∷ m) = ground arith

-- What the events leave of the pipe, and whether the thread is told to look at its messages.
pub record Polled (k : ℕ) (r : LinuxReactor) (s : LinuxReactor × List (ℕ × InterruptInfo))
    : Type 0 where
  pub zeros : Zeros s.0
  pub same_fd : s.0.pipe_fd ≡ r.pipe_fd
  pub same_threads : s.0.threads ≡ r.threads
  pub same_lost : s.0.lost ≡ r.lost
  pub bound : length r.pipe ≤ length s.0.pipe + k
  pub told : k ≢ 0 → Wakes s.1

read_pipe_lem :
    (ns : List ℕ)
    → All (λ n. n ≡ 0) ns
    → ((read_pipe ns).0 ≡ 0)
      × All (λ n. n ≡ 0) (read_pipe ns).1
      × (length ns ≤ length (read_pipe ns).1 + 1)
unfolding read_pipe
read_pipe_lem [] z = (refl, tt, omega arith)
read_pipe_lem (n ∷ ns) z = (z.0, z.1, omega arith)

translate-Polled :
    (sock_of : ℕ → ℕ) (e : EpollEvent) (k : ℕ) (r : LinuxReactor)
    (s : LinuxReactor × List (ℕ × InterruptInfo))
    → Polled k r s
    → Polled (k + wake r.pipe_fd e) r (translate sock_of e s)
unfolding translate
translate-Polled sock_of e k r s l = elim (Bool-cases (e.user_data % 2 ^ 32 == s.0.pipe_fd)) [
  | inl wake ↦
      let (zero_read, zeros, shorter) = read_pipe_lem s.0.pipe l.zeros in
      rw wake (record {
        zeros = zeros;
        same_fd = l.same_fd;
        same_threads = l.same_threads;
        same_lost = l.same_lost;
        bound = ground (arith, l.bound, l.same_fd, shorter);
        told = λ n. rw zero_read (insert_zero-Wakes no_info s.1);
      })
  | inr other ↦ rw other (record {
    zeros = l.zeros;
    same_fd = l.same_fd;
    same_threads = l.same_threads;
    same_lost = l.same_lost;
    bound = ground (arith, l.bound);
    told = λ n. insert-Wakes _ _ s.1 (l.told (ground (arith, l.same_fd)));
  })
]

translate_all-Polled :
    (sock_of : ℕ → ℕ) (es : List EpollEvent) (k : ℕ) (r : LinuxReactor)
    (s : LinuxReactor × List (ℕ × InterruptInfo))
    → Polled k r s
    → Polled (k + wakes r.pipe_fd es) r (translate_all sock_of es s)
unfolding translate_all
translate_all-Polled sock_of [] k r s l = rw (add-zero k) l
translate_all-Polled sock_of (e ∷ es) k r s l =
    let here = translate-Polled sock_of e k r s l in
    rw (← add_assoc k (wake r.pipe_fd e) (wakes r.pipe_fd es))
      (translate_all-Polled sock_of es (k + wake r.pipe_fd e) r (translate sock_of e s) here)

-- A wait whose events have the pipe at most once takes at most one number out of it, and then the first
-- interrupt is the internal one. The pipe holds only zeros.
pub wait-Polled :
    (sock_of : ℕ → ℕ) (es : List EpollEvent) (r : LinuxReactor)
    → Zeros r
    → Polled (wakes r.pipe_fd es) r (translate_all sock_of es (r, []))
wait-Polled sock_of es r z = rw (zero-add (wakes r.pipe_fd es)) at (
    translate_all-Polled sock_of es 0 r (r, [])
      (record {
        zeros = z;
        same_fd = refl;
        same_threads = refl;
        same_lost = refl;
        bound = omega arith;
        told = λ n. absurd (n refl);
      }))
