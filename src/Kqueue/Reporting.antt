-- ===== src/Kqueue/Reporting.antt =====
-- Which of the events of kqueue its reactor reports, and which sockets it goes on watching.
use tcp_fsm.Base.{
  ℕ, ◌≡◌, ◌⊎◌, refl, List, [], ◌∷◌, some, none, Bool, true, false, not, ◌&&◌, ◌||◌, ◌==◌,
  if◌then◌else◌, arith, inl, inr, Bool-cases, All,
}
use tcp_fsm.Reactor.{read_pipe}
use tcp_fsm.Kqueue.{
  Change, added, deleted, Kernel, FbsdReactor, Kevent, Result, returns, throws, take_event,
  take_events, take_pipe, take_socket, put_socket, is_nil, and_then, get_interrupt, who,
}

-- Whether the last change of a descriptor was that it was added.
abbrev pub is_watched : ℕ → List Change → Bool
is_watched s [] = false
is_watched s (added t ∷ cs) = if t == s then true else is_watched s cs
is_watched s (deleted t ∷ cs) = if t == s then false else is_watched s cs

-- Whether one of the events is of the descriptor.
abbrev pub has_event : ℕ → List Kevent → Bool
has_event s [] = false
has_event s (e ∷ es) = e.ident == s || has_event s es

-- What is watched after the events: their sockets no more, and all else as before.
abbrev pub still_watched : ℕ → ℕ → List Kevent → List Change → Bool
still_watched fd s es cs = if has_event s es && not (s == fd) then false else is_watched s cs

-- The socket of an event, 0 for the pipe.
abbrev pub socket_of : ℕ → Kevent → ℕ
socket_of fd e = if e.ident == fd then 0 else e.ident

abbrev pub Zeros : FbsdReactor → Type 0
Zeros r = All (λ n. n ≡ 0) r.pipe

-- What one event leaves behind.
abbrev Taken : Kevent → FbsdReactor → FbsdReactor → Type 0
Taken e r r' =
    (who r' ≡ socket_of r.pipe_fds.0 e)
    × Zeros r'
    × (r'.pipe_fds.0 ≡ r.pipe_fds.0)
    × ((s : ℕ) → is_watched s r'.changes ≡ still_watched r.pipe_fds.0 s (e ∷ []) r.changes)

-- A property of what a call returns; of one that throws nothing is said.
abbrev pub Returned : {A : Type 0} → (A → FbsdReactor → Type 0) → Result A → Type 0
Returned P (returns a r) = P a r
Returned P (throws r) = Unit {0}

take_pipe-Taken :
    (e : Kevent) (r : FbsdReactor) (ns : List ℕ)
    → r.pipe ≡ ns
    → Zeros r
    → e.ident ≡ r.pipe_fds.0
    → Taken e r (take_pipe r)
unfolding read_pipe who
take_pipe-Taken e r [] m z h = ground arith
take_pipe-Taken e r (n ∷ ns) m z h = ground arith

take_event-Taken :
    (k : Kernel) (e : Kevent) (r : FbsdReactor)
    → Zeros r
    → Returned (λ _. Taken e r) (take_event k e r)
unfolding take_event who
take_event-Taken k e r z = elim (Bool-cases (e.ident == r.pipe_fds.0)) [
  | inl wake ↦ rw wake (take_pipe-Taken e r r.pipe refl z (ground arith))
  | inr other ↦ ground arith
]

-- The socket of the last of the events.
abbrev pub last_socket : ℕ → ℕ → List Kevent → ℕ
last_socket fd s [] = s
last_socket fd s (e ∷ es) = last_socket fd (socket_of fd e) es

abbrev pub Reports : List Kevent → FbsdReactor → FbsdReactor → Type 0
Reports es r r' =
    (who r' ≡ last_socket r.pipe_fds.0 (who r) es)
    × ((s : ℕ) → is_watched s r'.changes ≡ still_watched r.pipe_fds.0 s es r.changes)

Reports-cons :
    (e : Kevent) (es : List Kevent) (r r' r'' : FbsdReactor)
    → Taken e r r'
    → Reports es r' r''
    → Reports (e ∷ es) r r''
unfolding who
Reports-cons e es r r' r'' (at, z, same, kept) (last, rest) =
    (rw (last, ← at, same) refl, λ s. ground (arith, rest s, kept s))

Returned-mono :
    {A : Type 0} {P Q : A → FbsdReactor → Type 0} (x : Result A)
    → ((a : A) (r : FbsdReactor) → P a r → Q a r)
    → Returned P x
    → Returned Q x
Returned-mono (returns a r) f h = f a r h
Returned-mono (throws r) f h = tt

and_then-Returned :
    {A B : Type 0} (P : A → FbsdReactor → Type 0) (Q : B → FbsdReactor → Type 0) (x : Result A)
    (f : A → FbsdReactor → Result B)
    → Returned P x
    → ((a : A) (r : FbsdReactor) → P a r → Returned Q (f a r))
    → Returned Q (and_then x f)
and_then-Returned P Q (returns a r) f h k = k a r h
and_then-Returned P Q (throws r) f h k = tt

take_events-Reports :
    (k : Kernel) (es : List Kevent) (r : FbsdReactor)
    → Zeros r
    → Returned (λ _. Reports es r) (take_events k es r)
unfolding take_events
take_events-Reports k [] r z = (refl, λ s. refl)
take_events-Reports k (e ∷ es) r z =
    and_then-Returned (λ _. Taken e r) (λ _. Reports (e ∷ es) r) (take_event k e r)
      (λ _ r'. take_events k es r') (take_event-Taken k e r z)
      λ _ r' t.
        Returned-mono (take_events k es r') (λ _ r''. Reports-cons e es r r' r'' t)
          (take_events-Reports k es r' t.1)

-- No change to the queue is refused: a descriptor that is taken out is there, or ENOENT tells that it
-- is not.
abbrev pub Deletes : Kernel → Type 0
Deletes k =
    (fd socket : ℕ) (cs : List Change)
    → (k.kevent fd cs (deleted socket) ≡ none) ⊎ (k.kevent fd cs (deleted socket) ≡ some 2)

take_event-returns :
    (k : Kernel) (e : Kevent) (r : FbsdReactor)
    → Deletes k
    → (r' : FbsdReactor) × (take_event k e r ≡ returns tt r')
unfolding take_event
take_event-returns k e r d = elim (Bool-cases (e.ident == r.pipe_fds.0)) [
  | inl wake ↦ rw wake (take_pipe r, refl)
  | inr other ↦ elim (d r.kqfd e.ident r.changes) [
    | inl fine ↦ rw (other, take_socket, fine) (put_socket e.ident r, refl)
    | inr absent ↦ rw (other, take_socket, absent) (put_socket e.ident r, refl)
  ]
]

take_events-returns :
    (k : Kernel) (es : List Kevent) (r : FbsdReactor)
    → Deletes k
    → (r' : FbsdReactor) × (take_events k es r ≡ returns tt r')
unfolding take_events
take_events-returns k [] r d = (r, refl)
take_events-returns k (e ∷ es) r d =
    let (r', here) = take_event-returns k e r d in
    let (r'', rest) = take_events-returns k es r' d in (r'', rw (take_events, here) rest)

-- With the events that kevent has given, `get_interrupt` returns whether there were any, the socket
-- that it reports is that of the last of them, 0 for the pipe, or the one from before where there
-- is none, and the sockets of all of them are watched no more, all other descriptors as before.
-- The pipe holds only zeros, and kevent takes a socket out, or answers ENOENT.
pub get_interrupt-last :
    (k : Kernel) (es : List Kevent) (r : FbsdReactor)
    → Zeros r
    → Deletes k
    → (r' : FbsdReactor) × (get_interrupt k (some es) r ≡ returns (not (is_nil es)) r')
      × (who r' ≡ last_socket r.pipe_fds.0 (who r) es)
      × ((s : ℕ) → is_watched s r'.changes ≡ still_watched r.pipe_fds.0 s es r.changes)
unfolding get_interrupt
get_interrupt-last k es r z d =
    let (r', e) = take_events-returns k es r d in
    let (last, rest) : Reports es r r' = rw e at (take_events-Reports k es r z) in
    (r', rw e refl, last, rest)
