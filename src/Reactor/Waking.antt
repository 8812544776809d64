-- ===== src/Reactor/Waking.antt =====
-- No event of epoll is lost on the way to the interrupts.
use tcp_fsm.Base.{
  Option, some, ℕ, ◌%◌, ◌^◌, ◌≡◌, ◌≢◌, ◌∙◌, refl, List, [], ◌∷◌, none, Bool, ◌==◌, has_flag,
  if◌then◌else◌, arith, inl, inr, Bool-cases, All,
}
use tcp_fsm.Base.OrderedMap
use tcp_fsm.Connection.{fd_read, fd_write, fd_close}
use tcp_fsm.Reactor.{
  epoll_in, epoll_out, epoll_err, InterruptInfo, EpollEvent, WaitResult, ready, interrupted,
  wait_failed, no_info, LinuxReactor, code_of, read_pipe, translate, translate_all, interrupts,
  get_interrupt,
}

-- The flags for reading, writing and closing of an interrupt are EPOLLIN, EPOLLOUT and EPOLLERR of its
-- event, whatever other flags that has.
pub code_of_lem :
    (events : ℕ)
    → (has_flag (code_of events) fd_read ≡ has_flag events epoll_in)
      × (has_flag (code_of events) fd_write ≡ has_flag events epoll_out)
      × (has_flag (code_of events) fd_close ≡ has_flag events epoll_err)
unfolding code_of
code_of_lem events = ground arith

-- The socket that an event is reported under, 0 for the pipe.
abbrev pub key_of : (ℕ → ℕ) → ℕ → EpollEvent → ℕ
key_of sock_of pipe_fd e = if e.user_data % 2 ^ 32 == pipe_fd then 0 else sock_of e.user_data

-- Only zeros are written to the pipe, as `stop()` does.
abbrev pub Zeros : LinuxReactor → Type 0
Zeros r = All (λ n. n ≡ 0) r.pipe

read_pipe-Zeros :
    (ns : List ℕ) → All (λ n. n ≡ 0) ns → ((read_pipe ns).0 ≡ 0) × All (λ n. n ≡ 0) (read_pipe ns).1
unfolding read_pipe
read_pipe-Zeros [] z = (refl, tt)
read_pipe-Zeros (n ∷ ns) z = z

-- What the interrupt of an event must hold: nothing for the pipe, and otherwise the connection of the
-- event, with EPOLLIN, EPOLLOUT and EPOLLERR as reading, writing and closing.
pub record Tells (pipe_fd : ℕ) (e : EpollEvent) (i : InterruptInfo) : Type 0 where
  pub of_pipe : e.user_data % 2 ^ 32 ≡ pipe_fd → i ≡ no_info
  pub of_conn : e.user_data % 2 ^ 32 ≢ pipe_fd → i.conn ≡ e.user_data
  pub reading :
      e.user_data % 2 ^ 32 ≢ pipe_fd → has_flag i.code fd_read ≡ has_flag e.events epoll_in
  pub writing :
      e.user_data % 2 ^ 32 ≢ pipe_fd → has_flag i.code fd_write ≡ has_flag e.events epoll_out
  pub closing :
      e.user_data % 2 ^ 32 ≢ pipe_fd → has_flag i.code fd_close ≡ has_flag e.events epoll_err

-- The first event under a key.
abbrev pub first_under : (ℕ → ℕ) → ℕ → ℕ → List EpollEvent → Option EpollEvent
first_under sock_of pipe_fd k [] = none
first_under sock_of pipe_fd k (e ∷ es) =
    if key_of sock_of pipe_fd e == k then some e else first_under sock_of pipe_fd k es

-- There is an interrupt exactly where there is an event, and it tells of it.
abbrev pub Told : ℕ → Option EpollEvent → Option InterruptInfo → Type 0
Told pipe_fd none none = Unit {0}
Told pipe_fd none (some i) = ⊥
Told pipe_fd (some e) none = ⊥
Told pipe_fd (some e) (some i) = Tells pipe_fd e i

abbrev info_of : ℕ → EpollEvent → InterruptInfo
info_of pipe_fd e =
    if e.user_data % 2 ^ 32 == pipe_fd
    then no_info
    else record { code = code_of e.events; conn = e.user_data; sreq = 0 }

info_of-Tells : (pipe_fd : ℕ) (e : EpollEvent) → Tells pipe_fd e (info_of pipe_fd e)
info_of-Tells pipe_fd e = elim (Bool-cases (e.user_data % 2 ^ 32 == pipe_fd)) [
  | inl pipe ↦ rw pipe (record {
    of_pipe = λ h. refl;
    of_conn = λ h. absurd (ground (arith, h));
    reading = λ h. absurd (ground (arith, h));
    writing = λ h. absurd (ground (arith, h));
    closing = λ h. absurd (ground (arith, h));
  })
  | inr other ↦
      let (r, w, c) = code_of_lem e.events in
      rw other (record {
        of_pipe = λ h. absurd (ground arith);
        of_conn = λ h. refl;
        reading = λ h. r;
        writing = λ h. w;
        closing = λ h. c;
      })
]

-- `insert` of a map leaves an entry that is there as it is.
find-insert_there :
    (k j : ℕ) (i x : InterruptInfo) (m : List (ℕ × InterruptInfo))
    → OrderedMap.From 0 m
    → OrderedMap.find k m ≡ some i
    → OrderedMap.find k (OrderedMap.insert j x m) ≡ some i
find-insert_there k j i x m sorted e = elim (Bool-cases (j == k)) [
  | inl same ↦
      let q : j ≡ k = ground arith in rw (q, OrderedMap.find-insert_old k 0 x m i sorted e) e
  | inr other ↦ rw (OrderedMap.find-insert_ne j k x m (ground arith)) e
]

module _ (sock_of : ℕ → ℕ) where
  -- An event is one insertion.
  translate_lem :
      (e : EpollEvent) (r : LinuxReactor) (result : List (ℕ × InterruptInfo))
      → Zeros r
      → ((translate sock_of e (r, result)).1
          ≡ OrderedMap.insert (key_of sock_of r.pipe_fd e) (info_of r.pipe_fd e) result)
        × Zeros (translate sock_of e (r, result)).0
        × ((translate sock_of e (r, result)).0.pipe_fd ≡ r.pipe_fd)
  unfolding translate
  translate_lem e r result z = elim (Bool-cases (e.user_data % 2 ^ 32 == r.pipe_fd)) [
    | inl wake ↦
        let (zero_read, zeros) = read_pipe-Zeros r.pipe z in
        rw (wake, zero_read) (refl, zeros, refl)
    | inr other ↦ rw other (refl, z, refl)
  ]

  translate_all-keeps :
      (es : List EpollEvent) (s : LinuxReactor × List (ℕ × InterruptInfo)) (k : ℕ)
      (i : InterruptInfo)
      → Zeros s.0
      → OrderedMap.From 0 s.1
      → OrderedMap.find k s.1 ≡ some i
      → OrderedMap.find k (translate_all sock_of es s).1 ≡ some i
  unfolding translate_all
  translate_all-keeps [] s k i z sorted h = h
  translate_all-keeps (e ∷ es) s k i z sorted h =
      let (inserted, zeros, same) = translate_lem e s.0 s.1 z in
      let key = key_of sock_of s.0.pipe_fd e in
      let x = info_of s.0.pipe_fd e in
      translate_all-keeps es (translate sock_of e s) k i zeros
        (rw inserted (OrderedMap.insert-From key 0 x s.1 sorted (omega arith)))
        (rw inserted (find-insert_there k key i x s.1 sorted h))

  translate_all-Told :
      (es : List EpollEvent) (s : LinuxReactor × List (ℕ × InterruptInfo)) (fd k : ℕ)
      → s.0.pipe_fd ≡ fd
      → Zeros s.0
      → OrderedMap.From 0 s.1
      → OrderedMap.find k s.1 ≡ none
      → Told fd (first_under sock_of fd k es) (OrderedMap.find k (translate_all sock_of es s).1)
  unfolding translate_all
  translate_all-Told [] s fd k f z sorted h = rw h tt
  translate_all-Told (e ∷ es) s fd k f z sorted h =
      let (inserted, zeros, same) = translate_lem e s.0 s.1 z in
      let key = key_of sock_of s.0.pipe_fd e in
      let x = info_of s.0.pipe_fd e in
      let sorted' : OrderedMap.From 0 (translate sock_of e s).1 =
        rw inserted (OrderedMap.insert-From key 0 x s.1 sorted (omega arith)) in
      elim (Bool-cases (key_of sock_of fd e == k)) [
        | inl here ↦
            let at_key : key ≡ k = rw f (ground arith) in
            let there : OrderedMap.find k (translate sock_of e s).1 ≡ some x =
              rw (inserted, at_key) (OrderedMap.find-insert_new k x s.1 h) in
            rw (here, translate_all-keeps es (translate sock_of e s) k x zeros sorted' there, f)
              (info_of-Tells fd e)
        | inr other ↦
            let elsewhere : key ≢ k = rw f (ground arith) in
            rw other (
              translate_all-Told es (translate sock_of e s) fd k (same ∙ f) zeros sorted'
                (rw inserted (OrderedMap.find-insert_ne key k x s.1 elsewhere ∙ h)))
      ]

-- The events of the first wait that was not interrupted by a signal.
pub first_ready : List WaitResult → List EpollEvent
first_ready [] = []
first_ready (interrupted ∷ waits) = first_ready waits
first_ready (wait_failed ∷ waits) = []
first_ready (ready es ∷ waits) = es

-- Where `get_interrupt` returns, it reports the events of the first wait that was not interrupted by a
-- signal: under each key, the socket of an event, or 0 for the pipe, there is an interrupt exactly where
-- there is an event, and it tells of the first of them, its connection and whether it is for reading,
-- writing or closing. The pipe holds only zeros.
pub get_interrupt-Told :
    (sock_of : ℕ → ℕ) (waits : List WaitResult) (r r' : LinuxReactor)
    (result : List (ℕ × InterruptInfo)) (some_event : Bool)
    → Zeros r
    → get_interrupt sock_of waits r [] ≡ interrupts some_event r' result
    → (k : ℕ)
    → Told r.pipe_fd
        (first_under sock_of r.pipe_fd k (first_ready waits))
        (OrderedMap.find k result)
unfolding get_interrupt first_ready OrderedMap.find
get_interrupt-Told sock_of [] r r' result b z e k = absurd (ground arith)
get_interrupt-Told sock_of (interrupted ∷ waits) r r' result b z e k =
    get_interrupt-Told sock_of waits r r' result b z e k
get_interrupt-Told sock_of (wait_failed ∷ waits) r r' result b z e k = absurd (ground arith)
get_interrupt-Told sock_of (ready es ∷ waits) r r' result b z e k =
    let same : (translate_all sock_of es (r, [])).1 ≡ result = ground arith in
    rw same at (translate_all-Told sock_of es (r, []) r.pipe_fd k refl z tt refl)
