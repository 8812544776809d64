-- ===== src/Select/Watching.antt =====
-- What socket_reactor gives to select(2).
use tcp_fsm.Base.{
  some, ℕ, ◌+◌, ◌≤◌, ◌<◌, ◌≡◌, List, [], ◌∷◌, true, false, Bool, ◌==◌, ◌||◌, has_flag, arith, refl,
  ltb, if◌then◌else◌, not, ◌&&◌, arith,
}
use tcp_fsm.Base.OrderedMap
use tcp_fsm.Connection.{fd_accept}
use tcp_fsm.Select.{
  fd_setsize, all_below, fd_sets, SocketReactor, FdSets, sets_of, add_reading, add_writing, keys,
  add_event,
}

-- Whether a descriptor is in a set.
abbrev pub has : ℕ → List ℕ → Bool
has d [] = false
has d (x ∷ xs) = x == d || has d xs

-- Every descriptor of the sets is at most the greatest one.
abbrev pub Within : FdSets → Type 0
Within s = (d : ℕ) → ((has d s.rset || has d s.wset || has d s.eset) ≡ true) → d ≤ s.max

add_reading_lem :
    (ds : List ℕ) (s : FdSets)
    → Within s
    → Within (add_reading ds s)
      × ((d : ℕ)
          → (has d (add_reading ds s).rset ≡ (has d ds || has d s.rset))
            × (has d (add_reading ds s).wset ≡ has d s.wset)
            × (has d (add_reading ds s).eset ≡ (has d ds || has d s.eset)))
unfolding add_reading
add_reading_lem [] s h = (h, λ d. ground arith)
add_reading_lem (x ∷ ds) s h =
    let s' : FdSets = record s {
      rset = x ∷ s.rset;
      eset = x ∷ s.eset;
      max = if ltb s.max x then x else s.max;
    } in
    let (within, rest) = add_reading_lem ds s' (λ d k. ground (arith, h d)) in
    (within, λ d. ground (arith, rest d))

add_writing_lem :
    (ds : List ℕ) (s : FdSets)
    → Within s
    → Within (add_writing ds s)
      × ((d : ℕ)
          → (has d (add_writing ds s).rset ≡ has d s.rset)
            × (has d (add_writing ds s).wset ≡ (has d ds || has d s.wset))
            × (has d (add_writing ds s).eset ≡ (has d ds || has d s.eset)))
unfolding add_writing
add_writing_lem [] s h = (h, λ d. ground arith)
add_writing_lem (x ∷ ds) s h =
    let s' : FdSets = record s {
      wset = x ∷ s.wset;
      eset = x ∷ s.eset;
      max = if ltb s.max x then x else s.max;
    } in
    let (within, rest) = add_writing_lem ds s' (λ d k. ground (arith, h d)) in
    (within, λ d. ground (arith, rest d))

-- Whether a socket is in a set of the reactor.
abbrev pub is_member : ℕ → List (ℕ × Unit {0}) → Bool
is_member d ds = has d (keys ds)

-- The descriptors that select is asked about are, for reading the pipe and `r_desc_set`, for writing
-- `w_desc_set`, and for exceptions both sets, and none of them is above the greatest.
pub sets_of_lem :
    (r : SocketReactor)
    → Within (sets_of r)
      × ((d : ℕ)
          → (has d (sets_of r).rset ≡ (is_member d r.r_desc_set || r.pipe_fds.0 == d))
            × (has d (sets_of r).wset ≡ is_member d r.w_desc_set)
            × (has d (sets_of r).eset ≡ (is_member d r.w_desc_set || is_member d r.r_desc_set)))
unfolding sets_of
sets_of_lem r =
    let start : FdSets = record {
      rset = r.pipe_fds.0 ∷ [];
      wset = [];
      eset = [];
      max = r.pipe_fds.0;
    } in
    let (in_first, first) = add_reading_lem (keys r.r_desc_set) start (λ d k. ground arith) in
    let (in_all, all) =
      add_writing_lem (keys r.w_desc_set) (add_reading (keys r.r_desc_set) start) in_first in
    (in_all, λ d. ground (arith, first d, all d))

is_member-insert :
    (d socket : ℕ) (ds : List (ℕ × Unit {0}))
    → is_member d (OrderedMap.insert socket tt ds) ≡ (socket == d || is_member d ds)
unfolding keys OrderedMap.insert
is_member-insert d socket [] = refl
is_member-insert d socket ((x, u) ∷ ds) = ground (arith, is_member-insert d socket ds)

all_below-insert :
    (socket : ℕ) (ds : List (ℕ × Unit {0}))
    → socket < fd_setsize
    → all_below (keys ds) ≡ true
    → all_below (keys (OrderedMap.insert socket tt ds)) ≡ true
unfolding all_below keys OrderedMap.insert
all_below-insert socket [] h e = ground arith
all_below-insert socket ((x, u) ∷ ds) h e = ground (arith, all_below-insert socket ds h)

add_event-fits :
    (socket type : ℕ) (r : SocketReactor) (s : FdSets)
    → socket < fd_setsize
    → fd_sets r ≡ some s
    → (s ≡ sets_of r)
      × (fd_sets (add_event socket type r) ≡ some (sets_of (add_event socket type r)))
unfolding fd_sets add_event
add_event-fits socket type r s h e = (
  ground arith,
  ground (arith, all_below-insert socket r.r_desc_set h, all_below-insert socket r.w_desc_set h),
)

-- What select is given after a socket was added, against what it was given before.
abbrev pub Adds : ℕ → ℕ → FdSets → FdSets → Type 0
Adds socket type s s' =
    (socket < s'.max + 1)
    × ((d : ℕ)
        → (has d s'.rset ≡ (has_flag type fd_accept && socket == d || has d s.rset))
          × (has d s'.wset ≡ (not (has_flag type fd_accept) && socket == d || has d s.wset))
          × (has d s'.eset ≡ (socket == d || has d s.eset)))

adds_lem :
    (socket type : ℕ) (r : SocketReactor)
    → Adds socket type (sets_of r) (sets_of (add_event socket type r))
unfolding add_event
adds_lem socket type r =
    let r' = add_event socket type r in
    let (within, here) = sets_of_lem r' in
    let (before, there) = sets_of_lem r in
    (
      ground (
        arith,
        within socket,
        here socket,
        is_member-insert socket socket r.r_desc_set,
        is_member-insert socket socket r.w_desc_set,
      ),
      λ d. ground (
        arith,
        here d,
        there d,
        is_member-insert d socket r.r_desc_set,
        is_member-insert d socket r.w_desc_set,
      ),
    )

-- A socket below FD_SETSIZE that is added to a reactor whose descriptors all fit into the sets is then
-- waited for: all descriptors fit again, it is below the number that select is given, and it is in the
-- set for reading if it was added with FD_ACCEPT, in that for writing if not, and in that for exceptions.
-- The others are waited for as before.
pub add_event-fd_sets :
    (socket type : ℕ) (r : SocketReactor) (s : FdSets)
    → socket < fd_setsize
    → fd_sets r ≡ some s
    → (s' : FdSets) × (fd_sets (add_event socket type r) ≡ some s') × Adds socket type s s'
add_event-fd_sets socket type r s h e =
    let (same, fits) = add_event-fits socket type r s h e in
    (sets_of (add_event socket type r), fits, rw same (adds_lem socket type r))
