-- ===== src/Bandwidth/States.antt =====
-- The operations of the limiter on its table of connections.
use tcp_fsm.Base.{
  ℕ, ◌≡◌, ◌≢◌, ◌∙◌, [], ◌∷◌, ◌++◌, none, some, false, ==_ne, arith, Option-cases, inl, inr,
}
use tcp_fsm.Base.OrderedMap
use tcp_fsm.Base.OrderedMap.{
  find-insert_ne, find-insert_new, find-modify_self, find-modify_ne, find-erase_ne, find-erase_self,
  From, erase-From,
}
use tcp_fsm.Bandwidth.{
  Timeb, BwState, Bwstop, Double, new_state, find_or_make, on, off, insert, erase, guess, can,
  recalc, push_back,
}

-- While the limit is 0, `insert`, `on`, `off` and `recalc` leave the limiter as it is, and `recalc`
-- says that nothing is in excess.
pub disabled_unchanged :
    (fp : Double) (junk : ℕ) (now : Timeb) (conn size : ℕ) (b : Bwstop)
    → b.max_bw ≡ 0
    → (insert junk now conn size b ≡ b)
      × (on conn b ≡ b)
      × (off conn b ≡ b)
      × (recalc fp now b ≡ some (b, false))
unfolding insert on off recalc
disabled_unchanged fp junk now conn size b h =
    (ground arith, ground arith, ground arith, ground arith)

-- What `find` of the source returns the records of.
pub state_of : ℕ → ℕ → Bwstop → BwState
state_of junk conn b = elim (OrderedMap.find conn b.states) [ none ↦ new_state junk | some s ↦ s ]

find_or_make-find :
    (junk conn : ℕ) (b : Bwstop)
    → OrderedMap.find conn (find_or_make junk conn b.states) ≡ some (state_of junk conn b)
unfolding find_or_make state_of
find_or_make-find junk conn b = elim (Option-cases (OrderedMap.find conn b.states)) [
  | inl p ↦ rw (p, find_or_make, state_of) (find-insert_new conn (new_state junk) b.states p)
  | inr (s, p) ↦ rw (p, find_or_make, state_of) p
]

find_or_make-ne :
    (junk conn other : ℕ) (b : Bwstop)
    → conn ≢ other
    → OrderedMap.find other (find_or_make junk conn b.states) ≡ OrderedMap.find other b.states
unfolding find_or_make
find_or_make-ne junk conn other b h =
    ground (arith, find-insert_ne conn other (new_state junk) b.states h)

-- While the limiter is on, `insert` adds one record, stamped with the time and the size, behind
-- the records of the connection, which is made active and empty if it was not known; the entries
-- of all other connections stay as they were.
pub insert_lem :
    (junk : ℕ) (now : Timeb) (conn size other : ℕ) (b : Bwstop)
    → b.max_bw ≢ 0
    → conn ≢ other
    → (OrderedMap.find conn (insert junk now conn size b).states
        ≡ some (record (state_of junk conn b) {
          records = (state_of junk conn b).records ++ (record { t = now; size = size } ∷ []);
        }))
      × (OrderedMap.find other (insert junk now conn size b).states
          ≡ OrderedMap.find other b.states)
unfolding insert
insert_lem junk now conn size other b h k =
    let added = push_back (record { t = now; size = size }) in
    let entries = find_or_make junk conn b.states in
    rw (==_ne b.max_bw 0 h) (
      find-modify_self conn added entries (state_of junk conn b) (find_or_make-find junk conn b),
      find-modify_ne conn other added entries k ∙ find_or_make-ne junk conn other b k,
    )

-- In a table in the order of its keys, `erase` takes the connection's entry out, so that `guess`
-- is 0 and `can` refuses, and keeps the entries of all others and the order.
pub erase_lem :
    (conn other g : ℕ) (b : Bwstop)
    → From 0 b.states
    → conn ≢ other
    → (guess conn (erase conn b) ≡ 0)
      × (can conn g (erase conn b) ≡ (false, g))
      × (OrderedMap.find other (erase conn b).states ≡ OrderedMap.find other b.states)
      × From 0 (erase conn b).states
unfolding guess can erase
erase_lem conn other g b s h = (
  rw (guess, find-erase_self conn 0 b.states s),
  rw (can, find-erase_self conn 0 b.states s),
  find-erase_ne conn other b.states h,
  erase-From conn 0 b.states s,
)
