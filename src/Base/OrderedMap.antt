-- ===== src/Base/OrderedMap.antt =====
-- std::map with keys that are addresses or sockets: a list of entries in the order of the keys.
use Prim.Native.Nat.{ℕ, ◌+◌, ◌≤◌, ◌<◌}
use mathlib.Core.Path.{◌≡◌, refl}
use mathlib.Core.Logic.{◌≢◌}
use mathlib.Core.Option.{Option, none, some}
use mathlib.Core.List.{List, [], ◌∷◌}
use native.Mathlib.Omega.{arith}
use tcp_fsm.Base.Tests.{ltb, ◌==◌, if◌then◌else◌}

module _ {V : Type 0} where
  unfoldable pub find : ℕ → List (ℕ × V) → Option V
  find k [] = none
  find k ((j, v) ∷ m) = if j == k then some v else find k m

  -- `insert` leaves the value of a key that is there already.
  unfoldable pub insert : ℕ → V → List (ℕ × V) → List (ℕ × V)
  insert k v [] = (k, v) ∷ []
  insert k v ((j, w) ∷ m) =
      let rest = insert k v m in
      if j == k then (j, w) ∷ m else if ltb k j then (k, v) ∷ (j, w) ∷ m else (j, w) ∷ rest

  -- `it->second = f(it->second)` at the iterator that `find` returns, if it is not `end()`.
  unfoldable pub modify : ℕ → (V → V) → List (ℕ × V) → List (ℕ × V)
  modify k f [] = []
  modify k f ((j, v) ∷ m) = if j == k then (j, f v) ∷ m else (j, v) ∷ modify k f m

  unfoldable pub erase : ℕ → List (ℕ × V) → List (ℕ × V)
  erase k [] = []
  erase k ((j, v) ∷ m) = if j == k then m else (j, v) ∷ erase k m

  pub find-insert_ne :
      (k j : ℕ) (v : V) (m : List (ℕ × V)) → k ≢ j → find j (insert k v m) ≡ find j m
  unfolding find insert
  find-insert_ne k j v [] h = ground arith
  find-insert_ne k j v ((i, w) ∷ m) h = ground (arith, find-insert_ne k j v m)

  pub find-insert_new :
      (k : ℕ) (v : V) (m : List (ℕ × V)) → find k m ≡ none → find k (insert k v m) ≡ some v
  unfolding find insert
  find-insert_new k v [] h = ground arith
  find-insert_new k v ((i, w) ∷ m) h = ground (arith, find-insert_new k v m)

  pub find-modify_self :
      (k : ℕ) (f : V → V) (m : List (ℕ × V)) (v : V)
      → find k m ≡ some v
      → find k (modify k f m) ≡ some (f v)
  unfolding find modify
  find-modify_self k f [] v h = cc
  find-modify_self k f ((i, w) ∷ m) v h = ground (arith, find-modify_self k f m v)

  pub find-modify_ne :
      (k j : ℕ) (f : V → V) (m : List (ℕ × V)) → k ≢ j → find j (modify k f m) ≡ find j m
  unfolding find modify
  find-modify_ne k j f [] h = refl
  find-modify_ne k j f ((i, w) ∷ m) h = ground (arith, find-modify_ne k j f m)

  pub find-erase_ne : (k j : ℕ) (m : List (ℕ × V)) → k ≢ j → find j (erase k m) ≡ find j m
  unfolding find erase
  find-erase_ne k j [] h = refl
  find-erase_ne k j ((i, w) ∷ m) h = ground (arith, find-erase_ne k j m)

  -- The keys rise along the list, from a bound on.
  abbrev pub From : ℕ → List (ℕ × V) → Type 0
  From b [] = Unit {0}
  From b ((k, v) ∷ m) = (b ≤ k) × From (k + 1) m

  pub find_below : (k b : ℕ) (m : List (ℕ × V)) → From b m → k < b → find k m ≡ none
  unfolding find
  find_below k b [] s h = refl
  find_below k b ((i, w) ∷ m) s h = ground (arith, find_below k (i + 1) m s.1)

  pub insert-From : (k b : ℕ) (v : V) (m : List (ℕ × V)) → From b m → b ≤ k → From b (insert k v m)
  unfolding insert
  insert-From k b v [] s h = (h, tt)
  insert-From k b v ((i, w) ∷ m) s h = ground (arith, insert-From k (i + 1) v m s.1)

  From-weaken : (b c : ℕ) (m : List (ℕ × V)) → c ≤ b → From b m → From c m
  From-weaken b c [] h s = tt
  From-weaken b c ((i, w) ∷ m) h s = (omega arith, s.1)

  pub erase-From : (k b : ℕ) (m : List (ℕ × V)) → From b m → From b (erase k m)
  unfolding erase
  erase-From k b [] s = tt
  erase-From k b ((i, w) ∷ m) s =
      ground (arith, erase-From k (i + 1) m s.1, From-weaken (i + 1) b m)

  pub modify-From : (k b : ℕ) (f : V → V) (m : List (ℕ × V)) → From b m → From b (modify k f m)
  unfolding modify
  modify-From k b f [] s = tt
  modify-From k b f ((i, w) ∷ m) s = ground (arith, modify-From k (i + 1) f m s.1)

  pub find-insert_old :
      (k b : ℕ) (v : V) (m : List (ℕ × V)) (w : V) → From b m → find k m ≡ some w → insert k v m ≡ m
  unfolding find insert
  find-insert_old k b v [] w s h = cc
  find-insert_old k b v ((i, x) ∷ m) w s h =
      ground (arith, find-insert_old k (i + 1) v m w s.1, find_below k (i + 1) m s.1)

  pub find-erase_self : (k b : ℕ) (m : List (ℕ × V)) → From b m → find k (erase k m) ≡ none
  unfolding find erase
  find-erase_self k b [] s = refl
  find-erase_self k b ((i, w) ∷ m) s =
      ground (arith, find-erase_self k (i + 1) m s.1, find_below k (i + 1) m s.1)
