-- ===== src/Monad.antt =====
-- Operations on a state `S` that may throw an exception: the monad in which the dispatchers run.
pub mod Post
use tcp_fsm.Base.{ℕ, Bool, true, false, if◌then◌else◌, ◌==◌}

-- An operation returns, throws an exception, or does what has no defined behaviour.
pub data Answer (S A : Type 0) : Type 0 where
  done : A → S → Answer S A
  thrown : S → Answer S A
  fault : Answer S A

abbrev pub Op : Type 0 → Type 0 → Type 0
Op S A = S → Answer S A

module _ {S : Type 0} where
  abbrev pub pure : {A : Type 0} → A → Op S A
  pure a w = done a w

  module _ {A B : Type 0} where
    abbrev pub and_then : Answer S A → (A → Op S B) → Answer S B
    and_then (done a w) k = k a w
    and_then (thrown w) k = thrown w
    and_then fault k = fault

    infixl 5 ◌>>=◌ ◌>>◌
    abbrev pub ◌>>=◌ : Op S A → (A → Op S B) → Op S B
    m >>= k = λ w. and_then (m w) k

    abbrev pub ◌>>◌ : Op S A → Op S B → Op S B
    m >> n = m >>= λ _. n

  -- `try { … } catch( exception& ) { … }`
  abbrev pub try_catch : {A : Type 0} → Op S A → Op S A → Op S A
  try_catch m handler w = elim (m w) [
    | done a w' ↦ done a w'
    | thrown w' ↦ handler w'
    | fault ↦ fault
  ]

  abbrev pub throw : {A : Type 0} → Op S A
  throw w = thrown w

  abbrev pub crash : {A : Type 0} → Op S A
  crash w = fault

  abbrev pub get : Op S S
  get w = done w w

  abbrev pub modify : (S → S) → Op S (Unit {0})
  modify f w = done tt (f w)

  -- `if( b ) m`
  abbrev pub when : Bool → Op S (Unit {0}) → Op S (Unit {0})
  when true m = m
  when false m = pure tt

abbrev pub update {ℓ} : {A : Type ℓ} → (ℕ → A) → ℕ → A → ℕ → A
update f k v j = if k == j then v else f j
