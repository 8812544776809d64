-- ===== src/Monad/Post.antt =====
-- What holds of the state after an operation: one rule for each way to combine operations.
use tcp_fsm.Base.{◌≡◌, refl, Option, none, some, Bool, true, false, if◌then◌else◌}
use tcp_fsm.Monad.{Answer, Op, done, thrown, fault, and_then, ◌>>=◌, try_catch, get, when}

-- `P` where it returns and `Q` where it throws. Of a fault nothing is said.
abbrev pub Post : {S A : Type 0} → (S → Type 0) → (S → Type 0) → Answer S A → Type 0
Post P Q (done a w) = P w
Post P Q (thrown w) = Q w
Post P Q fault = Unit {0}

abbrev pub Keeps : {S A : Type 0} → (S → Type 0) → (S → Type 0) → Op S A → Type 0
Keeps {S} P Q m = (w : S) → P w → Post P Q (m w)

module _ {S : Type 0} (P Q : S → Type 0) where
  pub and_then-Post :
      {A B : Type 0} (r : Answer S A) (k : A → Op S B)
      → Post P Q r
      → ((a : A) → Keeps P Q (k a))
      → Post P Q (and_then r k)
  and_then-Post (done a w) k h hk = hk a w h
  and_then-Post (thrown w) k h hk = h
  and_then-Post fault k h hk = tt

  pub bind-Keeps :
      {A B : Type 0} (m : Op S A) (k : A → Op S B)
      → Keeps P Q m
      → ((a : A) → Keeps P Q (k a))
      → Keeps P Q (m >>= k)
  bind-Keeps m k hm hk w h = and_then-Post (m w) k (hm w h) hk

  pub get-Keeps :
      {B : Type 0} (k : S → Op S B) → ((v : S) → Keeps P Q (k v)) → Keeps P Q (get >>= k)
  get-Keeps k hk w h = hk w w h

  pub if-Keeps :
      {A : Type 0} (b : Bool) (m n : Op S A)
      → Keeps P Q m
      → Keeps P Q n
      → Keeps P Q (if b then m else n)
  if-Keeps true m n hm hn = hm
  if-Keeps false m n hm hn = hn

  pub if-Post :
      {A : Type 0} (b : Bool) (m n : Op S A) (w : S)
      → (b ≡ true → Post P Q (m w))
      → (b ≡ false → Post P Q (n w))
      → Post P Q ((if b then m else n) w)
  if-Post true m n w hm hn = hm refl
  if-Post false m n w hm hn = hn refl

  pub when-Post :
      (b : Bool) (m : Op S (Unit {0})) (w : S)
      → (b ≡ true → Post P Q (m w))
      → P w
      → Post P Q (when b m w)
  when-Post true m w hm h = hm refl
  when-Post false m w hm h = h

  pub when-Keeps : (b : Bool) (m : Op S (Unit {0})) → Keeps P Q m → Keeps P Q (when b m)
  when-Keeps true m hm = hm
  when-Keeps false m hm = λ w h. h

  catch-Post :
      {A : Type 0} (M : S → Type 0) (w : S) (r : Answer S A) (handler : Op S A)
      → Post P M r
      → ((v : S) → M v → Post P Q (handler v))
      → Post P Q (try_catch (λ _. r) handler w)
  catch-Post M w (done a v) handler k hh = k
  catch-Post M w (thrown v) handler k hh = hh v k
  catch-Post M w fault handler k hh = tt

  -- `M` holds where the handler begins.
  pub catch-Keeps :
      {A : Type 0} (M : S → Type 0) (m handler : Op S A)
      → Keeps P M m
      → ((w : S) → M w → Post P Q (handler w))
      → Keeps P Q (try_catch m handler)
  catch-Keeps M m handler hm hh w h = catch-Post M w (m w) handler (hm w h) hh

  pub option-Keeps :
      {A B : Type 0} (o : Option A) (m : Op S B) (k : A → Op S B)
      → Keeps P Q m
      → ((a : A) → Keeps P Q (k a))
      → Keeps P Q (elim o [ none ↦ m | some a ↦ k a ])
  option-Keeps none m k hm hk = hm
  option-Keeps (some a) m k hm hk = hk a

pub Post-map :
    {S A : Type 0} (P Q P' Q' : S → Type 0) (r : Answer S A)
    → ((w : S) → P w → P' w)
    → ((w : S) → Q w → Q' w)
    → Post P Q r
    → Post P' Q' r
Post-map P Q P' Q' (done a w) f g h = f w h
Post-map P Q P' Q' (thrown w) f g h = g w h
Post-map P Q P' Q' fault f g h = tt

pub Post-both :
    {S A : Type 0} (P P' Q Q' : S → Type 0) (r : Answer S A)
    → Post P Q r
    → Post P' Q' r
    → Post (λ w. P w × P' w) Q r
Post-both P P' Q Q' (done a w) h k = (h, k)
Post-both P P' Q Q' (thrown w) h k = h
Post-both P P' Q Q' fault h k = tt

-- Where the second operation needs `P` and leaves `P'`.
pub and_then-Post_from :
    {S A B : Type 0} (P P' Q : S → Type 0) (r : Answer S A) (k : A → Op S B)
    → Post P Q r
    → ((a : A) (w : S) → P w → Post P' Q (k a w))
    → Post P' Q (and_then r k)
and_then-Post_from P P' Q (done a w) k h hk = hk a w h
and_then-Post_from P P' Q (thrown w) k h hk = h
and_then-Post_from P P' Q fault k h hk = tt
