-- ===== src/Outcome.antt =====
-- Code that throws or waits: the result of a call on a world. `thrown` keeps the world as it is when
-- the exception (src/exceptions.h) leaves the function.
use Prim.Native.String.{String}
use rambrain_uwp.Prelude.{true, false}
use rambrain_uwp.World.{World}

pub data Exception : Type 0 where
  memory_exception incomplete_setup_exception unfinished_code_exception : String → Exception

-- `waiting`: the call has used up the rounds that its loop was given and has not returned.
-- `fault`: it has read through a NULL pointer.
pub data Outcome (A : Type 0) : Type 0 where
  returned : A → World → Outcome A
  thrown : Exception → World → Outcome A
  waiting fault : Outcome A

abbrev pub M : Type 0 → Type 0
M A = World → Outcome A

abbrev pub pure : {A : Type 0} → A → M A
pure a w = returned a w

abbrev pub and_then : {A B : Type 0} → Outcome A → (A → M B) → Outcome B
and_then (returned a w) f = f a w
and_then (thrown e w) f = thrown e w
and_then waiting f = waiting
and_then fault f = fault

infixl 5 ◌>>=◌ ◌>>◌
abbrev pub ◌>>=◌ : {A B : Type 0} → M A → (A → M B) → M B
◌>>=◌ m f w = and_then (m w) f

abbrev pub ◌>>◌ : {B : Type 0} → M (Unit {0}) → M B → M B
m >> k = m >>= λ _. k

abbrev pub get : M World
get w = returned w w

abbrev pub modify : (World → World) → M (Unit {0})
modify f w = returned tt (f w)

-- `Throw`, without PARENTAL_CONTROL.
abbrev pub throw : {A : Type 0} → Exception → M A
throw e w = thrown e w

-- `rambrain_pthread_mutex_lock ( &stateChangeMutex )` and its release.
abbrev pub lock : M (Unit {0})
lock = modify (λ w. record w { state_locked = true })

abbrev pub unlock : M (Unit {0})
unlock = modify (λ w. record w { state_locked = false })

-- Total correctness of a call: it returns, and `P` holds of the result and the world after it.
abbrev pub Returns : {A : Type 0} → (A → World → Type 0) → Outcome A → Type 0
Returns P (returned a w) = P a w
Returns P (thrown e w) = ⊥
Returns P waiting = ⊥
Returns P fault = ⊥
