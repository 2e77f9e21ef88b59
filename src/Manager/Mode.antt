-- ===== src/Manager/Mode.antt =====
-- Preemptive swapping out, once off, stays off: no operation of src/managedMemory.cpp on the use of chunks
-- turns it on. While it is off, `untouch` of src/cyclicManagedMemory.cpp returns at once.
use rambrain_uwp.Prelude.{ℕ, zero, suc, ◌≡◌, Bool, true, false, ◌||◌, ◌==◌, ltb, if◌then◌else◌}
use rambrain_uwp.Chunk.{
  MemoryStatus, mem_root, mem_allocated_inuse_read, mem_allocated_inuse_write, mem_allocated_inuse,
  mem_allocated, mem_swapped, mem_swapin, mem_swapout, has_flag, is,
}
use rambrain_uwp.World.{World, put_status}
use rambrain_uwp.Outcome.{Outcome, M, returned, thrown, waiting, fault, and_then, pure, ◌>>◌}
use rambrain_uwp.Manager.{
  Backend, status_of, wait_while, wait_for_swapin, wait_for_swapout, prepare_use, prepare_case,
  prepare_swapped, set_use, unset_use, use_case, use_swapped, use_swapin, use_allocated, use_in_use,
  use_written, drop_if, count_use, drop_uses,
}

abbrev pub Off : World → Type 0
Off w = w.preemtive_swap_out ≡ false

abbrev pub StaysOff : {A : Type 0} → Outcome A → Type 0
StaysOff (returned a v) = Off v
StaysOff (thrown e v) = Unit
StaysOff waiting = Unit
StaysOff fault = Unit

abbrev pub Calm : {A : Type 0} → M A → Type 0
Calm m = (w : World) → Off w → StaysOff (m w)

pub and_then-StaysOff :
    {A B : Type 0} (o : Outcome A) (f : A → M B)
    → StaysOff o
    → ((a : A) → Calm (f a))
    → StaysOff (and_then o f)
and_then-StaysOff (returned a v) f h g = g a v h
and_then-StaysOff (thrown e v) f h g = tt
and_then-StaysOff waiting f h g = tt
and_then-StaysOff fault f h g = tt

pub if-StaysOff :
    {A : Type 0} (c : Bool) (o p : Outcome A)
    → StaysOff o
    → StaysOff p
    → StaysOff (if c then o else p)
if-StaysOff true o p a b = a
if-StaysOff false o p a b = b

either :
    {A : Type 0} (c : Bool) (o p : Outcome A)
    → StaysOff o
    → StaysOff p
    → StaysOff (elim c [ true ↦ o | false ↦ p ])
either true o p a b = a
either false o p a b = b

pub if-Calm : {A : Type 0} (c : Bool) (m n : M A) → Calm m → Calm n → Calm (if c then m else n)
if-Calm true m n a b = a
if-Calm false m n a b = b

-- What the operations assume of the scheduler and the swap.
pub record IsCalm (b : Backend) (k : ℕ) : Type 0 where
  pub touch : (w : World) → Off w → Off (b.touch k w)
  pub invalidate : (w : World) → Off w → Off (b.invalidate_cache_for k w)
  pub waits : (w : World) → Off w → Off (b.wait_for_aio w)
  pub swap_in : Calm (b.swap_in k)
  pub untouch : (w : World) → Off w → b.untouch k w ≡ returned tt w

module _ (b : Backend) (fuel k : ℕ) (calm : IsCalm b k) where
  wait_while-Calm : (f : ℕ) (s : MemoryStatus) → Calm (wait_while b fuel f s k)
  unfolding wait_while
  wait_while-Calm zero s w h = tt
  wait_while-Calm (suc f) s w h =
      either (is (status_of w k) s) (wait_while b fuel f s k (b.wait_for_aio w)) (returned tt w)
        (wait_while-Calm f s (b.wait_for_aio w) (calm.waits w h)) h

  pub wait_for_swapin-Calm : Calm (wait_for_swapin b fuel k true)
  unfolding wait_for_swapin
  wait_for_swapin-Calm w h =
      if-StaysOff (is (status_of w k) mem_swapout || is (status_of w k) mem_swapped) _ _ h (
        and_then-StaysOff (wait_while b fuel fuel mem_swapin k w) _
          (wait_while-Calm fuel mem_swapin w h) (λ u v g. g))

  wait_for_swapout-Calm : Calm (wait_for_swapout b fuel k true)
  unfolding wait_for_swapout
  wait_for_swapout-Calm w h =
      if-StaysOff (is (status_of w k) mem_swapin || has_flag (status_of w k) mem_allocated) _ _ h (
        and_then-StaysOff (wait_while b fuel fuel mem_swapout k w) _
          (wait_while-Calm fuel mem_swapout w h) (λ u v g. g))

  prepare_swapped-Calm : (acquire : Bool) → Calm (prepare_swapped b fuel k acquire)
  unfolding prepare_swapped
  prepare_swapped-Calm true w h =
      and_then-StaysOff (b.swap_in k w) _ (calm.swap_in w h) (λ d v g. g)
  prepare_swapped-Calm false w h =
      and_then-StaysOff (b.swap_in k w) _ (calm.swap_in w h) (λ d v g. g)

  dropped-Calm : (acquire : Bool) → Calm (do drop_if acquire; pure true)
  dropped-Calm true w h = h
  dropped-Calm false w h = h

  prepare_case-Calm : (s : MemoryStatus) (acquire : Bool) → Calm (prepare_case b fuel s k acquire)
  unfolding prepare_case
  prepare_case-Calm mem_swapout acquire w h =
      and_then-StaysOff (wait_for_swapout b fuel k true w) _ (wait_for_swapout-Calm w h)
        (λ out. if-Calm out _ _ (prepare_swapped-Calm acquire) (dropped-Calm acquire))
  prepare_case-Calm mem_swapped acquire w h = prepare_swapped-Calm acquire w h
  prepare_case-Calm mem_swapin acquire w h = dropped-Calm acquire w h
  prepare_case-Calm mem_root acquire w h = dropped-Calm acquire w h
  prepare_case-Calm mem_allocated acquire w h = dropped-Calm acquire w h
  prepare_case-Calm mem_allocated_inuse acquire w h = dropped-Calm acquire w h
  prepare_case-Calm mem_allocated_inuse_read acquire w h = dropped-Calm acquire w h
  prepare_case-Calm mem_allocated_inuse_write acquire w h = dropped-Calm acquire w h

  pub prepare_use-Calm : (acquire : Bool) → Calm (prepare_use b fuel k acquire)
  unfolding prepare_use
  prepare_use-Calm true w h =
      prepare_case-Calm (status_of w k) true (record w { state_locked = true }) h
  prepare_use-Calm false w h = prepare_case-Calm (status_of w k) false w h

  use_written-Calm : Calm (use_written b fuel k)
  unfolding use_written
  use_written-Calm w h = calm.touch w h

  use_in_use-Calm : (write : Bool) → Calm (use_in_use b fuel k write)
  unfolding use_in_use
  use_in_use-Calm true w h =
      let v = put_status w k mem_allocated_inuse_write in
      use_written-Calm (b.invalidate_cache_for k v) (calm.invalidate v h)
  use_in_use-Calm false w h = use_written-Calm w h

  use_allocated-Calm : (write : Bool) → Calm (use_allocated b fuel k write)
  unfolding use_allocated
  use_allocated-Calm write w h = use_in_use-Calm write (put_status w k mem_allocated_inuse_read) h

  use_swapin-Calm : (write : Bool) → Calm (use_swapin b fuel k write)
  unfolding use_swapin
  use_swapin-Calm write w h =
      and_then-StaysOff (wait_for_swapin b fuel k true w) _ (wait_for_swapin-Calm w h) (λ there v g.
        if-Calm (there || has_flag (status_of v k) mem_allocated) _ _ (use_allocated-Calm write)
          (λ u x. x) v g)

  use_swapped-Calm : (write : Bool) → Calm (use_swapped b fuel k write)
  unfolding use_swapped
  use_swapped-Calm write w h =
      and_then-StaysOff (prepare_use b fuel k false w) _ (prepare_use-Calm false w h)
        (λ done. if-Calm done _ _ (use_swapin-Calm write) (λ u x. x))

  use_case-Calm : (s : MemoryStatus) (write : Bool) → Calm (use_case b fuel s k write)
  unfolding use_case
  use_case-Calm mem_swapout write w h = use_swapped-Calm write w h
  use_case-Calm mem_swapped write w h = use_swapped-Calm write w h
  use_case-Calm mem_swapin write w h = use_swapin-Calm write w h
  use_case-Calm mem_allocated write w h = use_allocated-Calm write w h
  use_case-Calm mem_allocated_inuse write w h = use_in_use-Calm write w h
  use_case-Calm mem_allocated_inuse_read write w h = use_in_use-Calm write w h
  use_case-Calm mem_allocated_inuse_write write w h = use_written-Calm w h
  use_case-Calm mem_root write w h = h

  pub set_use-Calm : (write : Bool) → Calm (set_use b fuel k write)
  unfolding set_use
  set_use-Calm write w h =
      let v = count_use k (record w { state_locked = true }) in
      use_case-Calm (status_of v k) write v h

  pub unset_use-Calm : (n : ℕ) → Calm (unset_use b fuel k n)
  unfolding unset_use
  unset_use-Calm n w h =
      if-Calm (n == 0) _ _ (λ u x. tt)
        (if-Calm (ltb (w.chunks k).use_cnt n) _ _ (λ u x. tt)
          (λ u x.
            and_then-StaysOff (b.untouch k (drop_uses k n u)) _
              (rw (calm.untouch (drop_uses k n u) x) x) (λ t y g. g)))
        (record w { state_locked = true }) h
