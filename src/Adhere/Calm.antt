-- ===== src/Adhere/Calm.antt =====
-- The operations of the `adhereTo` objects of src/managedPtr.h do not turn preemptive swapping out on.
use rambrain_uwp.Prelude.{ℕ, zero, suc, Bool, true, false, not, ◌&&◌, ◌==◌, ltb}
use rambrain_uwp.Chunk.{
  mem_allocated, mem_allocated_inuse_read, mem_allocated_inuse_write, has_flag, is,
}
use rambrain_uwp.Outcome.{M}
use rambrain_uwp.Manager.{Backend, status_of, wait_for_swapin, prepare_use, set_use, unset_use}
use rambrain_uwp.Manager.Mode.{
  Calm, and_then-StaysOff, if-StaysOff, if-Calm, IsCalm, wait_for_swapin-Calm, prepare_use-Calm,
  set_use-Calm, unset_use-Calm,
}
use rambrain_uwp.Pointer.{Pointer}
use rambrain_uwp.Adhere.{
  Adherence, loaded, adhere, pull_const, pull, use_again, copy_adherence, assign_adherence, let_go,
  await, insist, get_const_loc_ptr, get_loc_ptr, set_use_once, unless,
}

unless-Calm : (c : Bool) (m : M Bool) → Calm m → Calm (unless c m)
unless-Calm true m h w off = off
unless-Calm false m h w off = and_then-StaysOff (m w) _ (h w off) (λ r v x. x)

module _ (b : Backend) (fuel : ℕ) where
  module _ (k : ℕ) (calm : IsCalm b k) where
    insist-Calm : (r : ℕ) → Calm (insist b fuel r k)
    unfolding insist
    insist-Calm zero w h = tt
    insist-Calm (suc r) w h =
        and_then-StaysOff (wait_for_swapin b fuel k true w) _
          (wait_for_swapin-Calm b fuel k calm w h)
          (λ there. if-Calm there _ _ (λ v x. x) (insist-Calm r))

    await-Calm : Calm (await b fuel k)
    unfolding await
    await-Calm w h = if-StaysOff (has_flag (status_of w k) mem_allocated) _ _ h (
        and_then-StaysOff (insist b fuel fuel k (record w { state_locked = true })) _
          (insist-Calm fuel (record w { state_locked = true }) h) (λ r v x. x))

    set_use_once-Calm : (tracker writable : Bool) → Calm (set_use_once b fuel tracker k writable)
    unfolding set_use_once
    set_use_once-Calm true writable w h =
        and_then-StaysOff (await b fuel k w) _ (await-Calm w h) (λ r v x. x)
    set_use_once-Calm false writable w h = set_use-Calm b fuel k calm writable w h

    get_const-Calm : Calm (get_const_loc_ptr b fuel k)
    unfolding get_const_loc_ptr
    get_const-Calm w h =
        if-Calm (has_flag (status_of w k) mem_allocated_inuse_read) _ _ (λ v x. x)
          (λ v x. and_then-StaysOff (await b fuel k v) _ (await-Calm v x) (λ r u y. y)) w h

    get-Calm : Calm (get_loc_ptr b fuel k)
    unfolding get_loc_ptr
    get-Calm w h =
        if-Calm (is (status_of w k) mem_allocated_inuse_write) _ _ (λ v x. x)
          (λ v x. and_then-StaysOff (await b fuel k v) _ (await-Calm v x) (λ r u y. y)) w h

  pub adhere-Calm : (p : Pointer) (load : Bool) → IsCalm b p.chunk → Calm (adhere b fuel p load)
  unfolding adhere
  adhere-Calm p load calm =
      if-Calm (load && not (p.n_elem == 0)) _ _
        (λ w h.
          and_then-StaysOff (prepare_use b fuel p.chunk true w) _
            (prepare_use-Calm b fuel p.chunk calm true w h) (λ r v x. x))
        (λ w h. h)

  pub pull_const-Calm : (a : Adherence) → IsCalm b a.on.chunk → Calm (pull_const b fuel a)
  unfolding pull_const
  pull_const-Calm a calm =
      let k = a.on.chunk in
      if-Calm (a.on.n_elem == 0) _ _ (λ w h. h)
        (λ w h.
          and_then-StaysOff
            (unless a.loaded_readable (set_use_once b fuel a.loaded_readable k false) w) _
            (unless-Calm a.loaded_readable _ (set_use_once-Calm k calm a.loaded_readable false) w h)
            (λ r v x.
              and_then-StaysOff (get_const_loc_ptr b fuel k v) _ (get_const-Calm k calm v x)
                (λ l u y. y)))

  pub pull-Calm : (a : Adherence) → IsCalm b a.on.chunk → Calm (pull b fuel a)
  unfolding pull
  pull-Calm a calm =
      let k = a.on.chunk in
      if-Calm (a.on.n_elem == 0) _ _ (λ w h. h)
        (λ w h.
          and_then-StaysOff
            (unless a.loaded_writable (set_use_once b fuel a.loaded_writable k true) w) _
            (unless-Calm a.loaded_writable _ (set_use_once-Calm k calm a.loaded_writable true) w h)
            (λ r v x.
              and_then-StaysOff (get_loc_ptr b fuel k v) _ (get-Calm k calm v x) (λ l u y. y)))

  use_again-Calm : (a : Adherence) → IsCalm b a.on.chunk → Calm (use_again b fuel a)
  unfolding use_again
  use_again-Calm a calm w h =
      let k = a.on.chunk in
      and_then-StaysOff (unless (not a.loaded_writable) (set_use b fuel k a.loaded_writable) w) _
        (unless-Calm (not a.loaded_writable) _ (set_use-Calm b fuel k calm a.loaded_writable) w h)
        (λ r. unless-Calm (not a.loaded_readable) _ (set_use-Calm b fuel k calm a.loaded_readable))

  pub copy-Calm : (a : Adherence) → IsCalm b a.on.chunk → Calm (copy_adherence b fuel a)
  unfolding copy_adherence
  copy-Calm a calm w h =
      and_then-StaysOff (use_again b fuel a w) _ (use_again-Calm a calm w h) (λ r v x. x)

  pub assign-Calm :
      (a ref : Adherence)
      → IsCalm b a.on.chunk
      → IsCalm b ref.on.chunk
      → Calm (assign_adherence b fuel a ref)
  unfolding assign_adherence
  assign-Calm a ref calm calm' w h =
      let k = a.on.chunk in
      and_then-StaysOff (unless (not a.loaded_readable) (unset_use b fuel k 1) w) _
        (unless-Calm (not a.loaded_readable) _ (unset_use-Calm b fuel k calm 1) w h)
        (λ r v x.
          and_then-StaysOff (unless (not a.loaded_writable) (unset_use b fuel k 1) v) _
            (unless-Calm (not a.loaded_writable) _ (unset_use-Calm b fuel k calm 1) v x)
            (λ r u y.
              and_then-StaysOff (use_again b fuel ref u) _ (use_again-Calm ref calm' u y)
                (λ r t z. z)))

  pub let_go-Calm : (a : Adherence) → IsCalm b a.on.chunk → Calm (let_go b fuel a)
  unfolding let_go
  let_go-Calm a calm =
      if-Calm (ltb 0 (loaded a) && not (a.on.n_elem == 0)) _ _
        (λ w h.
          and_then-StaysOff (unset_use b fuel a.on.chunk (loaded a) w) _
            (unset_use-Calm b fuel a.on.chunk calm (loaded a) w h) (λ r v x. x))
        (λ w h. h)
