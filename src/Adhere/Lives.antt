-- ===== src/Adhere/Lives.antt =====
-- The operations of the `adhereTo` objects of src/managedPtr.h on a chunk in RAM, one by one.
use rambrain_uwp.Prelude.{
  ℕ, ◌+◌, ◌^◌, ◌≡◌, ◌<◌, inl, inr, refl, true, false, arith, subst, List, [], ◌∷◌, ◌++◌, ◌==◌, ltb,
  if◌then◌else◌, Bool-cases,
}
use rambrain_uwp.Chunk.{mem_allocated_inuse_read, mem_allocated_inuse_write, has_flag, is}
use rambrain_uwp.World.{World}
use rambrain_uwp.Outcome.{Returns, returned}
use rambrain_uwp.Manager.{Backend, status_of, unset_use}
use rambrain_uwp.Manager.Mode.{Off, IsCalm}
use rambrain_uwp.Manager.Use.{IsQuiet, IsAllocated}
use rambrain_uwp.Adhere.{
  Adherence, loaded, pull_const, pull, copy_adherence, assign_adherence, let_go, await,
  get_const_loc_ptr, get_loc_ptr, set_use_once, use_again,
}
use rambrain_uwp.Adhere.Held.{
  IsHeld, set_use-IsHeld, once-IsHeld, unset_use-IsHeld, release_once, Returns-returned,
  allocated_flag, old_reader, old_writer, new_reader, new_writer,
}

abbrev pub total : List Adherence → ℕ
total [] = 0
total (a ∷ r) = loaded a + total r

pub total-middle :
    (xs : List Adherence) (a : Adherence) (ys : List Adherence)
    → total (xs ++ a ∷ ys) ≡ total xs + (loaded a + total ys)
total-middle [] a ys = omega arith
total-middle (x ∷ xs) a ys = omega (arith, total-middle xs a ys)

-- The uses of the chunk at `k` are those that the objects hold: it is in RAM, in use exactly while
module _ (b : Backend) (fuel k : ℕ) (touch_quiet : IsQuiet (b.touch k))
    (invalidate_quiet : IsQuiet (b.invalidate_cache_for k)) where
  await-there : (w : World) → IsAllocated (status_of w k) → await b fuel k w ≡ returned tt w
  unfolding await
  await-there w t = let flag = allocated_flag (status_of w k) t in rw flag refl

  get_const-there :
      (w : World)
      → IsAllocated (status_of w k)
      → get_const_loc_ptr b fuel k w ≡ returned (w.chunks k).loc_ptr w
  unfolding get_const_loc_ptr
  get_const-there w t =
      let done = await-there w t in
      elim (Bool-cases (has_flag (status_of w k) mem_allocated_inuse_read)) [
        | inl x ↦ rw x refl
        | inr x ↦ rw (x, done) refl
      ]

  get-there :
      (w : World)
      → IsAllocated (status_of w k)
      → get_loc_ptr b fuel k w ≡ returned (w.chunks k).loc_ptr w
  unfolding get_loc_ptr
  get-there w t =
      let done = await-there w t in
      elim (Bool-cases (is (status_of w k) mem_allocated_inuse_write)) [
        | inl x ↦ rw x refl
        | inr x ↦ rw (x, done) refl
      ]

  -- Pulling a pointer, for reading and for writing: the object holds the use from then on, and the
  -- result is the chunk's address, or NULL for a pointer to no elements.
  abbrev pub Pulled : Adherence → (n : ℕ) → Adherence × ℕ → World → Type 0
  Pulled a n r v =
      (r.0.on ≡ a.on)
      × IsHeld k (n + loaded r.0) v
      × (r.1 ≡ (if a.on.n_elem == 0 then 0 else (v.chunks k).loc_ptr))
      × ((a.on.n_elem == 0) ≡ true → r.0 ≡ a)

  pub pull_const-Pulled :
      (a : Adherence) (n : ℕ) (w : World)
      → a.on.chunk ≡ k
      → n + loaded a + 1 < 2 ^ 16
      → IsHeld k (n + loaded a) w
      → Returns (Pulled a n) (pull_const b fuel a w)
  unfolding pull_const set_use_once
  pull_const-Pulled a n w e lt h = elim (Bool-cases (a.on.n_elem == 0)) [
    | inl x ↦ rw x (refl, h, rw x refl, λ _. refl)
    | inr x ↦ elim (Bool-cases a.loaded_readable) [
      | inl y ↦
          let got = get_const-there w h.there in
          rw (x, y, e, got)
            (
              refl,
              subst (λ m. IsHeld k m w) (old_reader a n y) h,
              rw x refl,
              λ z. absurd (ground (arith, x, z)),
            )
      | inr y ↦
          let (v, set, held, _) =
            set_use-IsHeld b fuel k touch_quiet invalidate_quiet false (n + loaded a) w lt h in
          let got = get_const-there v held.there in
          rw (x, y, e, set, got)
            (
              refl,
              subst (λ m. IsHeld k m v) (new_reader a n y) held,
              rw x refl,
              λ z. absurd (ground (arith, x, z)),
            )
    ]
  ]

  pub pull-Pulled :
      (a : Adherence) (n : ℕ) (w : World)
      → a.on.chunk ≡ k
      → n + loaded a + 1 < 2 ^ 16
      → IsHeld k (n + loaded a) w
      → Returns (Pulled a n) (pull b fuel a w)
  unfolding pull set_use_once
  pull-Pulled a n w e lt h = elim (Bool-cases (a.on.n_elem == 0)) [
    | inl x ↦ rw x (refl, h, rw x refl, λ _. refl)
    | inr x ↦ elim (Bool-cases a.loaded_writable) [
      | inl y ↦
          let got = get-there w h.there in
          rw (x, y, e, got)
            (
              refl,
              subst (λ m. IsHeld k m w) (old_writer a n y) h,
              rw x refl,
              λ z. absurd (ground (arith, x, z)),
            )
      | inr y ↦
          let (v, set, held, _) =
            set_use-IsHeld b fuel k touch_quiet invalidate_quiet true (n + loaded a) w lt h in
          let got = get-there v held.there in
          rw (x, y, e, set, got)
            (
              refl,
              subst (λ m. IsHeld k m v) (new_writer a n y) held,
              rw x refl,
              λ z. absurd (ground (arith, x, z)),
            )
    ]
  ]

  -- A use that is set again if it was set, for writing in any case.
  -- The copy constructor sets the uses again.
  pub copy-IsHeld :
      (a : Adherence) (n : ℕ) (w : World)
      → a.on.chunk ≡ k
      → n + loaded a < 2 ^ 16
      → IsHeld k n w
      → Returns
          (λ r v.
            (r ≡ a)
            × IsHeld k (n + loaded a) v
            × (a.loaded_readable ≡ true → status_of v k ≡ mem_allocated_inuse_write))
          (copy_adherence b fuel a w)
  unfolding copy_adherence use_again
  copy-IsHeld a n w e lt h =
      let one : ℕ = if a.loaded_writable then 1 else 0 in
      let (v, s, held, _) =
        once-IsHeld b fuel k touch_quiet invalidate_quiet a.loaded_writable n w (omega arith) h in
      let (u, s', held', writes) =
        once-IsHeld b fuel k touch_quiet invalidate_quiet a.loaded_readable (n + one) v
          (omega arith) held in
      rw (e, s, s') (refl, subst (λ m. IsHeld k m u) (omega arith) held', writes)

  module _ (calm : IsCalm b k) where
    -- The destructor gives the uses back.
    pub let_go-IsHeld :
        (a : Adherence) (n : ℕ) (w : World)
        → a.on.chunk ≡ k
        → ((a.on.n_elem == 0) ≡ true → loaded a ≡ 0)
        → Off w
        → IsHeld k (n + loaded a) w
        → Returns (λ _ v. IsHeld k n v) (let_go b fuel a w)
    unfolding let_go
    let_go-IsHeld a n w e empty off h = elim (Bool-cases (ltb 0 (loaded a))) [
      | inl x ↦ elim (Bool-cases (a.on.n_elem == 0)) [
        | inl y ↦ (let z = empty y in absurd (ground (arith, x, z)))
        | inr y ↦
            let (r, u, done, q) = Returns-returned (unset_use b fuel k (loaded a) w) (
              unset_use-IsHeld b fuel k touch_quiet invalidate_quiet calm n (loaded a) w
                (ground (arith, x)) off h) in
            rw (x, y, e, done) q.1
      ]
      | inr x ↦
          let none_held : loaded a ≡ 0 = ground (arith, x) in
          rw x (subst (λ m. IsHeld k m w) (omega (arith, none_held)) h)
    ]

    -- The assignment gives the uses of the one object back and sets those of the other again.
    pub assign-IsHeld :
        (a ref : Adherence) (n : ℕ) (w : World)
        → a.on.chunk ≡ k
        → ref.on.chunk ≡ k
        → n + loaded ref < 2 ^ 16
        → Off w
        → IsHeld k (n + loaded a) w
        → Returns (λ r v. (r ≡ ref) × IsHeld k (n + loaded ref) v) (assign_adherence b fuel a ref w)
    unfolding assign_adherence use_again
    assign-IsHeld a ref n w e e' lt off h =
        let one : ℕ = if a.loaded_writable then 1 else 0 in
        let both = subst (λ m. IsHeld k m w) (omega arith) h in
        let (v, s, still, held) =
          release_once b fuel k touch_quiet invalidate_quiet calm a.loaded_readable (n + one) w off
            both in
        let (u, s', _, held') =
          release_once b fuel k touch_quiet invalidate_quiet calm a.loaded_writable n v still
            held in
        let more : ℕ = if ref.loaded_writable then 1 else 0 in
        let (t, s2, held2, _) =
          once-IsHeld b fuel k touch_quiet invalidate_quiet ref.loaded_writable n u (omega arith)
            held' in
        let (r, s3, held3, _) =
          once-IsHeld b fuel k touch_quiet invalidate_quiet ref.loaded_readable (n + more) t
            (omega arith) held2 in
        rw (e, e', s, s', s2, s3) (refl, subst (λ m. IsHeld k m r) (omega arith) held3)
