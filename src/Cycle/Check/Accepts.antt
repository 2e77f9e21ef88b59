-- ===== src/Cycle/Check/Accepts.antt =====
-- What `checkCycle` of src/cyclicManagedMemory.cpp has established of a ring when it returns true.
use rambrain_uwp.Prelude.{
  ℕ, zero, suc, ◌+◌, ◌%◌, ◌^◌, ◌≡◌, Bool, true, false, ◌&&◌, ◌||◌, not, List, [], ◌∷◌, ◌++◌, some,
  ◌==◌, if◌then◌else◌, length, add64, arith, refl, ◌∙◌, ap, sym, subst, Option-cases, inl, inr,
  Bool-cases,
}
use rambrain_uwp.Chunk.{
  MemoryStatus, mem_root, mem_allocated_inuse_read, mem_allocated_inuse_write, mem_allocated_inuse,
  mem_allocated, mem_swapped, mem_swapin, mem_swapout, has_flag, is,
}
use rambrain_uwp.Links.{Chain}
use rambrain_uwp.World.{World}
use rambrain_uwp.Cycle.{status_at}
use rambrain_uwp.Cycle.Check.{
  Walk, add_bytes, check_section, walk_step, walk_ring, check_preemptives, claims_agree, walk_start,
  check_cycle,
}

abbrev pub is_in_ram : MemoryStatus → Bool
is_in_ram s = has_flag s mem_allocated || is s mem_swapin

abbrev pub counts_as_used : MemoryStatus → Bool
counts_as_used s = is_in_ram s || is s mem_swapout

abbrev pub is_on_swap : MemoryStatus → Bool
is_on_swap s = is s mem_swapped || is s mem_swapin || is s mem_swapout

-- `n` and the sizes of the chunks of the elements `xs` whose status is as asked.
abbrev pub bytes_of : (MemoryStatus → Bool) → World → ℕ → List ℕ → ℕ
bytes_of p w n [] = n
bytes_of p w n (x ∷ xs) =
    bytes_of p w (if p (status_at w x) then add64 n (w.chunks (w.chunk_of x)).size else n) xs

step-memerror :
    (w : World) (cur : ℕ) (s : Walk)
    → (walk_step w cur s).memerror ≡ false
    → (s.memerror ≡ false) × (w.links.prev (w.links.next cur) ≡ cur)
unfolding walk_step check_section add_bytes
step-memerror w cur s h = ground arith

-- The elements `xs` that the walk meets after `cur`, with what it has added up on them.
abbrev pub Met : World → (cur : ℕ) → (s t : Walk) → List ℕ → Type 0
Met w cur s t xs =
    let met = xs ++ w.active ∷ [] in
    Chain w.links cur xs w.active
    × (t.encountered ≡ (s.encountered + length met) % 2 ^ 32)
    × (t.used_bytes ≡ bytes_of counts_as_used w s.used_bytes met)
    × (t.swapped_bytes ≡ bytes_of is_on_swap w s.swapped_bytes met)
    × (t.tobef ≡ bytes_of (λ q. is q mem_swapout) w s.tobef met)

section-adds :
    (w : World) (cur : ℕ) (s : Walk)
    → let t = check_section w cur s in
      (t.encountered ≡ s.encountered)
      × (t.used_bytes ≡ s.used_bytes)
      × (t.swapped_bytes ≡ s.swapped_bytes)
      × (t.tobef ≡ s.tobef)
unfolding check_section
section-adds w cur s = ground arith

is_in_ram-swapout : (s : MemoryStatus) → (not (is_in_ram s) && is s mem_swapout) ≡ is s mem_swapout
unfolding has_flag is
is_in_ram-swapout mem_root = refl
is_in_ram-swapout mem_allocated_inuse_read = refl
is_in_ram-swapout mem_allocated_inuse_write = refl
is_in_ram-swapout mem_allocated_inuse = refl
is_in_ram-swapout mem_allocated = refl
is_in_ram-swapout mem_swapped = refl
is_in_ram-swapout mem_swapin = refl
is_in_ram-swapout mem_swapout = refl

add_bytes-adds :
    (w : World) (x : ℕ) (s : Walk)
    → let t = add_bytes w x s in
      (t.encountered ≡ s.encountered)
      × (t.used_bytes ≡ bytes_of counts_as_used w s.used_bytes (x ∷ []))
      × (t.swapped_bytes ≡ bytes_of is_on_swap w s.swapped_bytes (x ∷ []))
      × (t.tobef ≡ bytes_of (λ q. is q mem_swapout) w s.tobef (x ∷ []))
unfolding add_bytes
add_bytes-adds w x s = (refl, refl, refl, rw (is_in_ram-swapout (status_at w x)) refl)

step-adds :
    (w : World) (cur : ℕ) (s : Walk)
    → let t = walk_step w cur s in
      let x = w.links.next cur in
      (t.encountered ≡ (s.encountered + 1) % 2 ^ 32)
      × (t.used_bytes ≡ bytes_of counts_as_used w s.used_bytes (x ∷ []))
      × (t.swapped_bytes ≡ bytes_of is_on_swap w s.swapped_bytes (x ∷ []))
      × (t.tobef ≡ bytes_of (λ q. is q mem_swapout) w s.tobef (x ∷ []))
unfolding walk_step
step-adds w cur s =
    let x = w.links.next cur in
    let seen = record s {
      encountered = (s.encountered + 1) % 2 ^ 32;
      has_preemptives = s.has_preemptives || (w.chunks (w.chunk_of x)).preemptive_loaded;
    } in
    let u = add_bytes w x seen in
    let v = record u { memerror = u.memerror || not (cur == w.links.prev x) } in
    let a = add_bytes-adds w x seen in
    let b = section-adds w cur v in (b.0 ∙ a.0, b.1 ∙ a.1, b.2 ∙ a.2, b.3 ∙ a.3)

-- One more step in front of what has been met.
Met-step :
    (w : World) (cur : ℕ) (s t : Walk) (xs : List ℕ)
    → w.links.prev (w.links.next cur) ≡ cur
    → Met w (w.links.next cur) (walk_step w cur s) t xs
    → Met w cur s t (w.links.next cur ∷ xs)
Met-step w cur s t xs back m =
    let a = step-adds w cur s in
    let met = xs ++ w.active ∷ [] in
    (
      (refl, back, m.0),
      omega (arith, a.0, m.1),
      m.2 ∙ ap (λ n. bytes_of counts_as_used w n met) a.1,
      m.3 ∙ ap (λ n. bytes_of is_on_swap w n met) a.2,
      m.4 ∙ ap (λ n. bytes_of (λ q. is q mem_swapout) w n met) a.3,
    )

Met-last :
    (w : World) (cur : ℕ) (s : Walk)
    → w.links.prev (w.links.next cur) ≡ cur
    → w.links.next cur ≡ w.active
    → Met w cur s (walk_step w cur s) []
Met-last w cur s back e =
    let a = step-adds w cur s in
    let at : (x : ℕ)
        → w.links.next cur ≡ x
        → (w.links.prev x ≡ cur)
          × ((walk_step w cur s).used_bytes ≡ bytes_of counts_as_used w s.used_bytes (x ∷ []))
          × ((walk_step w cur s).swapped_bytes ≡ bytes_of is_on_swap w s.swapped_bytes (x ∷ []))
          × ((walk_step w cur s).tobef ≡ bytes_of (λ q. is q mem_swapout) w s.tobef (x ∷ [])) =
      λ x q. rw (sym q) (back, a.1, a.2, a.3) in
    let b = at w.active e in ((e, b.0), a.0, b.1, b.2, b.3)

walk_ring-Met :
    (f : ℕ) (w : World) (cur : ℕ) (s t : Walk)
    → walk_ring f w cur s ≡ some t
    → t.memerror ≡ false
    → (xs : List ℕ) × Met w cur s t xs × (s.memerror ≡ false)
unfolding walk_ring
walk_ring-Met zero w cur s t h good = ground arith
walk_ring-Met (suc f) w cur s t h good = elim (Bool-cases (w.links.next cur == w.active)) [
  | inl y ↦
      let e : walk_step w cur s ≡ t = ground (arith, h, y) in
      let b = step-memerror w cur s (ap (λ q. q.memerror) e ∙ good) in
      ([], subst (λ q. Met w cur s q []) e (Met-last w cur s b.1 (ground (arith, y))), b.0)
  | inr n ↦
      let r =
        walk_ring-Met f w (w.links.next cur) (walk_step w cur s) t (ground (arith, h, n)) good in
      let b = step-memerror w cur s r.2 in
      (w.links.next cur ∷ r.0, Met-step w cur s t r.0 b.1 r.1, b.0)
]

-- The ring that `checkCycle` has accepted, and what it holds.
abbrev pub IsChecked : World → List ℕ → Type 0
IsChecked w xs =
    let ring = xs ++ w.active ∷ [] in
    Chain w.links w.active xs w.active
    × (length ring % 2 ^ 32 ≡ length w.mem_chunks % 2 ^ 32)
    × (w.memory_used ≡ bytes_of counts_as_used w 0 ring)
    × (w.swap_used ≡ bytes_of is_on_swap w 0 ring)
    × (w.memory_tobefreed ≡ bytes_of (λ q. is q mem_swapout) w 0 ring)

claims_agree-sums :
    (w : World) (s : Walk)
    → claims_agree w s ≡ true
    → (s.used_bytes ≡ w.memory_used)
      × (s.tobef ≡ w.memory_tobefreed)
      × (s.swapped_bytes ≡ w.swap_used)
      × (s.encountered ≡ length w.mem_chunks % 2 ^ 32)
unfolding claims_agree
claims_agree-sums w s h = ground (arith, h)

-- A walk that `checkCycle` accepts has met no error, and agrees with the counters.
check_cycle-walk :
    (fuel : ℕ) (w : World)
    → check_cycle fuel w ≡ some true
    → (w.active == 0) ≡ false
    → (t : Walk) × (walk_ring fuel w w.active (walk_start w) ≡ some t)
      × (t.memerror ≡ false)
      × (claims_agree w t ≡ true)
unfolding check_cycle
check_cycle-walk fuel w h there = elim (Option-cases (walk_ring fuel w w.active (walk_start w))) [
  | inl gone ↦ ground (arith, h, there, gone)
  | inr (t, e) ↦ elim (Option-cases (check_preemptives fuel w t.has_preemptives)) [
    | inl gone ↦ ground (arith, h, there, e, gone)
    | inr (placed, p) ↦ (t, e, ground (arith, h, there, e, p), ground (arith, h, there, e, p))
  ]
]

-- Where `checkCycle` returns true on a ring that is not empty, the elements are linked both ways in one
-- ring from `active` back to `active`, as many as there are chunks (as 32-bit numbers), and the
-- counters of used, swapped and leaving bytes are the sums over them (modulo 2 ^ 64).
pub check_cycle-IsChecked :
    (fuel : ℕ) (w : World)
    → check_cycle fuel w ≡ some true
    → (w.active == 0) ≡ false
    → (xs : List ℕ) × IsChecked w xs
check_cycle-IsChecked fuel w h there =
    let (t, walked, good, agreed) = check_cycle-walk fuel w h there in
    let (xs, m, _) = walk_ring-Met fuel w w.active (walk_start w) t walked good in
    let c = claims_agree-sums w t agreed in
    (xs, (m.0, omega (arith, m.1, c.3), sym c.0 ∙ m.2, sym c.2 ∙ m.3, sym c.1 ∙ m.4))
