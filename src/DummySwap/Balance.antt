-- ===== src/DummySwap/Balance.antt =====
-- The accounts of src/managedDummySwap.cpp and the data that it keeps.
use rambrain_uwp.Prelude.{
  ℕ, ◌+◌, ◌≡◌, ◌≢◌, ◌<◌, ◌≤◌, refl, arith, List, [], ◌∷◌, take, u64_mod, add64, sub64, add64_lem,
  zero, suc, ap,
}
use rambrain_uwp.Chunk.{mem_allocated}
use rambrain_uwp.World.{World, claim_usage_of}
use rambrain_uwp.DummySwap.{swap_out, swap_in, swap_out_all}

take-take {ℓ} : {A : Type ℓ} (n : ℕ) (xs : List A) → take n (take n xs) ≡ take n xs
take-take zero xs = refl
take-take (suc n) [] = refl
take-take (suc n) (x ∷ xs) = ap (◌∷◌ x) (take-take n xs)

-- The counters of a swap: what is used and what is free make up its size; and RAM in use together with
-- swap in use is `total`.
pub record IsBalanced (total : ℕ) (w : World) : Type 0 where
  pub swap : w.swap_used + w.swap_free ≡ w.swap_size
  pub swapped : w.memory_swapped ≡ w.swap_used
  pub total_kept : w.memory_used + w.swap_used ≡ total
  pub in_range : total + w.swap_size < u64_mod

-- The chunk's bytes are counted as RAM in use.
abbrev pub IsHeld : ℕ → World → Type 0
IsHeld k w = ((w.chunks k).size ≤ w.memory_used)

-- `swapOut` keeps balanced accounts balanced, whether it succeeds or finds no room or no buffer, if
-- the chunk's bytes are counted as RAM in use.
pub swap_out-IsBalanced :
    (total buf k : ℕ) (w : World)
    → IsBalanced total w
    → IsHeld k w
    → IsBalanced total (swap_out buf k w).0
unfolding swap_out claim_usage_of add64 sub64
swap_out-IsBalanced total buf k w b h = ground arith

-- A chunk that is swapped out and in again is as it was: its bytes stand in its new buffer, it is
-- allocated, and all counters are back. This holds for balanced accounts that count the chunk, with
-- room in the swap and if both buffers can be allocated.
pub swap_in-swap_out :
    (total buf buf' k : ℕ) (w : World)
    → IsBalanced total w
    → IsHeld k w
    → (w.chunks k).size ≤ w.swap_free
    → buf ≢ 0
    → buf' ≢ 0
    → let v = (swap_out buf k w).0 in
      let u = (swap_in buf' k v).0 in
      ((u.chunks k).loc_ptr ≡ buf')
      × ((u.chunks k).status ≡ mem_allocated)
      × (u.buffers buf' ≡ take (w.chunks k).size (w.buffers (w.chunks k).loc_ptr))
      × (u.memory_used ≡ w.memory_used)
      × (u.memory_swapped ≡ w.memory_swapped)
      × (u.swap_used ≡ w.swap_used)
      × (u.swap_free ≡ w.swap_free)
unfolding swap_out swap_in claim_usage_of add64 sub64
swap_in-swap_out total buf buf' k w b h room got got' =
    ground (arith, take-take (w.chunks k).size (w.buffers (w.chunks k).loc_ptr))

-- The bytes of the listed chunks.
abbrev pub sizes : List (ℕ × ℕ) → World → ℕ
sizes [] w = 0
sizes ((buf, k) ∷ l) w = (w.chunks k).size + sizes l w

size-swap_out : (buf k j : ℕ) (w : World) → ((swap_out buf k w).0.chunks j).size ≡ (w.chunks j).size
unfolding swap_out claim_usage_of
size-swap_out buf k j w = ground arith

sizes-swap_out :
    (buf k : ℕ) (l : List (ℕ × ℕ)) (w : World) → sizes l (swap_out buf k w).0 ≡ sizes l w
sizes-swap_out buf k [] w = refl
sizes-swap_out buf k ((b, j) ∷ l) w =
    ground (arith, size-swap_out buf k j w, sizes-swap_out buf k l w)

-- What is returned is what RAM has won.
swap_out_amount :
    (total buf k : ℕ) (w : World)
    → IsBalanced total w
    → IsHeld k w
    → ((swap_out buf k w).0.memory_used + (swap_out buf k w).1 ≡ w.memory_used)
      × ((swap_out buf k w).1 ≤ (w.chunks k).size)
unfolding swap_out claim_usage_of add64 sub64
swap_out_amount total buf k w b h = ground arith

-- Swapping out a list of chunks keeps the accounts, and the number of bytes that it returns is the
-- number by which the RAM in use has fallen, if the listed chunks' bytes are counted.
pub swap_out_all-IsBalanced :
    (total : ℕ) (l : List (ℕ × ℕ)) (w : World)
    → IsBalanced total w
    → sizes l w ≤ w.memory_used
    → IsBalanced total (swap_out_all l w).0
      × ((swap_out_all l w).0.memory_used + (swap_out_all l w).1 ≡ w.memory_used)
unfolding swap_out_all
swap_out_all-IsBalanced total [] w b h = (b, omega arith)
swap_out_all-IsBalanced total ((buf, k) ∷ l) w b h =
    let v = (swap_out buf k w).0 in
    let kept = swap_out-IsBalanced total buf k w b (omega arith) in
    let won = swap_out_amount total buf k w b (omega arith) in
    let rest = swap_out_all-IsBalanced total l v kept (omega (arith, sizes-swap_out buf k l w)) in
    let sum = add64_lem (swap_out buf k w).1 (swap_out_all l v).1 (omega arith) in
    (rest.0, omega (arith, sum))
