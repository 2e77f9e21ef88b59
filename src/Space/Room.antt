-- ===== src/Space/Room.antt =====
-- `ensureEnoughSpace` and `setMemoryLimit` of src/managedMemory.cpp.
use rambrain_uwp.Prelude.{
  ℕ, zero, suc, ◌≡◌, ◌⊎◌, ◌<◌, inl, inr, refl, Bool, true, false, arith, Bool-cases, ◌∙◌,
  if◌then◌else◌, Option, ◌+◌, ◌%◌, ◌≤◌, add64, u64_mod,
}
use Prim.Native.String.{String}
use rambrain_uwp.World.{World}
use rambrain_uwp.Outcome.{Outcome, M, returned, thrown, waiting, fault, and_then, pure}
use rambrain_uwp.Manager.{
  Backend, SwapErrorCode, err_success, err_swapfull, err_morethantotalram, err_notenoughcandidates,
}
use rambrain_uwp.Space.{
  is_there, is_short, is_success, Next, to_wait, restart, make_room, after_next, ensure_round,
  is_short_later, missing, not_swapped, ensure_loop, ensure_enough_space,
}

-- What `ensureEnoughSpace` has established when it returns: either the chunk is in RAM or on its way
-- and the answer is true, or the request and the RAM in use are, modulo 2 ^ 64, within the limit and the
-- answer is false.
abbrev pub RoomFor : ℕ → Option ℕ → Outcome Bool → Type 0
RoomFor sizereq ori (returned r v) =
    ((r ≡ true) × (is_there ori v ≡ true))
    ⊎ ((r ≡ false)
        × (is_there ori v ≡ false)
        × ((sizereq + v.memory_used) % u64_mod ≤ v.memory_max))
RoomFor sizereq ori (thrown e v) = Unit
RoomFor sizereq ori waiting = Unit
RoomFor sizereq ori fault = Unit

and_then-RoomFor :
    {A : Type 0} (sizereq : ℕ) (ori : Option ℕ) (o : Outcome A) (f : A → M Bool)
    → ((a : A) (v : World) → RoomFor sizereq ori (f a v))
    → RoomFor sizereq ori (and_then o f)
and_then-RoomFor s ori (returned a v) f h = h a v
and_then-RoomFor s ori (thrown e v) f h = tt
and_then-RoomFor s ori waiting f h = tt
and_then-RoomFor s ori fault f h = tt

exit-RoomFor :
    (sizereq : ℕ) (ori : Option ℕ) (w : World)
    → is_short sizereq w ≡ false
    → RoomFor sizereq ori (returned (is_there ori w) w)
unfolding add64
exit-RoomFor s ori w fits = elim (Bool-cases (is_there ori w)) [
  | inl there ↦ inl (there, there)
  | inr gone ↦
      (let room : (s + w.memory_used) % u64_mod ≤ w.memory_max = ground (arith, fits) in
        inr (gone, gone, room))
]

-- Why there is no room, for the user.
abbrev pub reason : SwapErrorCode → String
reason err_morethantotalram =
    "Could not swap memory: Object size requested is bigger than actual RAM limits"
reason err_notenoughcandidates = "Could not swap memory: Too much used elements to make room"
reason err_swapfull = "Could not swap memory: Swap is unrecoverably full"
reason err_success = "Could not swap memory, I don't know why"

module _ (b : Backend) (sizereq : ℕ) (ori : Option ℕ) where
  abbrev Continues : (Bool → M Bool) → Type 0
  Continues again = (c : Bool) (v : World) → RoomFor sizereq ori (again c v)

  next-RoomFor :
      (again : Bool → M Bool) (cleaned : Bool)
      → Continues again
      → (n : Next) (v : World) → RoomFor sizereq ori (after_next b sizereq cleaned again n v)
  unfolding after_next
  next-RoomFor again cleaned h restart v = h true v
  next-RoomFor again cleaned h to_wait v = h cleaned _

  round-RoomFor :
      (again : Bool → M Bool) (cleaned : Bool) (w : World)
      → Continues again
      → RoomFor sizereq ori (ensure_round b sizereq ori cleaned again w)
  unfolding ensure_round
  round-RoomFor again cleaned w h = elim (Bool-cases (is_short sizereq w)) [
    | inl short ↦ elim (Bool-cases (is_there ori w)) [
      | inl there ↦ rw (short, there, ensure_round) (inl (refl, there))
      | inr gone ↦
          rw (short, gone, ensure_round)
            (and_then-RoomFor sizereq ori (make_room b sizereq cleaned w) _
              (next-RoomFor again cleaned h))
    ]
    | inr fits ↦ rw (fits, ensure_round) (exit-RoomFor sizereq ori w fits)
  ]

  ensure_loop-RoomFor :
      (f : ℕ) (cleaned : Bool) (w : World)
      → RoomFor sizereq ori (ensure_loop b f sizereq ori cleaned w)
  unfolding ensure_loop
  ensure_loop-RoomFor zero cleaned w = tt
  ensure_loop-RoomFor (suc f) cleaned w =
      round-RoomFor (λ c. ensure_loop b f sizereq ori c) cleaned w
        (λ c v. ensure_loop-RoomFor f c v)

  -- Whatever the backend does and however long it takes, `ensureEnoughSpace` returns only with the
  -- sum of the request and the RAM in use within the limit, as the code adds it, modulo 2 ^ 64 (and
  -- false), or with the chunk in RAM or on its way (and true).
  pub ensure_enough_space-RoomFor :
      (fuel : ℕ) (w : World) → RoomFor sizereq ori (ensure_enough_space b fuel sizereq ori w)
  unfolding ensure_enough_space
  ensure_enough_space-RoomFor fuel w = ensure_loop-RoomFor fuel false w

module _ (b : Backend) (sizereq : ℕ) (ori : Option ℕ) where
  round_fits :
      (again : Bool → M Bool) (cleaned : Bool) (w : World)
      → is_short sizereq w ≡ false
      → ensure_round b sizereq ori cleaned again w ≡ returned (is_there ori w) w
  unfolding ensure_round
  round_fits again cleaned w fits = rw (fits, ensure_round)

  -- The chunk is not there, and memory is short even when what is leaving has left.
  pub record IsTight (w : World) : Type 0 where
    pub short : is_short sizereq w ≡ true
    pub gone : is_there ori w ≡ false
    pub short_later : is_short_later sizereq w ≡ true

  round_tight :
      (again : Bool → M Bool) (cleaned : Bool) (w v : World) (err : SwapErrorCode)
      → IsTight w
      → b.swap_out (missing sizereq w) w ≡ returned err v
      → ensure_round b sizereq ori cleaned again w
        ≡ and_then
            ((if is_success err then pure to_wait else not_swapped b err cleaned) v)
            (after_next b sizereq cleaned again)
  unfolding make_room ensure_round after_next
  round_tight again cleaned w v err t e =
      rw (t.short, t.gone, ensure_round, t.short_later, make_room, e)

  -- If the chunk is not there, memory is short even when what is leaving has left, and one `swapOut`
  -- makes the room, then `ensureEnoughSpace` returns after it: two rounds are enough.
  pub ensure_enough_space-swaps :
      (fuel : ℕ) (w v : World)
      → IsTight w
      → b.swap_out (missing sizereq w) w ≡ returned err_success v
      → is_short sizereq v ≡ false
      → 1 < fuel
      → ensure_enough_space b fuel sizereq ori w ≡ returned (is_there ori v) v
  unfolding ensure_enough_space ensure_loop after_next
  ensure_enough_space-swaps zero w v t e fits h = absurd (omega arith)
  ensure_enough_space-swaps (suc zero) w v t e fits h = absurd (omega arith)
  ensure_enough_space-swaps (suc (suc f)) w v t e fits h =
      round_tight (λ c. ensure_loop b (suc f) sizereq ori c) false w v err_success t e
      ∙ rw (after_next, fits) (round_fits (λ c. ensure_loop b f sizereq ori c) false v fits)
