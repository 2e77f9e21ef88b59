-- ===== src/PageFile/Sorted.antt =====
-- Laws of the maps of src/managedFileSwap.cpp, whose keys ascend.
use rambrain_uwp.Prelude.{
  ℕ, ◌≡◌, ◌<◌, ◌≤◌, refl, false, List, [], ◌∷◌, none, some, ◌==◌, if◌then◌else◌, arith,
}
use rambrain_uwp.PageFile.Maps.{find, assign, erase}

module _ {V : Type 0} where
  -- The keys ascend, from above `k`.
  abbrev pub Ascends : ℕ → List (ℕ × V) → Type 0
  Ascends k [] = Unit
  Ascends k ((j, u) ∷ m) = (k < j) × Ascends j m

  abbrev pub IsAscending : List (ℕ × V) → Type 0
  IsAscending [] = Unit
  IsAscending ((j, u) ∷ m) = Ascends j m

  pub find-Ascends : (i k : ℕ) (m : List (ℕ × V)) → i ≤ k → Ascends k m → find i m ≡ none
  unfolding find
  find-Ascends i k [] h a = refl
  find-Ascends i k ((j, u) ∷ m) h a = ground arith

  pub find-hd : (k : ℕ) (v : V) (m : List (ℕ × V)) → find k ((k, v) ∷ m) ≡ some v
  unfolding find
  find-hd k v m = ground arith

  pub find-tl :
      (i k : ℕ) (u v : V) (m : List (ℕ × V))
      → Ascends k m
      → find i m ≡ some v
      → find i ((k, u) ∷ m) ≡ some v
  unfolding find
  find-tl i k u v m a h = ground (arith, find-Ascends i k m)

  pub Ascends-tl : (k : ℕ) (m : List (ℕ × V)) → Ascends k m → IsAscending m
  Ascends-tl k [] a = tt
  Ascends-tl k ((j, u) ∷ m) a = a.1

  -- The laws with the key's test, for one `i`.
  pub find-assign_if :
      (i j : ℕ) (u : V) (m : List (ℕ × V))
      → find i (assign j u m) ≡ (if i == j then some u else find i m)
  unfolding find assign
  find-assign_if i j u [] = ground arith
  find-assign_if i j u ((k, v) ∷ m) = ground (arith, find-assign_if i j u m)

  pub find-erase_if :
      (i j : ℕ) (m : List (ℕ × V))
      → IsAscending m
      → find i (erase j m) ≡ (if i == j then none else find i m)
  unfolding find erase
  find-erase_if i j [] t = ground arith
  find-erase_if i j ((k, v) ∷ m) t =
      ground (arith, find-erase_if i j m (Ascends-tl k m t), find-Ascends i k m)

  Ascends-assign :
      (k j : ℕ) (u : V) (m : List (ℕ × V)) → k < j → Ascends k m → Ascends k (assign j u m)
  unfolding assign
  Ascends-assign k j u [] h a = (h, tt)
  Ascends-assign k j u ((i, v) ∷ m) h a = ground (arith, Ascends-assign i j u m)

  pub IsAscending-assign :
      (j : ℕ) (u : V) (m : List (ℕ × V)) → IsAscending m → IsAscending (assign j u m)
  unfolding assign
  IsAscending-assign j u [] a = tt
  IsAscending-assign j u ((i, v) ∷ m) a = ground (arith, Ascends-assign i j u m)

  pub Ascends-down : (k j : ℕ) (m : List (ℕ × V)) → k < j → Ascends j m → Ascends k m
  Ascends-down k j [] h a = tt
  Ascends-down k j ((i, v) ∷ m) h a = ground arith

  Ascends-erase : (k j : ℕ) (m : List (ℕ × V)) → Ascends k m → Ascends k (erase j m)
  unfolding erase
  Ascends-erase k j [] a = tt
  Ascends-erase k j ((i, v) ∷ m) a = ground (arith, Ascends-erase i j m, Ascends-down k i m)

  pub IsAscending-erase : (j : ℕ) (m : List (ℕ × V)) → IsAscending m → IsAscending (erase j m)
  unfolding erase
  IsAscending-erase j [] a = tt
  IsAscending-erase j ((i, v) ∷ m) a = ground (arith, Ascends-erase i j m, Ascends-tl i m)

  pub assign-assign :
      (j : ℕ) (u v : V) (m : List (ℕ × V)) → assign j u (assign j v m) ≡ assign j u m
  unfolding assign
  assign-assign j u v [] = ground arith
  assign-assign j u v ((i, w) ∷ m) = ground (arith, assign-assign j u v m)

  assign-Ascends :
      (i k : ℕ) (u : V) (m : List (ℕ × V)) → i < k → Ascends k m → assign i u m ≡ (i, u) ∷ m
  unfolding assign
  assign-Ascends i k u [] h a = refl
  assign-Ascends i k u ((j, v) ∷ m) h a = ground arith

  pub assign-erase :
      (i j : ℕ) (u : V) (m : List (ℕ × V))
      → IsAscending m
      → (i == j) ≡ false
      → assign i u (erase j m) ≡ erase j (assign i u m)
  unfolding assign erase
  assign-erase i j u [] a h = ground arith
  assign-erase i j u ((k, v) ∷ m) a h =
      ground (arith, assign-erase i j u m (Ascends-tl k m a) h, assign-Ascends i k u m)

  -- Writing back what is there changes nothing.
  pub assign_self : (i : ℕ) (u : V) (m : List (ℕ × V)) → find i m ≡ some u → assign i u m ≡ m
  unfolding assign find
  assign_self i u [] h = absurd (ground arith)
  assign_self i u ((k, v) ∷ m) h = ground (arith, assign_self i u m)

  pub erase-behind :
      (j o : ℕ) (u : V) (m : List (ℕ × V)) → o < j → erase j ((o, u) ∷ m) ≡ (o, u) ∷ erase j m
  unfolding erase
  erase-behind j o u m h = ground arith

  pub erase-at : (j : ℕ) (u : V) (m : List (ℕ × V)) → erase j ((j, u) ∷ m) ≡ m
  unfolding erase
  erase-at j u m = ground arith
