-- ===== src/FileSwap/Arrival/Transfers.antt =====
-- The transfers of one transaction of src/managedFileSwap.cpp: what is left of it, and what one arrival
-- leaves.
use rambrain_uwp.Prelude.{
  ℕ, suc, ◌+◌, ◌^◌, ◌≤◌, ◌<◌, ◌≡◌, refl, ap, false, List, [], ◌∷◌, ◌++◌, some, ◌==◌, if◌then◌else◌,
  arith, length, All,
}
use rambrain_uwp.Links.Runs.{count}
use rambrain_uwp.PageFile.Maps.{find, erase}
use rambrain_uwp.FileSwap.{FileSwap, owner}
use rambrain_uwp.FileSwap.Arrival.{release_part, one_done}

-- A transfer under way: the address of its request, and its location.
abbrev pub Transfer : Type 0
Transfer = ℕ × ℕ

abbrev pub requests : List Transfer → List ℕ
requests [] = []
requests ((a, o) ∷ ps) = a ∷ requests ps

abbrev pub locations : List Transfer → List ℕ
locations [] = []
locations ((a, o) ∷ ps) = o ∷ locations ps

-- One transfer of the transaction with the tracker `tr` for the chunk `k`.
pub record IsTransfer (fuel tr k : ℕ) (s : FileSwap) (p : Transfer) : Type 0 where
  pub listed : find p.0 s.pending_aios ≡ some p.1
  pub tracked : s.aio_ptr p.1 ≡ some (record { aio = p.0; tracker = tr })
  pub owned : owner fuel s.page_file p.1 ≡ some k

-- The transfers `ps` are what is left of the transaction.
pub record IsUnderWay (fuel tr k : ℕ) (ps : List Transfer) (s : FileSwap) : Type 0 where
  pub transfers : All (IsTransfer fuel tr k s) ps
  pub counted : s.trackers tr ≡ length ps
  pub once : (q : ℕ) → (count q (requests ps) ≤ 1) × (count q (locations ps) ≤ 1)
  pub in_range : length ps ≤ s.total_swap_actions_queued
  pub bounded : s.total_swap_actions_queued < 2 ^ 32

find-erase :
    (a b : ℕ) (o : ℕ) (m : List (ℕ × ℕ))
    → find a m ≡ some o
    → (a == b) ≡ false
    → find a (erase b m) ≡ some o
unfolding find erase
find-erase a b o [] h n = h
find-erase a b o ((j, u) ∷ m) h n = ground (arith, find-erase a b o m)

-- The state after the transfer `p`, before the transaction is completed.
abbrev pub after_one : (tr : ℕ) → Transfer → FileSwap → FileSwap
after_one tr p s =
    one_done (release_part p.1 tr (record s { pending_aios = erase p.0 s.pending_aios }))

-- Other transfers go on.
IsTransfer-after_one :
    (fuel tr k : ℕ) (s : FileSwap) (p x : Transfer)
    → (x.0 == p.0) ≡ false
    → (x.1 == p.1) ≡ false
    → IsTransfer fuel tr k s x
    → IsTransfer fuel tr k (after_one tr p s) x
unfolding release_part
IsTransfer-after_one fuel tr k s p x n n' t = record {
  listed = find-erase x.0 p.0 x.1 s.pending_aios t.listed n;
  tracked = rw n' t.tracked;
  owned = t.owned;
}

All-after_one :
    (fuel tr k : ℕ) (s : FileSwap) (p : Transfer) (xs : List Transfer)
    → count p.0 (requests xs) ≡ 0
    → count p.1 (locations xs) ≡ 0
    → All (IsTransfer fuel tr k s) xs
    → All (IsTransfer fuel tr k (after_one tr p s)) xs
All-after_one fuel tr k s p [] n n' h = tt
All-after_one fuel tr k s p ((a, o) ∷ xs) n n' h = (
  IsTransfer-after_one fuel tr k s p (a, o) (ground arith) (ground arith) h.0,
  All-after_one fuel tr k s p xs (ground arith) (ground arith) h.1,
)

-- A transfer may as well stand in front.
module _ (q : ℕ) (p : Transfer) where
  pub requests-front :
      (xs ys : List Transfer)
      → count q (requests (xs ++ p ∷ ys))
        ≡ (if q == p.0 then 1 else 0) + count q (requests (xs ++ ys))
  requests-front [] ys = refl
  requests-front (x ∷ xs) ys = omega (arith, requests-front xs ys)

  pub locations-front :
      (xs ys : List Transfer)
      → count q (locations (xs ++ p ∷ ys))
        ≡ (if q == p.1 then 1 else 0) + count q (locations (xs ++ ys))
  locations-front [] ys = refl
  locations-front (x ∷ xs) ys = omega (arith, locations-front xs ys)

pub length-front :
    (p : Transfer) (xs ys : List Transfer) → length (xs ++ p ∷ ys) ≡ suc (length (xs ++ ys))
length-front p [] ys = refl
length-front p (x ∷ xs) ys = ap suc (length-front p xs ys)

-- The transfer `p` of a list and the others, after it.
pub All-front :
    (fuel tr k : ℕ) (s : FileSwap) (p : Transfer) (xs ys : List Transfer)
    → count p.0 (requests (xs ++ ys)) ≡ 0
    → count p.1 (locations (xs ++ ys)) ≡ 0
    → All (IsTransfer fuel tr k s) (xs ++ p ∷ ys)
    → IsTransfer fuel tr k s p × All (IsTransfer fuel tr k (after_one tr p s)) (xs ++ ys)
All-front fuel tr k s p [] ys n n' h = (h.0, All-after_one fuel tr k s p ys n n' h.1)
All-front fuel tr k s p ((a, o) ∷ xs) ys n n' h =
    let r = All-front fuel tr k s p xs ys (ground arith) (ground arith) h.1 in
    (r.0, (IsTransfer-after_one fuel tr k s p (a, o) (ground arith) (ground arith) h.0, r.1))

module _ (fuel tr k : ℕ) where
  pub IsUnderWay-after_one :
      (s : FileSwap) (p : Transfer) (xs ys : List Transfer)
      → IsUnderWay fuel tr k (xs ++ p ∷ ys) s
      → IsUnderWay fuel tr k (xs ++ ys) (after_one tr p s)
  unfolding release_part
  IsUnderWay-after_one s p xs ys u = record {
    transfers =
        (All-front fuel tr k s p xs ys (ground (arith, u.once p.0, requests-front p.0 p xs ys))
          (ground (arith, u.once p.1, locations-front p.1 p xs ys)) u.transfers).1;
    counted = ground (arith, u.counted, u.in_range, u.bounded, length-front p xs ys);
    once = λ q. (
      omega (arith, u.once q, requests-front q p xs ys),
      omega (arith, u.once q, locations-front q p xs ys),
    );
    in_range = omega (arith, u.in_range, u.bounded, length-front p xs ys);
    bounded = omega arith;
  }
