-- ===== src/FileSwap/Copy/Transfers.antt =====
-- The transfers that `copyMem` of src/managedFileSwap.cpp leaves under way.
use rambrain_uwp.Prelude.{
  ℕ, suc, ◌+◌, ◌^◌, ◌≤◌, ◌<◌, ◌≡◌, refl, sym, ap, subst, ◌∙◌, Bool, false, List, [], ◌∷◌, ◌++◌,
  some, ◌==◌, arith, length, All,
}
use rambrain_uwp.Links.{update}
use rambrain_uwp.Links.Runs.{count, last_of}
use rambrain_uwp.PageFile.{location_at}
use rambrain_uwp.PageFile.Maps.{find, assign}
use rambrain_uwp.FileSwap.{
  FileSwap, done, ◌>>=◌, decrement, owner, enqueue, copy_parts, start_transaction, end_transaction,
  copy_mem,
}
use rambrain_uwp.FileSwap.Arrival.Transfers.{Transfer, requests, locations, IsTransfer, IsUnderWay}
use rambrain_uwp.FileSwap.Copy.{
  Parts, owner-Parts, scheduled, scheduled_all, Same-scheduled_all, copy_parts-Parts,
}
use rambrain_uwp.FileSwap.Copy.Requests.{requests_for, requests-scheduled_all}

-- Requests at `a` and the addresses after it.
abbrev pub numbered : (a : ℕ) → List ℕ → List Transfer
numbered a [] = []
numbered a (o ∷ os) = (a, o) ∷ numbered (suc a) os

count-below : (q a : ℕ) (os : List ℕ) → q < a → count q (requests (numbered a os)) ≡ 0
count-below q a [] h = refl
count-below q a (o ∷ os) h = ground (arith, count-below q (suc a) os)

count-numbered : (q a : ℕ) (os : List ℕ) → count q (requests (numbered a os)) ≤ 1
count-numbered q a [] = omega arith
count-numbered q a (o ∷ os) = ground (arith, count-numbered q (suc a) os, count-below q (suc a) os)

locations-numbered : (a : ℕ) (os : List ℕ) → locations (numbered a os) ≡ os
locations-numbered a [] = refl
locations-numbered a (o ∷ os) = ap (◌∷◌ o) (locations-numbered (suc a) os)

length-numbered : (a : ℕ) (os : List ℕ) → length (numbered a os) ≡ length os
length-numbered a [] = refl
length-numbered a (o ∷ os) = ap suc (length-numbered (suc a) os)

find-assign_same : (i v : ℕ) (m : List (ℕ × ℕ)) → find i (assign i v m) ≡ some v
unfolding find assign
find-assign_same i v [] = ground arith
find-assign_same i v ((j, u) ∷ m) = ground (arith, find-assign_same i v m)

find-assign_before :
    (i j v w : ℕ) (m : List (ℕ × ℕ)) → j < i → find j m ≡ some w → find j (assign i v m) ≡ some w
unfolding find assign
find-assign_before i j v w [] h e = absurd (ground arith)
find-assign_before i j v w ((l, u) ∷ m) h e = ground (arith, find-assign_before i j v w m)

module _ (step : ℕ) (ftruncate : (file size : ℕ) → ℕ) (resizes : (f n : ℕ) → ftruncate f n ≡ 0)
    (fuel k : ℕ) where
  IsTransfer-scheduled :
      (off buf o t : ℕ) (rev : Bool) (s : FileSwap)
      → owner fuel s.page_file off ≡ some k
      → IsTransfer fuel t k
          (scheduled step ftruncate resizes off buf o t rev s)
          (s.new_address, off)
  unfolding enqueue
  IsTransfer-scheduled off buf o t rev s h = record {
    listed = find-assign_same s.new_address off s.pending_aios;
    tracked = ground arith;
    owned = h;
  }

  IsTransfer-keeps :
      (off buf o t t' : ℕ) (rev : Bool) (s : FileSwap) (x : Transfer)
      → x.0 < s.new_address
      → (x.1 == off) ≡ false
      → IsTransfer fuel t k s x
      → IsTransfer fuel t k (scheduled step ftruncate resizes off buf o t' rev s) x
  unfolding enqueue
  IsTransfer-keeps off buf o t t' rev s x h n i = record {
    listed = find-assign_before s.new_address x.0 off x.1 s.pending_aios h i.listed;
    tracked = ground (arith, i.tracked);
    owned = i.owned;
  }

  abbrev all_of : (off : ℕ) → List ℕ → (buf ram_offset tracker : ℕ) → Bool → FileSwap → FileSwap
  all_of = scheduled_all step ftruncate resizes

  new_address-scheduled :
      (off buf o t a : ℕ) (rev : Bool) (s : FileSwap)
      → a < s.new_address
      → a < (scheduled step ftruncate resizes off buf o t rev s).new_address
  unfolding enqueue
  new_address-scheduled off buf o t a rev s h = omega arith

  IsTransfer-keeps_all :
      (off : ℕ) (os : List ℕ) (buf o t t' : ℕ) (rev : Bool) (s : FileSwap) (x : Transfer)
      → x.0 < s.new_address
      → count x.1 (off ∷ os) ≡ 0
      → IsTransfer fuel t k s x
      → IsTransfer fuel t k (all_of off os buf o t' rev s) x
  IsTransfer-keeps_all off [] buf o t t' rev s x h n i =
      IsTransfer-keeps off buf o t t' rev s x h (ground arith) i
  IsTransfer-keeps_all off (p ∷ os) buf o t t' rev s x h n i =
      let size = (location_at s.page_file off).size in
      let s' = scheduled step ftruncate resizes off buf o t' rev s in
      IsTransfer-keeps_all p os buf (o + size) t t' rev s' x
        (new_address-scheduled off buf o t' x.0 rev s h) (ground arith)
        (IsTransfer-keeps off buf o t t' rev s x h (ground arith) i)

  -- Every part has its transfer.
  All-scheduled :
      (off : ℕ) (os : List ℕ) (buf o t : ℕ) (rev : Bool) (s : FileSwap)
      → Parts s.page_file off os k
      → length os < fuel
      → ((q : ℕ) → count q (off ∷ os) ≤ 1)
      → All (IsTransfer fuel t k (all_of off os buf o t rev s)) (numbered s.new_address (off ∷ os))
  unfolding enqueue
  All-scheduled off [] buf o t rev s h l once =
      (IsTransfer-scheduled off buf o t rev s (owner-Parts fuel s.page_file off [] k h l), tt)
  All-scheduled off (p ∷ os) buf o t rev s h l once =
      let size = (location_at s.page_file off).size in
      let s' = scheduled step ftruncate resizes off buf o t rev s in
      let first =
        IsTransfer-scheduled off buf o t rev s (owner-Parts fuel s.page_file off (p ∷ os) k h l) in
      (
        IsTransfer-keeps_all p os buf (o + size) t t rev s' (s.new_address, off) (omega arith)
            (ground (arith, once off)) first,
        All-scheduled p os buf (o + size) t rev s' h.2 (omega arith) (λ q. omega (arith, once q)),
      )

  abbrev ended : ℕ → FileSwap → FileSwap
  ended tr s = record s {
    trackers = update s.trackers tr (decrement (s.trackers tr));
    total_swap_actions_queued = decrement s.total_swap_actions_queued;
  }

  end_transaction-waits :
      (tr last n : ℕ) (s : FileSwap)
      → s.trackers tr ≡ suc (suc n)
      → end_transaction fuel tr last s ≡ done tt (ended tr s)
  unfolding end_transaction
  end_transaction-waits tr last n s h = ground arith

  All-ended :
      (tr : ℕ) (s : FileSwap) (ps : List Transfer)
      → All (IsTransfer fuel tr k s) ps
      → All (IsTransfer fuel tr k (ended tr s)) ps
  All-ended tr s [] h = tt
  All-ended tr s (p ∷ ps) h = (
    record { listed = h.0.listed; tracked = h.0.tracked; owned = h.0.owned },
    All-ended tr s ps h.1,
  )

  copy_mem-ends :
      (off : ℕ) (os : List ℕ) (buf : ℕ) (rev : Bool) (s t : FileSwap)
      → copy_parts step ftruncate fuel off buf 0 s.new_address rev (start_transaction s)
        ≡ done (last_of off os) t
      → (n : ℕ) → t.trackers s.new_address ≡ suc (suc n)
      → copy_mem step ftruncate fuel off buf rev s ≡ done tt (ended s.new_address t)
  unfolding copy_mem
  copy_mem-ends off os buf rev s t h n c =
      ap (λ r. r >>= λ last u. end_transaction fuel s.new_address last u) h
      ∙ end_transaction-waits s.new_address (last_of off os) n t c

  -- `copyMem` starts a transaction for the parts of a chunk: it returns with one request for each part
  -- requested and under way, all of them counted by the tracker, and the chunk not yet touched.
  pub copy_mem-IsUnderWay :
      (off : ℕ) (os : List ℕ) (buf : ℕ) (rev : Bool) (s : FileSwap)
      → Parts s.page_file off os k
      → length os < fuel
      → ((q : ℕ) → count q (off ∷ os) ≤ 1)
      → s.total_swap_actions_queued + suc (suc (length os)) < 2 ^ 32
      → (t : FileSwap) × (copy_mem step ftruncate fuel off buf rev s ≡ done tt t)
        × (t.world ≡ s.world)
        × (t.page_file ≡ s.page_file)
        × (t.io_submit_requests
            ≡ s.io_submit_requests ++ requests_for s.page_file off os buf 0 (suc s.new_address) rev)
        × IsUnderWay fuel s.new_address k (numbered (suc s.new_address) (off ∷ os)) t
  unfolding start_transaction
  copy_mem-IsUnderWay off os buf rev s h l once b =
      let tr = s.new_address in
      let s1 = start_transaction s in
      let s2 = all_of off os buf 0 tr rev s1 in
      let same =
        Same-scheduled_all step ftruncate resizes off os buf 0 tr rev s1 (ground arith)
          (omega arith) in
      (
        ended tr s2,
        copy_mem-ends off os buf rev s s2
            (copy_parts-Parts step ftruncate resizes fuel off os buf 0 tr k rev s1 h l) (length os)
            (ground (arith, same.counted)),
        same.world,
        same.page_file,
        requests-scheduled_all step ftruncate resizes off os buf 0 tr rev s1,
        record {
          transfers =
              All-ended tr s2 (numbered (suc tr) (off ∷ os))
                (All-scheduled off os buf 0 tr rev s1 h l once);
          counted = ground (arith, same.counted, length-numbered (suc tr) (off ∷ os));
          once = λ q. (
            count-numbered q (suc tr) (off ∷ os),
            subst (λ l. count q l ≤ 1) (sym (locations-numbered (suc tr) (off ∷ os))) (once q),
          );
          in_range = omega (arith, same.queued, length-numbered (suc tr) (off ∷ os));
          bounded = omega arith;
        },
      )
