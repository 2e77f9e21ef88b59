-- ===== src/FileSwap/Copy.antt =====
-- `copyMem` of src/managedFileSwap.cpp on the parts of a chunk: every part is scheduled once, and the
-- transaction then waits for all of them.
pub mod Requests
pub mod Transfers
use rambrain_uwp.Prelude.{
  ℕ, zero, suc, ◌+◌, ◌-◌, ◌%◌, ◌^◌, ◌≤◌, ◌<◌, ◌≡◌, ◌≢◌, ◌⊎◌, inl, inr, refl, sym, ap, subst, ◌∙◌,
  Bool, true, false, List, [], ◌∷◌, ◌++◌, Option, none, some, ◌==◌, ltb, if◌then◌else◌, arith,
  length, All, add64,
}
use rambrain_uwp.Links.{update}
use rambrain_uwp.Links.Runs.{count, last_of}
use rambrain_uwp.PageFile.{PageFile, Location, location_at, page_part, page_end, next_part, chunk}
use rambrain_uwp.PageFile.Maps.{find, assign}
use rambrain_uwp.FileSwap.{
  AioTracker, FileSwap, Result, done, thrown, unfinished, fault, ◌>>=◌, in_world, increment,
  decrement, transfer_length, owner, enqueue, needed_size, schedule_copy, copy_parts,
  start_transaction, end_transaction, copy_mem,
}
use rambrain_uwp.FileSwap.Arrival.Transfers.{Transfer, requests, locations, IsTransfer, IsUnderWay}

-- The parts `off ∷ os` of the chunk `k`.
abbrev pub Parts : PageFile → (off : ℕ) → (os : List ℕ) → (k : ℕ) → Type 0
Parts p off [] k =
    ((location_at p off).status ≡ page_end) × ((location_at p off).glob_off_next ≡ chunk k)
Parts p off (o ∷ os) k =
    ((location_at p off).status ≡ page_part)
    × ((location_at p off).glob_off_next ≡ next_part o)
    × Parts p o os k

pub owner-Parts :
    (fuel : ℕ) (p : PageFile) (off : ℕ) (os : List ℕ) (k : ℕ)
    → Parts p off os k
    → length os < fuel
    → owner fuel p off ≡ some k
unfolding owner
owner-Parts zero p off os k h l = absurd (omega arith)
owner-Parts (suc f) p off [] k h l = ground arith
owner-Parts (suc f) p off (o ∷ os) k h l = ground (arith, owner-Parts f p o os k h.2 (omega arith))

-- The file of the location is long enough.
abbrev pub grown : (resize_step off : ℕ) → FileSwap → FileSwap
grown step off s =
    let l = location_at s.page_file off in
    record s {
      current_size =
          if ltb (s.current_size l.file) (add64 l.size l.offset)
          then update s.current_size l.file (needed_size step l)
          else s.current_size;
    }

module _ (step : ℕ) (ftruncate : (file size : ℕ) → ℕ)
    (resizes : (f n : ℕ) → ftruncate f n ≡ 0) where
  abbrev pub scheduled : (off buf ram_offset tracker : ℕ) → Bool → FileSwap → FileSwap
  scheduled off buf o t rev s = enqueue off buf o t rev (grown step off s)

  abbrev pub scheduled_all :
      (off : ℕ) → List ℕ → (buf ram_offset tracker : ℕ) → Bool → FileSwap → FileSwap
  scheduled_all off [] buf o t rev s = scheduled off buf o t rev s
  scheduled_all off (n ∷ os) buf o t rev s =
      scheduled_all n os buf (o + (location_at s.page_file off).size) t rev
        (scheduled off buf o t rev s)

  schedule_copy-scheduled :
      (off buf o t : ℕ) (rev : Bool) (s : FileSwap)
      → schedule_copy step ftruncate off buf o t rev s ≡ done tt (scheduled off buf o t rev s)
  unfolding schedule_copy
  schedule_copy-scheduled off buf o t rev s =
      let l = location_at s.page_file off in ground (arith, resizes l.file (needed_size step l))

  pub page_file-scheduled :
      (off buf o t : ℕ) (rev : Bool) (s : FileSwap)
      → (scheduled off buf o t rev s).page_file ≡ s.page_file
  unfolding enqueue
  page_file-scheduled off buf o t rev s = ground arith

  copy_parts-last :
      (f off buf o t k : ℕ) (rev : Bool) (s : FileSwap)
      → (location_at s.page_file off).status ≡ page_end
      → copy_parts step ftruncate (suc f) off buf o t rev s ≡ done off (scheduled off buf o t rev s)
  unfolding copy_parts
  copy_parts-last f off buf o t k rev s e = rw (schedule_copy-scheduled off buf o t rev s, e) refl

  copy_parts-part :
      (f off n buf o t : ℕ) (rev : Bool) (s : FileSwap)
      → (location_at s.page_file off).status ≡ page_part
      → (location_at s.page_file off).glob_off_next ≡ next_part n
      → copy_parts step ftruncate (suc f) off buf o t rev s
        ≡ copy_parts step ftruncate f n buf
            (o + (location_at s.page_file off).size)
            t
            rev
            (scheduled off buf o t rev s)
  unfolding copy_parts
  copy_parts-part f off n buf o t rev s e g =
      rw (schedule_copy-scheduled off buf o t rev s, e, g) refl

  pub copy_parts-Parts :
      (f off : ℕ) (os : List ℕ) (buf o t k : ℕ) (rev : Bool) (s : FileSwap)
      → Parts s.page_file off os k
      → length os < f
      → copy_parts step ftruncate f off buf o t rev s
        ≡ done (last_of off os) (scheduled_all off os buf o t rev s)
  copy_parts-Parts zero off os buf o t k rev s h l = absurd (omega arith)
  copy_parts-Parts (suc f) off [] buf o t k rev s h l = copy_parts-last f off buf o t k rev s h.0
  copy_parts-Parts (suc f) off (n ∷ os) buf o t k rev s h l =
      copy_parts-part f off n buf o t rev s h.0 h.1
      ∙ copy_parts-Parts f n os buf (o + (location_at s.page_file off).size) t k rev
          (scheduled off buf o t rev s)
          (subst (λ p. Parts p n os k) (sym (page_file-scheduled off buf o t rev s)) h.2)
          (omega arith)

  -- What scheduling leaves alone.
  pub record Same (t v : ℕ) (s u : FileSwap) : Type 0 where
    pub world : u.world ≡ s.world
    pub page_file : u.page_file ≡ s.page_file
    pub counted : u.trackers t ≡ s.trackers t + v
    pub queued : u.total_swap_actions_queued ≡ s.total_swap_actions_queued + v
    pub next : u.new_address ≡ s.new_address + v

  Same-scheduled :
      (off buf o t : ℕ) (rev : Bool) (s : FileSwap)
      → s.trackers t + 1 < 2 ^ 32
      → s.total_swap_actions_queued + 1 < 2 ^ 32
      → Same t 1 s (scheduled off buf o t rev s)
  unfolding enqueue
  Same-scheduled off buf o t rev s b b' = ground arith

  pub Same-scheduled_all :
      (off : ℕ) (os : List ℕ) (buf o t : ℕ) (rev : Bool) (s : FileSwap)
      → s.trackers t + suc (length os) < 2 ^ 32
      → s.total_swap_actions_queued + suc (length os) < 2 ^ 32
      → Same t (suc (length os)) s (scheduled_all off os buf o t rev s)
  Same-scheduled_all off [] buf o t rev s b b' = Same-scheduled off buf o t rev s b b'
  Same-scheduled_all off (n ∷ os) buf o t rev s b b' =
      let l = location_at s.page_file off in
      let a = Same-scheduled off buf o t rev s (omega arith) (omega arith) in
      let c =
        Same-scheduled_all n os buf (o + l.size) t rev (scheduled off buf o t rev s)
          (omega (arith, a.counted)) (omega (arith, a.queued)) in
      record {
        world = c.world ∙ a.world;
        page_file = c.page_file ∙ a.page_file;
        counted = omega (arith, a.counted, c.counted);
        queued = omega (arith, a.queued, c.queued);
        next = omega (arith, a.next, c.next);
      }
