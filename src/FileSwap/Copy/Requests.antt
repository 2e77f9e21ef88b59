-- ===== src/FileSwap/Copy/Requests.antt =====
-- The requests that `scheduleCopy` of src/managedFileSwap.cpp hands to `io_submit`.
use mathlib.Core.List.{append_assoc}
use rambrain_uwp.Prelude.{ℕ, suc, ◌+◌, ◌≡◌, refl, ap, ◌∙◌, Bool, List, [], ◌∷◌, ◌++◌}
use rambrain_uwp.PageFile.{PageFile, location_at}
use rambrain_uwp.FileSwap.{FileSwap, Request, transfer_length, enqueue}
use rambrain_uwp.FileSwap.Copy.{scheduled, scheduled_all, page_file-scheduled}

-- The transfer of the part at `off` of a chunk.
abbrev pub request_for : PageFile → (off buf ram_offset aio : ℕ) → (reverse : Bool) → Request
request_for p off buf o aio rev =
    let l = location_at p off in
    record {
      aio = aio;
      reverse = rev;
      file = l.file;
      ram_buf = buf;
      ram_offset = o;
      length = transfer_length p.memory_alignment l.size;
      offset = l.offset;
    }

-- The transfers of the parts `off ∷ os`, each between its place in the page files and the place in the
-- buffer at which the parts before it end, numbered from `aio`.
abbrev pub requests_for :
    PageFile → (off : ℕ) → List ℕ → (buf ram_offset aio : ℕ) → (reverse : Bool) → List Request
requests_for p off [] buf o aio rev = request_for p off buf o aio rev ∷ []
requests_for p off (n ∷ os) buf o aio rev =
    request_for p off buf o aio rev
    ∷ requests_for p n os buf (o + (location_at p off).size) (suc aio) rev

module _ (step : ℕ) (ftruncate : (file size : ℕ) → ℕ)
    (resizes : (f n : ℕ) → ftruncate f n ≡ 0) where
  requests-scheduled :
      (off buf o t : ℕ) (rev : Bool) (s : FileSwap)
      → (scheduled step ftruncate resizes off buf o t rev s).io_submit_requests
        ≡ s.io_submit_requests ++ request_for s.page_file off buf o s.new_address rev ∷ []
  unfolding enqueue
  requests-scheduled off buf o t rev s = refl

  new_address-scheduled :
      (off buf o t : ℕ) (rev : Bool) (s : FileSwap)
      → (scheduled step ftruncate resizes off buf o t rev s).new_address ≡ suc s.new_address
  unfolding enqueue
  new_address-scheduled off buf o t rev s = refl

  -- Scheduling all parts requests the transfer of each of them, in their order.
  pub requests-scheduled_all :
      (off : ℕ) (os : List ℕ) (buf o t : ℕ) (rev : Bool) (s : FileSwap)
      → (scheduled_all step ftruncate resizes off os buf o t rev s).io_submit_requests
        ≡ s.io_submit_requests ++ requests_for s.page_file off os buf o s.new_address rev
  requests-scheduled_all off [] buf o t rev s = requests-scheduled off buf o t rev s
  requests-scheduled_all off (n ∷ os) buf o t rev s =
      let next = o + (location_at s.page_file off).size in
      let s' = scheduled step ftruncate resizes off buf o t rev s in
      requests-scheduled_all n os buf next t rev s'
      ∙ ap (λ r. r ++ requests_for s'.page_file n os buf next s'.new_address rev)
          (requests-scheduled off buf o t rev s)
      ∙ append_assoc s.io_submit_requests (request_for s.page_file off buf o s.new_address rev ∷ [])
          (requests_for s'.page_file n os buf next s'.new_address rev)
      ∙ ap
          (λ p.
            s.io_submit_requests
            ++ request_for s.page_file off buf o s.new_address rev
              ∷ requests_for p n os buf next s'.new_address rev)
          (page_file-scheduled step ftruncate resizes off buf o t rev s)
      ∙ ap
          (λ a.
            s.io_submit_requests
            ++ request_for s.page_file off buf o s.new_address rev
              ∷ requests_for s.page_file n os buf next a rev)
          (new_address-scheduled off buf o t rev s)
