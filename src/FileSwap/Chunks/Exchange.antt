-- ===== src/FileSwap/Chunks/Exchange.antt =====
-- A chunk on its whole way to a page file or back: `swapOut` or `swapIn` of src/managedFileSwap.cpp,
-- then the events of all its transfers.
use rambrain_uwp.Prelude.{
  ℕ, suc, ◌+◌, ◌^◌, ◌≤◌, ◌<◌, ◌≡◌, ◌⊎◌, inl, inr, refl, sym, ap, subst, ◌∙◌, Bool, true, false,
  List, [], ◌∷◌, ◌++◌, ◌==◌, if◌then◌else◌, arith, length,
}
use rambrain_uwp.Chunk.{
  mem_allocated, mem_allocated_inuse_read, mem_swapped, mem_swapin, mem_swapout, has_flag, is,
}
use rambrain_uwp.World.{World, claim_usage_of, claim_tobefreed}
use rambrain_uwp.Links.Runs.{count}
use rambrain_uwp.FileSwap.{FileSwap, done, in_world, arrive_in, arrive_out, copy_mem}
use rambrain_uwp.FileSwap.Copy.{Parts}
use rambrain_uwp.FileSwap.Copy.Requests.{requests_for}
use rambrain_uwp.FileSwap.Copy.Transfers.{numbered, copy_mem-IsUnderWay}
use rambrain_uwp.FileSwap.Arrival.{Event, handle_events}
use rambrain_uwp.FileSwap.Arrival.Order.{Arrive, completed, handle_events-Arrive}
use rambrain_uwp.FileSwap.Chunks.{start_in, start_out, swap_in, swap_out_to}
use rambrain_uwp.FileSwap.Chunks.Accounts.{
  IsCounted, start_in-IsCounted, start_out-IsCounted, arrive_in-IsCounted, arrive_out-IsCounted,
}

swapped_flags : (is mem_swapped mem_swapin ≡ false) × (has_flag mem_swapped mem_allocated ≡ false)
unfolding is has_flag
swapped_flags = (refl, refl)

module _ (k : ℕ) where
  start_in-status : (buf : ℕ) (w : World) → ((start_in buf k w).chunks k).status ≡ mem_swapin
  unfolding start_in claim_usage_of
  start_in-status buf w = ground arith

  start_out-status : (off : ℕ) (w : World) → ((start_out off k w).chunks k).status ≡ mem_swapout
  unfolding start_out claim_usage_of claim_tobefreed
  start_out-status off w = ground arith

  completed-in : (w : World) → (w.chunks k).status ≡ mem_swapin → completed k w ≡ arrive_in k w
  completed-in w h = ground arith

  completed-out : (w : World) → (w.chunks k).status ≡ mem_swapout → completed k w ≡ arrive_out k w
  completed-out w h = ground arith

  arrived_in :
      (buf : ℕ) (w : World)
      → let c = (arrive_in k (start_in buf k w)).chunks k in
        (c.status ≡ (if (w.chunks k).use_cnt == 0 then mem_allocated else mem_allocated_inuse_read))
        × (c.loc_ptr ≡ buf)
  unfolding arrive_in start_in claim_usage_of
  arrived_in buf w = ground arith

  arrived_out :
      (off : ℕ) (w : World)
      → let c = (arrive_out k (start_out off k w)).chunks k in
        (c.status ≡ mem_swapped) × (c.loc_ptr ≡ 0) × (c.swap_buf ≡ suc off)
  unfolding arrive_out start_out claim_usage_of claim_tobefreed
  arrived_out off w = ground arith

module _ (step : ℕ) (ftruncate : (file size : ℕ) → ℕ) (resizes : (f n : ℕ) → ftruncate f n ≡ 0)
    (fuel k off : ℕ) (os : List ℕ) (s : FileSwap) (parts : Parts s.page_file off os k)
    (enough : length os < fuel) (once : (q : ℕ) → count q (off ∷ os) ≤ 1)
    (room : s.total_swap_actions_queued + suc (suc (length os)) < 2 ^ 32) (es : List Event)
    (all_arrive : Arrive s.page_file (numbered (suc s.new_address) (off ∷ os)) es []) where
  -- `copyMem` and then the events, where the chunk has been marked by `mark`.
  copied :
      (buf : ℕ) (rev : Bool) (mark : World → World)
      → (((mark s.world).chunks k).status ≡ mem_swapin)
        ⊎ (((mark s.world).chunks k).status ≡ mem_swapout)
      → (t u : FileSwap) × (copy_mem step ftruncate fuel off buf rev (in_world mark s) ≡ done tt t)
        × (handle_events fuel es t ≡ done tt u)
        × (t.world ≡ mark s.world)
        × (u.world ≡ completed k (mark s.world))
        × (t.io_submit_requests
            ≡ s.io_submit_requests ++ requests_for s.page_file off os buf 0 (suc s.new_address) rev)
  copied buf rev mark moving =
      let (t, runs, world, file, requested, way) =
        copy_mem-IsUnderWay step ftruncate resizes fuel k off os buf rev (in_world mark s) parts
          enough once room in
      let d =
        handle_events-Arrive fuel s.new_address k es (numbered (suc s.new_address) (off ∷ os)) [] t
          way (omega arith)
          (subst (λ f. Arrive f (numbered (suc s.new_address) (off ∷ os)) es []) (sym file)
            all_arrive)
          (subst (λ w. ((w.chunks k).status ≡ mem_swapin) ⊎ ((w.chunks k).status ≡ mem_swapout))
            (sym world) moving) in
      (t, d.0, runs, d.1, world, d.2 ∙ ap (completed k) world, requested)

  swap_in-copied :
      (buf : ℕ) (t : FileSwap)
      → (s.world.chunks k).status ≡ mem_swapped
      → (s.world.chunks k).swap_buf ≡ suc off
      → (buf == 0) ≡ false
      → copy_mem step ftruncate fuel off buf true (in_world (start_in buf k) s) ≡ done tt t
      → swap_in step ftruncate fuel buf k s ≡ done (s.world.chunks k).size t
  unfolding swap_in
  swap_in-copied buf t h b n e = ground (arith, swapped_flags)

  swap_out_to-copied :
      (t : FileSwap)
      → copy_mem step ftruncate fuel off
          (s.world.chunks k).loc_ptr
          false
          (in_world (start_out off k) s)
        ≡ done tt t
      → swap_out_to step ftruncate fuel off k s ≡ done (s.world.chunks k).size t
  unfolding swap_out_to
  swap_out_to-copied t e = ground arith

  -- `swapIn` of a swapped chunk returns its size with the chunk on its way in and, for each of its
  -- parts, one read requested to the place in the buffer at which the part before it ends. When all
  -- transfers have arrived, in any order, the chunk is allocated in its new buffer, protected from
  -- being swapped out if it has users; at both times its bytes are counted where its status says. This
  -- holds if the chunk's parts are distinct, a buffer is allocated and the page files can grow.
  pub swap_in-arrives :
      (buf ram swap tobefreed n : ℕ)
      → IsCounted ram swap tobefreed n k s.world
      → (s.world.chunks k).status ≡ mem_swapped
      → (s.world.chunks k).swap_buf ≡ suc off
      → (buf == 0) ≡ false
      → (t u : FileSwap) × (swap_in step ftruncate fuel buf k s ≡ done n t)
        × ((t.world.chunks k).status ≡ mem_swapin)
        × (t.io_submit_requests
            ≡ s.io_submit_requests
              ++ requests_for s.page_file off os buf 0 (suc s.new_address) true)
        × IsCounted ram swap tobefreed n k t.world
        × (handle_events fuel es t ≡ done tt u)
        × ((u.world.chunks k).status
            ≡ (if (s.world.chunks k).use_cnt == 0 then mem_allocated else mem_allocated_inuse_read))
        × ((u.world.chunks k).loc_ptr ≡ buf)
        × IsCounted ram swap tobefreed n k u.world
  swap_in-arrives buf ram swap tobefreed n c h b nz =
      let now = start_in-status k buf s.world in
      let d = copied buf true (start_in buf k) (inl now) in
      let counted = start_in-IsCounted ram swap tobefreed n k buf s.world h c in
      let later = arrive_in-IsCounted ram swap tobefreed n k (start_in buf k s.world) now counted in
      let end = d.5 ∙ completed-in k (start_in buf k s.world) now in
      (
        d.0,
        d.1,
        swap_in-copied buf d.0 h b nz d.2 ∙ ap (λ m. done m d.0) c.size,
        ap (λ w. (w.chunks k).status) d.4 ∙ now,
        d.6,
        subst (IsCounted ram swap tobefreed n k) (sym d.4) counted,
        d.3,
        ap (λ w. (w.chunks k).status) end ∙ (arrived_in k buf s.world).0,
        ap (λ w. (w.chunks k).loc_ptr) end ∙ (arrived_in k buf s.world).1,
        subst (IsCounted ram swap tobefreed n k) (sym end) later,
      )

  -- `swapOut` of a chunk in RAM to the location at `off` returns its size with the chunk on its way
  -- out and, for each of its parts, one write requested from its place in the buffer. When all
  -- transfers of its parts have arrived, in any order, the chunk is swapped out, its buffer is given
  -- back and it knows its place; at both times its bytes are counted where its status says. This holds
  -- if the chunk's parts are distinct and the page files can grow.
  pub swap_out_to-arrives :
      (ram swap tobefreed n : ℕ)
      → IsCounted ram swap tobefreed n k s.world
      → has_flag (s.world.chunks k).status mem_allocated ≡ true
      → (t u : FileSwap) × (swap_out_to step ftruncate fuel off k s ≡ done n t)
        × ((t.world.chunks k).status ≡ mem_swapout)
        × (t.io_submit_requests
            ≡ s.io_submit_requests
              ++ requests_for s.page_file off os
                  (s.world.chunks k).loc_ptr
                  0
                  (suc s.new_address)
                  false)
        × IsCounted ram swap tobefreed n k t.world
        × (handle_events fuel es t ≡ done tt u)
        × ((u.world.chunks k).status ≡ mem_swapped)
        × ((u.world.chunks k).loc_ptr ≡ 0)
        × ((u.world.chunks k).swap_buf ≡ suc off)
        × IsCounted ram swap tobefreed n k u.world
  swap_out_to-arrives ram swap tobefreed n c h =
      let now = start_out-status k off s.world in
      let d = copied (s.world.chunks k).loc_ptr false (start_out off k) (inr now) in
      let counted = start_out-IsCounted ram swap tobefreed n k off s.world h c in
      let later =
        arrive_out-IsCounted ram swap tobefreed n k (start_out off k s.world) now counted in
      let end = d.5 ∙ completed-out k (start_out off k s.world) now in
      let there = arrived_out k off s.world in
      (
        d.0,
        d.1,
        swap_out_to-copied d.0 d.2 ∙ ap (λ m. done m d.0) c.size,
        ap (λ w. (w.chunks k).status) d.4 ∙ now,
        d.6,
        subst (IsCounted ram swap tobefreed n k) (sym d.4) counted,
        d.3,
        ap (λ w. (w.chunks k).status) end ∙ there.0,
        ap (λ w. (w.chunks k).loc_ptr) end ∙ there.1,
        ap (λ w. (w.chunks k).swap_buf) end ∙ there.2,
        subst (IsCounted ram swap tobefreed n k) (sym end) later,
      )
