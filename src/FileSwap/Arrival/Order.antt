-- ===== src/FileSwap/Arrival/Order.antt =====
-- The transfers of one transaction arrive in any order: src/managedFileSwap.cpp counts them down and
-- completes the transaction with the last one.
use rambrain_uwp.Prelude.{
  ℕ, suc, ◌+◌, ◌≤◌, ◌≡◌, ◌⊎◌, refl, ap, subst, ◌∙◌, List, [], ◌∷◌, ◌++◌, some, arith, length,
}
use rambrain_uwp.Chunk.{mem_swapin, mem_swapout}
use rambrain_uwp.World.{World}
use rambrain_uwp.PageFile.{PageFile, location_at}
use rambrain_uwp.PageFile.Maps.{find, erase}
use rambrain_uwp.FileSwap.{
  FileSwap, done, ◌>>=◌, in_world, transfer_length, complete_chunk, arrive_in, arrive_out,
  complete_transaction_on,
}
use rambrain_uwp.FileSwap.Arrival.{Event, release_part, async_io_arrived, handle_events}
use rambrain_uwp.FileSwap.Arrival.Transfers.{
  Transfer, IsTransfer, IsUnderWay, after_one, requests-front, locations-front, length-front,
  All-front, IsUnderWay-after_one,
}

-- The event says that the transfer `p` has moved all its bytes.
pub record IsGood (f : PageFile) (p : Transfer) (e : Event) : Type 0 where
  pub of : e.obj ≡ p.0
  pub no_error : e.res2 ≡ 0
  pub whole : e.res ≡ transfer_length f.memory_alignment (location_at f p.1).size

-- Good events for some of the transfers `ps`, in any order, that leave `rest` to arrive.
abbrev pub Arrive : PageFile → (ps : List Transfer) → List Event → (rest : List Transfer) → Type 0
Arrive f ps [] rest = (ps ≡ rest)
Arrive f ps (e ∷ es) rest =
    (xs : List Transfer) × (p : Transfer) × (ys : List Transfer) × (ps ≡ xs ++ p ∷ ys)
    × IsGood f p e
    × Arrive f (xs ++ ys) es rest

-- What the last arrival does to the chunk.
abbrev pub completed : ℕ → World → World
completed k w = elim (w.chunks k).status [
  | mem_swapin ↦ arrive_in k w
  | mem_swapout ↦ arrive_out k w
  | _ ↦ w
]

module _ (fuel tr k : ℕ) where
  -- One event.
  handle_events-some :
      (s : FileSwap) (o : ℕ) (e : Event) (es : List Event)
      → find e.obj s.pending_aios ≡ some o
      → handle_events fuel (e ∷ es) s ≡ (
          async_io_arrived fuel o e (record s { pending_aios = erase e.obj s.pending_aios })
          >>= λ u t. handle_events fuel es t)
  unfolding handle_events
  handle_events-some s o e es h = ground arith

  handle_events-found :
      (s : FileSwap) (p : Transfer) (e : Event) (es : List Event)
      → IsTransfer fuel tr k s p
      → IsGood s.page_file p e
      → handle_events fuel (e ∷ es) s ≡ (
          async_io_arrived fuel p.1 e (record s { pending_aios = erase p.0 s.pending_aios })
          >>= λ u t. handle_events fuel es t)
  handle_events-found s p e es t g =
      subst
        (λ a.
          find a s.pending_aios ≡ some p.1
          → handle_events fuel (e ∷ es) s ≡ (
              async_io_arrived fuel p.1 e (record s { pending_aios = erase a s.pending_aios })
              >>= λ u t. handle_events fuel es t))
        g.of (handle_events-some s p.1 e es) t.listed

  complete_chunk-completed :
      (s : FileSwap)
      → ((s.world.chunks k).status ≡ mem_swapin) ⊎ ((s.world.chunks k).status ≡ mem_swapout)
      → complete_chunk k s ≡ done tt (in_world (completed k) s)
  unfolding complete_chunk
  complete_chunk-completed s h = ground arith

  async_io_arrived-last :
      (s : FileSwap) (p : Transfer) (e : Event)
      → IsTransfer fuel tr k s p
      → IsGood s.page_file p e
      → s.trackers tr ≡ 1
      → ((s.world.chunks k).status ≡ mem_swapin) ⊎ ((s.world.chunks k).status ≡ mem_swapout)
      → async_io_arrived fuel p.1 e (record s { pending_aios = erase p.0 s.pending_aios })
        ≡ done tt (in_world (completed k) (after_one tr p s))
  unfolding async_io_arrived complete_transaction_on release_part
  async_io_arrived-last s p e t g c h = ground (
    arith,
    complete_chunk-completed
        (release_part p.1 tr (record s { pending_aios = erase p.0 s.pending_aios })) h,
  )

  async_io_arrived-more :
      (s : FileSwap) (p : Transfer) (e : Event) (n : ℕ)
      → IsTransfer fuel tr k s p
      → IsGood s.page_file p e
      → s.trackers tr ≡ suc (suc n)
      → async_io_arrived fuel p.1 e (record s { pending_aios = erase p.0 s.pending_aios })
        ≡ done tt (after_one tr p s)
  unfolding async_io_arrived
  async_io_arrived-more s p e n t g c = ground arith

  abbrev pub Progress : (rest : List Transfer) → (s t : FileSwap) → Type 0
  Progress [] s t = (t.world ≡ completed k s.world)
  Progress (p ∷ ps) s t = (t.world ≡ s.world) × IsUnderWay fuel tr k (p ∷ ps) t

  abbrev pub Done : (es : List Event) → (rest : List Transfer) → FileSwap → Type 0
  Done es rest s =
      (t : FileSwap) × (handle_events fuel es s ≡ done tt t)
      × Progress rest s t
      × (t.total_swap_actions_queued + length es ≡ s.total_swap_actions_queued)

  nothing_left : (xs ys : List Transfer) (p : Transfer) → [] ≡ xs ++ p ∷ ys → ⊥
  nothing_left [] ys p h = absurd (ground arith)
  nothing_left (x ∷ xs) ys p h = absurd (ground arith)

  handle_events-nil : (s : FileSwap) → handle_events fuel [] s ≡ done tt s
  unfolding handle_events
  handle_events-nil s = refl

  handle_events-last :
      (s : FileSwap) (p : Transfer) (e : Event) (es : List Event)
      → IsTransfer fuel tr k s p
      → IsGood s.page_file p e
      → s.trackers tr ≡ 1
      → ((s.world.chunks k).status ≡ mem_swapin) ⊎ ((s.world.chunks k).status ≡ mem_swapout)
      → handle_events fuel (e ∷ es) s
        ≡ handle_events fuel es (in_world (completed k) (after_one tr p s))
  handle_events-last s p e es t g c h =
      handle_events-found s p e es t g
      ∙ ap (λ r. r >>= λ u v. handle_events fuel es v) (async_io_arrived-last s p e t g c h)

  handle_events-more :
      (s : FileSwap) (p : Transfer) (e : Event) (es : List Event) (n : ℕ)
      → IsTransfer fuel tr k s p
      → IsGood s.page_file p e
      → s.trackers tr ≡ suc (suc n)
      → handle_events fuel (e ∷ es) s ≡ handle_events fuel es (after_one tr p s)
  handle_events-more s p e es n t g c =
      handle_events-found s p e es t g
      ∙ ap (λ r. r >>= λ u v. handle_events fuel es v) (async_io_arrived-more s p e n t g c)

  -- Nothing arrives after the last transfer.
  completed-Done :
      (s t : FileSwap) (es : List Event) (rest : List Transfer)
      → Arrive s.page_file [] es rest
      → t.world ≡ completed k s.world
      → t.total_swap_actions_queued + 1 ≡ s.total_swap_actions_queued
      → (u : FileSwap) × (handle_events fuel es t ≡ done tt u)
        × Progress rest s u
        × (u.total_swap_actions_queued + suc (length es) ≡ s.total_swap_actions_queued)
  completed-Done s t [] rest a h q =
      (t, handle_events-nil t, subst (λ r. Progress r s t) a h, omega arith)
  completed-Done s t (e ∷ es) rest (xs, p, ys, same, g, more) h q =
      absurd (nothing_left xs ys p same)

  -- Once a transfer has arrived, the events that follow see the state after it.
  shift :
      (es : List Event) (rest : List Transfer) (s t : FileSwap)
      → t.world ≡ s.world
      → t.total_swap_actions_queued + 1 ≡ s.total_swap_actions_queued
      → Done es rest t
      → (u : FileSwap) × (handle_events fuel es t ≡ done tt u)
        × Progress rest s u
        × (u.total_swap_actions_queued + suc (length es) ≡ s.total_swap_actions_queued)
  shift es [] s t w q (u, r, p, n) = (u, r, p ∙ ap (completed k) w, omega arith)
  shift es (x ∷ rest) s t w q (u, r, p, n) = (u, r, (p.0 ∙ w, p.1), omega arith)

  -- Of a transaction, the transfers arrive in any order, the events one after the other. Until the last
  -- of them the chunk and all counters of memory and swap stay as they are and the rest of the
  -- transaction is under way; the last one completes it, by `arrive_in` for a chunk on its way in and by
  -- `arrive_out` for one on its way out. No call throws, and the number of queued actions falls by the
  -- number of events.
  pub handle_events-Arrive :
      (es : List Event) (ps rest : List Transfer) (s : FileSwap)
      → IsUnderWay fuel tr k ps s
      → 1 ≤ length ps
      → Arrive s.page_file ps es rest
      → ((s.world.chunks k).status ≡ mem_swapin) ⊎ ((s.world.chunks k).status ≡ mem_swapout)
      → Done es rest s
  unfolding release_part
  handle_events-Arrive [] ps rest s u some_left a h =
      (s, handle_events-nil s, waiting ps rest u some_left a, omega arith)
    where
      waiting :
          (ps rest : List Transfer)
          → IsUnderWay fuel tr k ps s
          → 1 ≤ length ps
          → ps ≡ rest
          → Progress rest s s
      waiting [] rest u l e = absurd (omega arith)
      waiting (p ∷ ps) rest u l e = subst (λ r. Progress r s s) e (refl, u)
  handle_events-Arrive (e ∷ es) ps rest s u some_left (xs, p, ys, same, g, more) h =
      let u' = subst (λ l. IsUnderWay fuel tr k l s) same u in
      let v = IsUnderWay-after_one fuel tr k s p xs ys u' in
      each (λ others v l m. handle_events-Arrive es others rest (after_one tr p s) v l m h)
        (xs ++ ys) v more (u'.counted ∙ length-front p xs ys)
    where
      queued : (after_one tr p s).total_swap_actions_queued + 1 ≡ s.total_swap_actions_queued
      queued = ground (arith, u.in_range, u.bounded)

      here : IsTransfer fuel tr k s p
      here =
          let u' = subst (λ l. IsUnderWay fuel tr k l s) same u in
          (All-front fuel tr k s p xs ys (ground (arith, u'.once p.0, requests-front p.0 p xs ys))
            (ground (arith, u'.once p.1, locations-front p.1 p xs ys)) u'.transfers).0

      each :
          ((others : List Transfer)
            → IsUnderWay fuel tr k others (after_one tr p s)
            → 1 ≤ length others
            → Arrive s.page_file others es rest
            → Done es rest (after_one tr p s))
          → (others : List Transfer) → IsUnderWay fuel tr k others (after_one tr p s)
          → Arrive s.page_file others es rest
          → s.trackers tr ≡ suc (length others)
          → Done (e ∷ es) rest s
      each go_on [] v m c =
          let t = in_world (completed k) (after_one tr p s) in
          let d = completed-Done s t es rest m refl queued in
          (d.0, handle_events-last s p e es here g c h ∙ d.1, d.2, d.3)
      each go_on (q ∷ qs) v m c =
          let t = after_one tr p s in
          let d = shift es rest s t refl queued (go_on (q ∷ qs) v (omega arith) m) in
          (d.0, handle_events-more s p e es (length qs) here g c ∙ d.1, d.2, d.3)
