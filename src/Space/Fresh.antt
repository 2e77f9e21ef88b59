-- ===== src/Space/Fresh.antt =====
-- The chunk that `mmalloc` of src/managedMemory.cpp returns is allocated and used by nobody.
use rambrain_uwp.Prelude.{ℕ, ◌≡◌, ◌≢◌, ◌<◌, ◌∙◌, refl, true, false, ◌==◌, arith}
use rambrain_uwp.Chunk.{mem_allocated}
use rambrain_uwp.World.{World}
use rambrain_uwp.Outcome.{Returns}
use rambrain_uwp.Manager.{Backend, status_of}
use rambrain_uwp.Manager.Mode.{Off}
use rambrain_uwp.Manager.Use.{IsQuiet, use_cnt_of}
use rambrain_uwp.Space.{mmalloc, is_short, pad, place_chunk, counted_chunk}
use rambrain_uwp.Space.Alloc.{ensure_enough_space-fits}

module _ (b : Backend) (fuel k neu : ℕ) (touch_quiet : IsQuiet (b.touch k))
    (register_quiet : IsQuiet (b.scheduler_register k neu)) where
  place_chunk-fresh :
      (size : ℕ) (w : World)
      → (status_of (place_chunk b size k neu w) k ≡ mem_allocated)
        × (use_cnt_of (place_chunk b size k neu w) k ≡ 0)
  unfolding place_chunk counted_chunk
  place_chunk-fresh size w =
      let r = counted_chunk size k w in
      let t = b.scheduler_register k neu r in
      (
        touch_quiet.status t k ∙ register_quiet.status r k ∙ ground arith,
        touch_quiet.use_cnt t k ∙ register_quiet.use_cnt r k ∙ ground arith,
      )

  place_chunk-off :
      (size : ℕ) (w : World)
      → ((v : World) → Off v → Off (b.touch k v))
      → ((v : World) → Off v → Off (b.scheduler_register k neu v))
      → Off w
      → Off (place_chunk b size k neu w)
  unfolding place_chunk counted_chunk
  place_chunk-off size w touch_off register_off off =
      let r = counted_chunk size k w in
      touch_off (b.scheduler_register k neu r) (register_off r off)

  pub mmalloc-fresh :
      (buf sizereq : ℕ) (w : World)
      → ((v : World) → Off v → Off (b.touch k v))
      → ((v : World) → Off v → Off (b.scheduler_register k neu v))
      → Off w
      → is_short (pad w.memory_alignment sizereq) w ≡ false
      → pad w.memory_alignment sizereq ≢ 0
      → buf ≢ 0
      → 0 < fuel
      → Returns
          (λ c v. (c ≡ k) × (status_of v k ≡ mem_allocated) × (use_cnt_of v k ≡ 0) × Off v)
          (mmalloc b fuel k neu buf sizereq w)
  unfolding mmalloc
  mmalloc-fresh buf sizereq w touch_off register_off off fits some_bytes got enough =
      let size = pad w.memory_alignment sizereq in
      let fresh = place_chunk-fresh size (record w { state_locked = true }) in
      let room =
        ensure_enough_space-fits b fuel size (record w { state_locked = true }) fits enough in
      let some_size : (size == 0) ≡ false = ground arith in
      let some_buf : (buf == 0) ≡ false = ground arith in
      rw (room, some_size, some_buf)
        (
          refl,
          ground (arith, fresh),
          ground (arith, fresh),
          place_chunk-off size (record w { state_locked = true }) touch_off register_off off,
        )
