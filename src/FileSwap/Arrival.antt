-- ===== src/FileSwap/Arrival.antt =====
-- `asyncIoArrived` and `checkForAIO` of src/managedFileSwap.cpp: what happens when the kernel reports
-- that requests are done.
pub mod Order
pub mod Transfers
use rambrain_uwp.Prelude.{
  ℕ, suc, Bool, true, false, ◌&&◌, List, [], ◌∷◌, Option, none, some, ◌==◌, if◌then◌else◌,
}
use rambrain_uwp.Links.{update}
use rambrain_uwp.Outcome.{memory_exception}
use rambrain_uwp.PageFile.{location_at}
use rambrain_uwp.PageFile.Maps.{find, erase}
use rambrain_uwp.FileSwap.{
  FileSwap, Result, done, thrown, unfinished, fault, ◌>>=◌, decrement, transfer_length,
  complete_transaction_on,
}

-- `struct io_event`: the request, the bytes moved and the error.
pub record Event : Type 0 where
  pub obj : ℕ
  pub res : ℕ
  pub res2 : ℕ

-- The location is free for other transfers, and its transaction has one transfer less to wait for.
unfoldable pub release_part : (off tracker : ℕ) → FileSwap → FileSwap
release_part off tracker s = record s {
  aio_ptr = update s.aio_ptr off none;
  aio_lock = update s.aio_lock off false;
  trackers = update s.trackers tracker (decrement (s.trackers tracker));
}

abbrev pub one_done : FileSwap → FileSwap
one_done s = record s { total_swap_actions_queued = decrement s.total_swap_actions_queued }

module _ (fuel : ℕ) where
  unfoldable pub async_io_arrived : (off : ℕ) → Event → FileSwap → Result (Unit {0})
  unfolding release_part complete_transaction_on
  async_io_arrived off event s = elim (s.aio_ptr off) [
    | none ↦ fault
    | some a ↦
        (let size = (location_at s.page_file off).size in
          let t = release_part off a.tracker s in
          let completed =
            if s.trackers a.tracker == 1 then complete_transaction_on fuel off t else done tt t in
          if event.res2 == 0 && event.res == transfer_length s.page_file.memory_alignment size
          then completed >>= (λ u v. done tt (one_done v))
          else thrown (memory_exception "unknown aio error") s)
  ]

  -- The loop of `checkForAIO` over the events.
  unfoldable pub handle_events : List Event → FileSwap → Result (Unit {0})
  unfolding async_io_arrived
  handle_events [] s = done tt s
  handle_events (e ∷ es) s = elim (find e.obj s.pending_aios) [
    | none ↦ handle_events es s
    | some off ↦
        async_io_arrived off e (record s { pending_aios = erase e.obj s.pending_aios }) >>= λ u t.
        handle_events es t
  ]

-- What the calls of `io_getevents` in one round give.
pub data Arrivals : Type 0 where
  arrived : List Event → Arrivals
  interrupted failed : Arrivals

-- The rounds of `checkForAIO`, given what each of them gets; `unfinished` if it still waits.
unfoldable pub get_events : (fuel : ℕ) → List Arrivals → FileSwap → Result Bool
unfolding handle_events
get_events fuel [] s = unfinished
get_events fuel (interrupted ∷ r) s = get_events fuel r s
get_events fuel (failed ∷ r) s =
    thrown (memory_exception "AIO Error") (record s { aio_waiter_lock = false })
get_events fuel (arrived es ∷ r) s =
    handle_events fuel es s >>= λ u t. done true (record t { aio_waiter_lock = false })

unfoldable pub check_for_aio : (fuel : ℕ) → List Arrivals → FileSwap → Result Bool
unfolding get_events
check_for_aio fuel rounds s =
    if s.aio_waiter_lock
    then done false s
    else if s.total_swap_actions_queued == 0
    then done true s
    else get_events fuel rounds (record s { aio_waiter_lock = true })
