-- ===== src/Examples/Transfers.antt =====
-- Runs of the transfers of src/managedFileSwap.cpp: the chunk 1 of 100 bytes goes to an empty page
-- file, and the chunk 2 comes back from two parts, whose transfers arrive in the other order.
use rambrain_uwp.Prelude.{
  ◌≡◌, refl, inl, add64, true, false, some, none, arith, List, [], ◌∷◌, ◌==◌, if◌then◌else◌,
}
use rambrain_uwp.Chunk.{mem_allocated, mem_swapin}
use rambrain_uwp.World.{World, put_status}
use rambrain_uwp.PageFile.{PageFile, page_part, page_end, next_part, chunk, location_at}
use rambrain_uwp.PageFile.Maps.{find}
use rambrain_uwp.FileSwap.{FileSwap, done, transfer_length, owner}
use rambrain_uwp.FileSwap.Arrival.{Event, handle_events}
use rambrain_uwp.FileSwap.Arrival.Transfers.{IsUnderWay}
use rambrain_uwp.FileSwap.Arrival.Order.{Arrive, Done, handle_events-Arrive}
use rambrain_uwp.FileSwap.Chunks.{swap_in}
use rambrain_uwp.FileSwap.Chunks.Accounts.{IsCounted}
use rambrain_uwp.FileSwap.Chunks.Exchange.{swap_in-arrives}
use rambrain_uwp.Examples.State.{three}
use rambrain_uwp.Examples.Swapping.{files}

abbrev with_file : World → PageFile → FileSwap
with_file w p = record {
  world = record w { swap_size = 2048; swap_free = 2048 };
  page_file = p;
  current_size = λ q. 0;
  aio_ptr = λ q. none;
  aio_lock = λ q. false;
  trackers = λ q. 0;
  pending_aios = [];
  total_swap_actions_queued = 0;
  io_submit_requests = [];
  aio_waiter_lock = false;
  new_address = 500;
}

abbrev writing : FileSwap
writing = with_file three files

abbrev parted : PageFile
parted = record files {
  all_space =
      (
        71,
        record {
          file = 0;
          offset = 71;
          size = 64;
          glob_off_next = next_part 200;
          status = page_part;
        },
      )
      ∷ (
        200,
        record { file = 0; offset = 200; size = 36; glob_off_next = chunk 2; status = page_end },
      )
      ∷ [];
}

abbrev reading : FileSwap
reading = with_file three parted

abbrev both : List Event
both = record { obj = 502; res = 40; res2 = 0 } ∷ record { obj = 501; res = 64; res2 = 0 } ∷ []

both-Arrive : Arrive parted ((501, 71) ∷ (502, 200) ∷ []) both []
unfolding transfer_length location_at find add64
both-Arrive = (
  (501, 71) ∷ [],
  (502, 200),
  [],
  refl,
  record { of = refl; no_error = refl; whole = refl },
  ([], (501, 71), [], refl, record { of = refl; no_error = refl; whole = refl }, refl),
)

swap_in-arrives_example :
    (t u : FileSwap) × (swap_in 100 (λ f n. 0) 4 79 2 reading ≡ done 100 t)
    × ((t.world.chunks 2).status ≡ mem_swapin)
    × (t.io_submit_requests
        ≡ record {
          aio = 501;
          reverse = true;
          file = 0;
          ram_buf = 79;
          ram_offset = 0;
          length = 64;
          offset = 71;
        }
          ∷ record {
            aio = 502;
            reverse = true;
            file = 0;
            ram_buf = 79;
            ram_offset = 64;
            length = 40;
            offset = 200;
          }
          ∷ [])
    × IsCounted 200 0 0 100 2 t.world
    × (handle_events 4 both t ≡ done tt u)
    × ((u.world.chunks 2).status ≡ mem_allocated)
    × ((u.world.chunks 2).loc_ptr ≡ 79)
    × IsCounted 200 0 0 100 2 u.world
unfolding location_at find transfer_length add64
swap_in-arrives_example =
    swap_in-arrives 100 (λ f n. 0) (λ f n. refl) 4 2 71 (200 ∷ []) reading (ground arith)
      (omega arith) (λ q. ground arith) (omega arith) both both-Arrive 79 200 0 0 100
      (record {
        size = refl;
        used = refl;
        swapped = refl;
        swap_used = refl;
        leaving = refl;
        in_range = omega arith;
      })
      refl refl refl

-- Two transfers are under way.
abbrev moving : FileSwap
moving = record (with_file (put_status three 2 mem_swapin) parted) {
  aio_ptr = λ q. some (record { aio = if q == 71 then 501 else 502; tracker = 500 });
  trackers = λ q. 2;
  pending_aios = (501, 71) ∷ (502, 200) ∷ [];
  total_swap_actions_queued = 2;
}

moving-IsUnderWay : IsUnderWay 4 500 2 ((501, 71) ∷ (502, 200) ∷ []) moving
unfolding find owner location_at
moving-IsUnderWay = record {
  transfers = (
    record { listed = refl; tracked = refl; owned = refl },
    (record { listed = refl; tracked = refl; owned = refl }, tt),
  );
  counted = refl;
  once = λ q. (ground arith, ground arith);
  in_range = omega arith;
  bounded = omega arith;
}

handle_events-Arrive_example :
    Done 4 500 2 (record { obj = 502; res = 40; res2 = 0 } ∷ []) ((501, 71) ∷ []) moving
unfolding transfer_length location_at find add64
handle_events-Arrive_example =
    handle_events-Arrive 4 500 2 (record { obj = 502; res = 40; res2 = 0 } ∷ [])
      ((501, 71) ∷ (502, 200) ∷ []) ((501, 71) ∷ []) moving moving-IsUnderWay (omega arith)
      (
        (501, 71) ∷ [],
        (502, 200),
        [],
        refl,
        record { of = refl; no_error = refl; whole = refl },
        refl,
      )
      (inl refl)
