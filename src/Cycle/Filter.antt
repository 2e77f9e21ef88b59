-- ===== src/Cycle/Filter.antt =====
-- `filterChain` and `insertBefore` of src/cyclicManagedMemory.cpp: the elements of a stretch of the
-- ring whose chunks are in given states are taken out, in order, and put back elsewhere. `end` is the
-- address of the local variable `end`; a stretch is given by its first and last element.
pub mod Close
pub mod Loop
pub mod Partition
pub mod Reconnect
use mathlib.Core.Option.{map}
use rambrain_uwp.Prelude.{
  ℕ, zero, suc, Bool, true, false, ◌&&◌, ◌||◌, not, List, [], ◌∷◌, Option, none, some, ◌==◌,
  if◌then◌else◌,
}
use rambrain_uwp.Chunk.{MemoryStatus, Chunk, is}
use rambrain_uwp.Links.{Links, mutual_connect}
use rambrain_uwp.World.{World}

-- `struct chain`.
pub record ChainEnds : Type 0 where
  pub from : ℕ
  pub to : ℕ

abbrev pub no_chain : ChainEnds
no_chain = record { from = 0; to = 0 }

abbrev is_one_of : MemoryStatus → List MemoryStatus → Bool
is_one_of s [] = false
is_one_of s (t ∷ ts) = is s t || is_one_of s ts

abbrev same_flag : Bool → Bool → Bool
same_flag true b = b
same_flag false b = not b

-- `separateThis`; the list of states comes without the terminating MEM_ROOT.
unfoldable pub separate_this : World → List MemoryStatus → Option Bool → (cur : ℕ) → Bool
separate_this w separate_status preemptive_loaded cur =
    let c = w.chunks (w.chunk_of cur) in
    is_one_of c.status separate_status
    || (elim preemptive_loaded [ none ↦ false | some b ↦ same_flag c.preemptive_loaded b ])

-- The variables of the loop.
pub record FilterState : Type 0 where
  pub links : Links
  pub sepa_start : ℕ
  pub separated : ChainEnds
  pub first_valid : ℕ
  pub last_valid : ℕ

-- The area from `sepaStart` up to `cur` is cut out and chained to what is separated already.
unfoldable pub close_area : (cur : ℕ) → FilterState → FilterState
close_area cur s =
    let m = s.links in
    let cut = mutual_connect m (m.prev s.sepa_start) cur in
    let first = s.separated.from == 0 in
    record s {
      links = if first then cut else mutual_connect cut s.separated.to s.sepa_start;
      sepa_start = 0;
      separated = record {
        from = if first then s.sepa_start else s.separated.from;
        to = m.prev cur;
      };
    }

unfoldable pub close_pending : (cur : ℕ) → FilterState → FilterState
close_pending cur s = if s.sepa_start == 0 then s else close_area cur s

-- `cur` is not separated.
unfoldable pub mark_valid : (cur : ℕ) → FilterState → FilterState
mark_valid cur s = record s {
  first_valid = if s.first_valid == 0 then cur else s.first_valid;
  last_valid = cur;
}

-- The end of `filterChain`: the links, what is left of the stretch, and what is separated.
unfoldable pub reconnect :
    (cyclic : Bool) → (before after : ℕ) → FilterState → Links × ChainEnds × ChainEnds
reconnect cyclic before after s =
    let m = s.links in
    let f = s.first_valid in
    let l = s.last_valid in
    (
      if l == 0
          then (if cyclic then m else mutual_connect m before after)
          else if cyclic
          then mutual_connect m l f
          else mutual_connect (mutual_connect m before f) l after,
      record { from = f; to = l },
      s.separated,
    )

-- The variables before the loop: `end` stands between the last and the first element of the stretch.
unfoldable pub loop_start : (end : ℕ) → Links → ChainEnds → FilterState
loop_start end m area = record {
  links = mutual_connect (mutual_connect m area.to end) end area.from;
  sepa_start = 0;
  separated = no_chain;
  first_valid = 0;
  last_valid = 0;
}

module _ (separate : ℕ → Bool) (end : ℕ) where
  unfoldable pub filter_step : (cur : ℕ) → FilterState → FilterState
  filter_step cur s =
      if separate cur
      then record s { sepa_start = if s.sepa_start == 0 then cur else s.sepa_start }
      else close_pending cur (mark_valid cur s)

  -- `none`: the loop has not come to `end` with the given fuel.
  unfoldable pub filter_loop : (fuel cur : ℕ) → FilterState → Option FilterState
  filter_loop zero cur s = none
  filter_loop (suc f) cur s =
      let s' = filter_step cur s in
      let rest = filter_loop f (s'.links.next cur) s' in
      if s'.links.next cur == end then some s' else rest

  unfoldable pub filter_chain :
      (fuel : ℕ) → Links → ChainEnds → Option (Links × ChainEnds × ChainEnds)
  filter_chain fuel m area =
      let after = m.next area.to in
      let before = m.prev area.from in
      map (λ s. reconnect (after == area.from) before after (close_pending end s))
        (filter_loop fuel area.from (loop_start end m area))

unfoldable pub insert_before : (pos : ℕ) → ChainEnds → Links → Links
insert_before pos separated m =
    if separated.from == 0
    then m
    else mutual_connect (mutual_connect m (m.prev pos) separated.from) separated.to pos
