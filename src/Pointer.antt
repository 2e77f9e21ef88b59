-- ===== src/Pointer.antt =====
-- src/genericManagedPtr.h and .cpp: the reference counts of `genericManagedPtr`. A tracker is the
-- address of an `unsigned int`; `freed` lists the chunks on which `mfree` has been called, `deleted`
-- the trackers that have been deleted, the latest first.
pub mod Counted
pub mod Lives
use rambrain_uwp.Prelude.{
  ℕ, zero, suc, ◌+◌, ◌-◌, ◌%◌, ◌^◌, Bool, true, false, List, [], ◌∷◌, Option, none, some, ◌==◌, ltb,
  not, ◌&&◌, if◌then◌else◌,
}
use rambrain_uwp.Links.{update}

pub record Pointer : Type 0 where
  pub chunk : ℕ
  pub tracker : ℕ
  pub n_elem : ℕ
  pub s_size : ℕ

pub record Trackers : Type 0 where
  pub count : ℕ → ℕ
  pub freed : List ℕ
  pub deleted : List ℕ

-- `rambrain_atomic_add_fetch ( tracker, 1 )` and `rambrain_atomic_sub_fetch ( tracker, 1 )`.
unfoldable pub add_fetch : (tracker : ℕ) → Trackers → Trackers
add_fetch t s = record s { count = update s.count t ((s.count t + 1) % 2 ^ 32) }

unfoldable pub sub_fetch : (tracker : ℕ) → Trackers → Trackers
sub_fetch t s = record s { count = update s.count t ((s.count t + (2 ^ 32 - 1)) % 2 ^ 32) }

-- The constructor, after `new unsigned int` has returned `tracker` and `mmalloc` the chunk.
unfoldable pub create : (s_size n_elem tracker chunk : ℕ) → Trackers → Pointer × Trackers
create size n t c s = (
  record { chunk = if n == 0 then 0 else c; tracker = t; n_elem = n; s_size = size },
  record s { count = update s.count t 1 },
)

-- The copy constructor.
unfoldable pub copy : Pointer → Trackers → Pointer × Trackers
copy ref s = (ref, add_fetch ref.tracker s)

-- `mDelete`; `none` is the read through a NULL chunk.
unfoldable pub m_delete : Pointer → Trackers → Option Trackers
m_delete p s =
    let gone = record s { deleted = p.tracker ∷ s.deleted } in
    if ltb 0 p.s_size
    then (if p.chunk == 0 then none else some (record gone { freed = p.chunk ∷ s.freed }))
    else some gone

-- `~genericManagedPtr`, and the same step in the assignment.
unfoldable pub release : Pointer → Trackers → Option Trackers
release p s =
    let t = sub_fetch p.tracker s in if t.count p.tracker == 0 then m_delete p t else some t

-- `operator=`: the new value of `*this`.
unfoldable pub assign_from : (this ref : Pointer) → Trackers → Option (Pointer × Trackers)
assign_from this ref s =
    let left : Option Trackers = if this.chunk == 0 then some s else release this s in
    if not (this.chunk == 0) && (ref.chunk == this.chunk)
    then some (this, s)
    else elim left [ none ↦ none | some t ↦ some (ref, add_fetch ref.tracker t) ]
