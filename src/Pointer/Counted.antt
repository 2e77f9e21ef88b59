-- ===== src/Pointer/Counted.antt =====
-- The reference counts of src/genericManagedPtr.cpp count the pointers that live.
use rambrain_uwp.Prelude.{
  ℕ, suc, ◌+◌, ◌^◌, ◌<◌, ◌≤◌, ◌≡◌, ◌≢◌, ◌⊎◌, refl, false, List, [], ◌∷◌, ◌++◌, none, some, ◌==◌,
  if◌then◌else◌, elem, arith, length,
}
use rambrain_uwp.Pointer.{Pointer, Trackers, add_fetch, sub_fetch, create, copy, m_delete, release}

-- How many of the pointers hold the tracker.
abbrev pub holders : ℕ → List Pointer → ℕ
holders t [] = 0
holders t (p ∷ ps) = (if p.tracker == t then 1 else 0) + holders t ps

-- A tracker that is held counts its holders, and has not been deleted.
pub record IsCounted (ps : List Pointer) (s : Trackers) : Type 0 where
  pub counts : (t : ℕ) → (holders t ps ≡ 0) ⊎ (s.count t ≡ holders t ps)
  pub alive : (t : ℕ) → (holders t ps ≡ 0) ⊎ (elem t s.deleted ≡ false)
  pub few : length ps < 2 ^ 32

holders-append :
    (t : ℕ) (xs : List Pointer) (p : Pointer) (ys : List Pointer)
    → holders t (xs ++ p ∷ ys) ≡ (if p.tracker == t then 1 else 0) + holders t (xs ++ ys)
holders-append t [] p ys = refl
holders-append t (x ∷ xs) p ys = omega (arith, holders-append t xs p ys)

holders-le : (t : ℕ) (ps : List Pointer) → holders t ps ≤ length ps
holders-le t [] = omega arith
holders-le t (p ∷ ps) = ground (arith, holders-le t ps)

length-remove :
    (xs : List Pointer) (p : Pointer) (ys : List Pointer)
    → length (xs ++ p ∷ ys) ≡ suc (length (xs ++ ys))
length-remove [] p ys = refl
length-remove (x ∷ xs) p ys = omega (arith, length-remove xs p ys)

-- A new pointer on a tracker that nobody holds.
pub create-IsCounted :
    (size n t c : ℕ) (ps : List Pointer) (s : Trackers)
    → holders t ps ≡ 0
    → elem t s.deleted ≡ false
    → suc (length ps) < 2 ^ 32
    → IsCounted ps s
    → IsCounted ((create size n t c s).0 ∷ ps) (create size n t c s).1
unfolding create
create-IsCounted size n t c ps s fresh alive few h = record {
  counts = λ u. ground (arith, h.counts u);
  alive = λ u. ground (arith, h.alive u);
  few = few;
}

-- A copy is one holder more, if there are less than 2 ^ 32 pointers.
pub copy-IsCounted :
    (xs : List Pointer) (p : Pointer) (ys : List Pointer) (s : Trackers)
    → IsCounted (xs ++ p ∷ ys) s
    → suc (length (xs ++ p ∷ ys)) < 2 ^ 32
    → IsCounted ((copy p s).0 ∷ xs ++ p ∷ ys) (copy p s).1
unfolding copy add_fetch
copy-IsCounted xs p ys s h few =
    let own = holders-append p.tracker xs p ys in
    let most = holders-le p.tracker (xs ++ p ∷ ys) in
    record {
      counts = λ t. ground (arith, h.counts t, h.counts p.tracker, own, most);
      alive = λ t. ground (arith, h.alive t, h.alive p.tracker, own);
      few = few;
    }

-- One holder less.
sub_fetch-counts :
    (xs : List Pointer) (p : Pointer) (ys : List Pointer) (s : Trackers) (t : ℕ)
    → IsCounted (xs ++ p ∷ ys) s
    → (holders t (xs ++ ys) ≡ 0) ⊎ ((sub_fetch p.tracker s).count t ≡ holders t (xs ++ ys))
unfolding sub_fetch
sub_fetch-counts xs p ys s t h =
    let here = holders-append t xs p ys in
    let most = holders-le t (xs ++ p ∷ ys) in ground (arith, h.counts t, here, most)

sub_fetch-own :
    (xs : List Pointer) (p : Pointer) (ys : List Pointer) (s : Trackers)
    → IsCounted (xs ++ p ∷ ys) s
    → (sub_fetch p.tracker s).count p.tracker ≡ holders p.tracker (xs ++ ys)
unfolding sub_fetch
sub_fetch-own xs p ys s h =
    let here = holders-append p.tracker xs p ys in
    let most = holders-le p.tracker (xs ++ p ∷ ys) in ground (arith, h.counts p.tracker, here, most)

sub_fetch-deleted :
    (t : ℕ) (s : Trackers)
    → ((sub_fetch t s).deleted ≡ s.deleted) × ((sub_fetch t s).freed ≡ s.freed)
unfolding sub_fetch
sub_fetch-deleted t s = (refl, refl)

-- If a pointer to a chunk goes that nobody shares, the chunk is freed and the tracker deleted, and the
-- counts of the others stay right. Its elements have a size.
pub release-last :
    (xs : List Pointer) (p : Pointer) (ys : List Pointer) (s : Trackers)
    → IsCounted (xs ++ p ∷ ys) s
    → p.chunk ≢ 0
    → 0 < p.s_size
    → holders p.tracker (xs ++ ys) ≡ 0
    → (t : Trackers) × (release p s ≡ some t)
      × IsCounted (xs ++ ys) t
      × (t.freed ≡ p.chunk ∷ s.freed)
      × (t.deleted ≡ p.tracker ∷ s.deleted)
unfolding release m_delete
release-last xs p ys s h some_chunk sized last =
    let u = sub_fetch p.tracker s in
    let own = sub_fetch-own xs p ys s h in
    let same = sub_fetch-deleted p.tracker s in
    (
      record u { freed = p.chunk ∷ u.freed; deleted = p.tracker ∷ u.deleted },
      ground (arith, own),
      record {
        counts = λ t. sub_fetch-counts xs p ys s t h;
        alive = λ t. ground (arith, h.alive t, holders-append t xs p ys, same);
        few = omega (arith, h.few, length-remove xs p ys);
      },
      ground (arith, same),
      ground (arith, same),
    )

-- If a pointer goes while others hold its tracker, nothing is freed or deleted, and the counts stay
-- right.
pub release-held :
    (xs : List Pointer) (p : Pointer) (ys : List Pointer) (s : Trackers)
    → IsCounted (xs ++ p ∷ ys) s
    → holders p.tracker (xs ++ ys) ≢ 0
    → (t : Trackers) × (release p s ≡ some t)
      × IsCounted (xs ++ ys) t
      × (t.freed ≡ s.freed)
      × (t.deleted ≡ s.deleted)
unfolding release
release-held xs p ys s h held =
    let own = sub_fetch-own xs p ys s h in
    let same = sub_fetch-deleted p.tracker s in
    (
      sub_fetch p.tracker s,
      ground (arith, own),
      record {
        counts = λ t. sub_fetch-counts xs p ys s t h;
        alive = λ t. ground (arith, h.alive t, holders-append t xs p ys, same);
        few = omega (arith, h.few, length-remove xs p ys);
      },
      same.1,
      same.0,
    )

-- A pointer that is made for no elements has no chunk, and its destruction reads through NULL if the
-- elements have a size.
pub release-empty :
    (size t c : ℕ) (s : Trackers)
    → 0 < size
    → let (p, u) = create size 0 t c s in release p u ≡ none
unfolding create release m_delete sub_fetch
release-empty size t c s sized = ground arith
