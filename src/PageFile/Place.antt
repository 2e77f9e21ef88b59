-- ===== src/PageFile/Place.antt =====
-- `allocInFree` and the end of `pfmalloc` of src/managedFileSwap.cpp: a chunk is placed in a free
-- location, and the allocator stays in order.
use rambrain_uwp.Prelude.{
  ℕ, ◌+◌, ◌-◌, ◌≡◌, ◌<◌, ◌≤◌, refl, sym, true, false, List, [], ◌∷◌, Option, none, some, ◌==◌, ltb,
  leb, if◌then◌else◌, u64_mod, arith, Bool-cases, Option-cases, inl, inr, ap, subst, ◌∙◌,
}
use rambrain_uwp.PageFile.{
  PageFile, Location, is_free, location_at, page_end, chunk, finish_part, padded, alloc_in_free,
  first_fit, edit,
}
use rambrain_uwp.PageFile.Maps.{find, assign, erase}
use rambrain_uwp.PageFile.Sorted.{
  find-assign_if, find-erase_if, assign-assign, IsAscending, IsAscending-assign, IsAscending-erase,
  find-hd, find-tl, Ascends-tl,
}
use rambrain_uwp.PageFile.Tiles.{find-Fits, assign-Tiled, assign-assign-Tiled, find-inside}
use rambrain_uwp.PageFile.Cut.{
  sum, sum-assign, sum-assign_new, find-assign, padded_bounds, rest_of, alloc_in_free-whole,
  alloc_in_free-part,
}
use rambrain_uwp.PageFile.Malloc.{edit-found}
use rambrain_uwp.PageFile.Free.{IsLaid, IsSound, used_at, listed_at}
use rambrain_uwp.PageFile.Free.Round.{location-found}

-- The location of a chunk of `n` bytes in the free one `l`.
abbrev pub placed : (n c : ℕ) → Location → Location
placed n c l = finish_part (chunk c) page_end (record l { size = n })

-- `q` is `p` with `u` in use at `off`.
pub record IsPlaced (p : PageFile) (off : ℕ) (u : Location) (q : PageFile) : Type 0 where
  pub sound : IsSound q
  pub used :
      (i : ℕ)
      → used_at (find i q.all_space) ≡ (if i == off then some u else used_at (find i p.all_space))
  pub accounts : q.swap_free + sum p.all_space ≡ p.swap_free + sum q.all_space
  pub file_size : q.page_file_size ≡ p.page_file_size
  pub size : q.swap_size ≡ p.swap_size
  pub number : q.page_file_number ≡ p.page_file_number
  pub alignment : q.memory_alignment ≡ p.memory_alignment
  pub location : q.location_bytes ≡ p.location_bytes

-- What `pfmalloc` makes of the free location `l` at `off`.
abbrev pub after_malloc : PageFile → (off n c : ℕ) → Location → PageFile
after_malloc p off n c l = edit (alloc_in_free p off l n).0 off (finish_part (chunk c) page_end)

taken-listed :
    (i off : ℕ) (u : Location) (x : Option Location) (y : Option (Unit {0}))
    → is_free u.status ≡ false
    → y ≡ listed_at x
    → (if i == off then none else y) ≡ listed_at (if i == off then some u else x)
taken-listed i off u x y used h = elim (Bool-cases (i == off)) [
  | inl e ↦ rw (e, used) refl
  | inr ne ↦ rw ne h
]

taken-used :
    (i off : ℕ) (u : Location) (x : Option Location)
    → is_free u.status ≡ false
    → used_at (if i == off then some u else x) ≡ (if i == off then some u else used_at x)
taken-used i off u x used = elim (Bool-cases (i == off)) [
  | inl e ↦ rw (e, used) refl
  | inr ne ↦ rw ne refl
]

-- A new free location at `new`.
rest-listed :
    (i new : ℕ) (r : Location) (x : Option Location) (y : Option (Unit {0}))
    → is_free r.status ≡ true
    → y ≡ listed_at x
    → (if i == new then some tt else y) ≡ listed_at (if i == new then some r else x)
rest-listed i new r x y free h = elim (Bool-cases (i == new)) [
  | inl e ↦ rw (e, free) refl
  | inr ne ↦ rw ne h
]

cut-listed :
    (i off new : ℕ) (u r : Location) (x : Option Location) (y : Option (Unit {0}))
    → off < new
    → is_free u.status ≡ false
    → is_free r.status ≡ true
    → y ≡ listed_at x
    → (if i == new then some tt else if i == off then none else y)
      ≡ listed_at (if i == off then some u else if i == new then some r else x)
cut-listed i off new u r x y lt used free h = elim (Bool-cases (i == off)) [
  | inl e ↦ (let far : (i == new) ≡ false = ground arith in rw (e, far, used) refl)
  | inr ne ↦ rw ne (rest-listed i new r x y free h)
]

rest-used :
    (i new : ℕ) (r : Location) (m : List (ℕ × Location))
    → is_free r.status ≡ true
    → find new m ≡ none
    → used_at (if i == new then some r else find i m) ≡ used_at (find i m)
rest-used i new r m free gone = elim (Bool-cases (i == new)) [
  | inl e ↦
      let same : new ≡ i = ground arith in
      let none_here = subst (λ k. find k m ≡ none) same gone in
      rw (e, free) (sym (ap used_at none_here))
  | inr ne ↦ rw ne refl
]

-- The location is taken whole.
whole-IsPlaced :
    (p : PageFile) (off n c pad : ℕ) (l : Location)
    → IsSound p
    → find off p.all_space ≡ some l
    → is_free l.status ≡ true
    → padded p.memory_alignment n ≡ pad
    → n ≤ pad
    → pad ≤ l.size
    → l.size ≤ p.swap_free
    → p.swap_free < u64_mod
    → l.size - pad < p.location_bytes
    → IsPlaced p off (placed n c l) (after_malloc p off n c l)
whole-IsPlaced p off n c pad l s h free e le fits counted range small =
    let size = p.page_file_size in
    let hi = p.swap_size in
    let m = p.all_space in
    let short = record l { size = n } in
    let u = placed n c l in
    let q = record p {
      free_space = erase off p.free_space;
      swap_free = p.swap_free - (l.size - n);
      all_space = assign off short m;
    } in
    let cut = alloc_in_free-whole p off n pad l e le fits counted range small in
    let put = edit-found q off short (finish_part (chunk c) page_end) (find-assign off short m) in
    let (f, lt) = find-Fits (IsLaid size) off 0 m hi l s.laid h in
    let done : after_malloc p off n c l ≡ record q { all_space = assign off u m } =
      ap (λ x. edit x.0 off (finish_part (chunk c) page_end)) cut
      ∙ put
      ∙ ap (λ x. record q { all_space = x }) (assign-assign off u short m) in
    rw done (record {
      sound = record {
        laid =
            (assign-Tiled (IsLaid size) off 0 m hi l u s.laid h (record {
              at = record { key = f.at.key; room = omega (arith, f.at.room); within = f.at.within };
              whole = λ x. cc x;
            })).0;
        sorted = IsAscending-erase off p.free_space s.sorted;
        listed = λ i.
            find-erase_if i off p.free_space s.sorted
            ∙ taken-listed i off u (find i m) (find i p.free_space) refl (s.listed i)
            ∙ ap listed_at (sym (find-assign_if i off u m));
      };
      used = λ i. ap used_at (find-assign_if i off u m) ∙ taken-used i off u (find i m) refl;
      accounts = omega (arith, sum-assign off l u m h);
      file_size = refl;
      size = refl;
      number = refl;
      alignment = refl;
      location = refl;
    })

-- The location is cut.
part-IsPlaced :
    (p : PageFile) (off n c pad : ℕ) (l : Location)
    → IsSound p
    → find off p.all_space ≡ some l
    → is_free l.status ≡ true
    → padded p.memory_alignment n ≡ pad
    → n ≤ pad
    → 0 < n
    → pad < l.size
    → l.size ≤ p.swap_free
    → p.swap_free < u64_mod
    → p.location_bytes ≤ l.size - pad
    → IsPlaced p off (placed n c l) (after_malloc p off n c l)
part-IsPlaced p off n c pad l s h free e le pos fits counted range large =
    let size = p.page_file_size in
    let hi = p.swap_size in
    let m = p.all_space in
    let fs = p.free_space in
    let short = record l { size = n } in
    let u = placed n c l in
    let rest = rest_of pad l in
    let new = off + pad in
    let more = assign new rest m in
    let q = record p {
      free_space = assign new tt (erase off fs);
      swap_free = p.swap_free - (pad - n);
      all_space = assign off short more;
    } in
    let (f, lt) = find-Fits (IsLaid size) off 0 m hi l s.laid h in
    let end = f.whole free in
    let cut =
      alloc_in_free-part p off n pad l e le (omega (arith, fits)) counted range large f.at.key in
    let put =
      edit-found q off short (finish_part (chunk c) page_end) (find-assign off short more) in
    let done : after_malloc p off n c l ≡ record q { all_space = assign off u more } =
      ap (λ x. edit x.0 off (finish_part (chunk c) page_end)) cut
      ∙ put
      ∙ ap (λ x. record q { all_space = x }) (assign-assign off u short more) in
    let gone =
      find-inside (IsLaid size) off new 0 m hi l s.laid h (omega arith) (omega (arith, end)) in
    let there : find off more ≡ some l =
      find-assign_if off new rest m ∙ (let ne : (off == new) ≡ false = ground arith in rw ne h) in
    let laid =
      (assign-assign-Tiled (IsLaid size) off new 0 m hi l u rest s.laid h (omega arith)
        (omega (arith, end))
        (record {
          at = record {
            key = f.at.key;
            room = omega arith;
            within = omega (arith, f.at.within, end);
          };
          whole = λ x. cc x;
        })
        (record {
          at = record {
            key = omega (arith, f.at.key);
            room = omega (arith, end);
            within = omega (arith, f.at.within, end);
          };
          whole = λ _. omega (arith, end);
        })).0 in
    rw done (record {
      sound = record {
        laid = laid;
        sorted = IsAscending-assign new tt (erase off fs) (IsAscending-erase off fs s.sorted);
        listed = λ i.
            find-assign_if i new tt (erase off fs)
            ∙ ap (λ y. if i == new then some tt else y) (find-erase_if i off fs s.sorted)
            ∙ cut-listed i off new u rest (find i m) (find i fs) (omega arith) refl free
                (s.listed i)
            ∙ ap (λ x. listed_at (if i == off then some u else x))
                (sym (find-assign_if i new rest m))
            ∙ ap listed_at (sym (find-assign_if i off u more));
      };
      used = λ i.
          ap used_at (find-assign_if i off u more)
          ∙ taken-used i off u (find i more) refl
          ∙ ap (λ x. if i == off then some u else x)
              (ap used_at (find-assign_if i new rest m) ∙ rest-used i new rest m free gone);
      accounts = omega (arith, sum-assign off l u more there, sum-assign_new new rest m gone);
      file_size = refl;
      size = refl;
      number = refl;
      alignment = refl;
      location = refl;
    })

-- Whatever is left of the location.
pub after_malloc-IsPlaced :
    (p : PageFile) (off n c : ℕ) (l : Location)
    → IsSound p
    → find off p.all_space ≡ some l
    → is_free l.status ≡ true
    → 0 < p.memory_alignment
    → 0 < p.location_bytes
    → 0 < n
    → padded p.memory_alignment n ≤ l.size
    → l.size ≤ p.swap_free
    → p.swap_free < u64_mod
    → IsPlaced p off (placed n c l) (after_malloc p off n c l)
      × ((alloc_in_free p off l n).1 ≡ some off)
after_malloc-IsPlaced p off n c l s h free al lb pos fits counted range =
    let pad = padded p.memory_alignment n in
    let le = (padded_bounds p.memory_alignment n al).0 in
    let at = (find-Fits (IsLaid p.page_file_size) off 0 p.all_space p.swap_size l s.laid h).0.at in
    elim (Bool-cases (ltb (l.size - pad) p.location_bytes)) [
      | inl e ↦ (
        whole-IsPlaced p off n c pad l s h free refl le fits counted range (ground arith),
        ap (λ x. x.1) (alloc_in_free-whole p off n pad l refl le fits counted range (ground arith)),
      )
      | inr e ↦
          let large : p.location_bytes ≤ l.size - pad = ground arith in
          (
            part-IsPlaced p off n c pad l s h free refl le pos (omega arith) counted range large,
            ap (λ x. x.1)
                (alloc_in_free-part p off n pad l refl le fits counted range large at.key),
          )
    ]

pub first_fit-listed :
    (p : PageFile) (m : List (ℕ × Unit {0})) (n o : ℕ)
    → IsAscending m
    → first_fit p m n ≡ some o
    → (find o m ≡ some tt) × (n ≤ (location_at p o).size)
unfolding first_fit
first_fit-listed p [] n o a h = absurd (ground arith)
first_fit-listed p ((i, u) ∷ m) n o a h = elim (Bool-cases (leb n (location_at p i).size)) [
  | inl e ↦
      let same : i ≡ o = ground arith in
      subst (λ k. (find k ((i, u) ∷ m) ≡ some tt) × (n ≤ (location_at p k).size)) same
        (find-hd i u m, ground arith)
  | inr e ↦
      let r = first_fit-listed p m n o (Ascends-tl i m a) (ground arith) in
      (find-tl o i u tt m a r.0, r.1)
]

-- A listed offset is that of a free location.
pub listed-free :
    (p : PageFile) (o : ℕ)
    → IsSound p
    → find o p.free_space ≡ some tt
    → (find o p.all_space ≡ some (location_at p o)) × (is_free (location_at p o).status ≡ true)
listed-free p o s h = elim (Option-cases (find o p.all_space)) [
  | inl gone ↦ let both = sym h ∙ s.listed o ∙ ap listed_at gone in absurd (ground (arith, both))
  | inr (l, there) ↦
      let both = sym h ∙ s.listed o ∙ ap listed_at there in
      let here = location-found p o l there in rw here (there, ground (arith, both))
]
