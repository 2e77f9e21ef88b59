-- ===== src/PageFile/Extend/Sound.antt =====
-- The allocator of src/managedFileSwap.cpp is in order from the constructor on, and `extendSwap` keeps it
-- so.
use rambrain_uwp.Prelude.{
  ℕ, zero, suc, ◌+◌, ◌*◌, ◌%◌, ◌<◌, ◌≡◌, refl, sym, ap, subst, ◌∙◌, true, List, [], ◌∷◌, ◌++◌, ◌==◌,
  add64, u64_mod, arith, Bool-cases, inl, inr, some, Option, if◌then◌else◌,
}
use native.Mathlib.Nat.{add-mul}
use rambrain_uwp.PageFile.{PageFile, Location, is_free}
use rambrain_uwp.PageFile.Maps.{find, assign}
use rambrain_uwp.PageFile.Sorted.{find-assign_if, IsAscending-assign}
use rambrain_uwp.PageFile.Tiles.{Tiled}
use rambrain_uwp.PageFile.Free.{IsLaid, IsSound, listed_at}
use rambrain_uwp.PageFile.View.{in_use}
use rambrain_uwp.PageFile.Extend.{empty_location, enter_files, lay_out}
use rambrain_uwp.PageFile.Extend.Layout.{assign-end, Tiled-append, with_files}

-- The allocator is in order in a swap of `hi` bytes.
abbrev pub SoundTo : (hi : ℕ) → PageFile → Type 0
SoundTo hi p = IsSound (record p { swap_size = hi })

in_use-append :
    (m : List (ℕ × Location)) (o : ℕ) (l : Location)
    → is_free l.status ≡ true
    → in_use (m ++ (o, l) ∷ []) ≡ in_use m
in_use-append [] o l h = rw h refl
in_use-append ((i, k) ∷ m) o l h = rw (in_use-append m o l h) refl

abbrev enter : (off n : ℕ) → PageFile → PageFile
enter off n p = record p {
  free_space = assign off tt p.free_space;
  all_space = assign off (empty_location n p.page_file_size) p.all_space;
}

entered_listed :
    (i o : ℕ) (l : Location) (x : Option Location) (y : Option (Unit {0}))
    → is_free l.status ≡ true
    → y ≡ listed_at x
    → (if i == o then some tt else y) ≡ listed_at (if i == o then some l else x)
entered_listed i o l x y free h = elim (Bool-cases (i == o)) [
  | inl e ↦ rw (e, free) refl
  | inr ne ↦ rw ne h
]

enter_one :
    (n : ℕ) (p : PageFile)
    → 0 < p.page_file_size
    → SoundTo (n * p.page_file_size) p
    → SoundTo (suc n * p.page_file_size) (enter (n * p.page_file_size) n p)
      × (in_use (enter (n * p.page_file_size) n p).all_space ≡ in_use p.all_space)
enter_one n p pos s =
    let size = p.page_file_size in
    let o = n * size in
    let l = empty_location n size in
    let next : suc n * size ≡ o + size = omega (arith, add-mul n 1 size) in
    let last : assign o l p.all_space ≡ p.all_space ++ (o, l) ∷ [] =
      assign-end (IsLaid size) 0 o l p.all_space s.laid in
    (
      record {
        laid = rw last (
            Tiled-append (IsLaid size) 0 o (suc n * size) l p.all_space s.laid (omega (arith, next))
              (record {
                at = record {
                  key = omega arith;
                  room = omega (arith, next);
                  within = omega (arith, next);
                };
                whole = λ e. omega (arith, next);
              }));
        sorted = IsAscending-assign o tt p.free_space s.sorted;
        listed = λ i.
            (let free = find-assign_if i o tt p.free_space in
              let all = find-assign_if i o l p.all_space in
              free
              ∙ entered_listed i o l (find i p.all_space) (find i p.free_space) refl (s.listed i)
              ∙ ap listed_at (sym all));
      },
      ap in_use last ∙ in_use-append p.all_space o l refl,
    )

pub enter_files-IsSound :
    (n count : ℕ) (p : PageFile)
    → 0 < p.page_file_size
    → (n + count) * p.page_file_size < u64_mod
    → SoundTo (n * p.page_file_size) p
    → SoundTo ((n + count) * p.page_file_size) (enter_files n count p)
      × (in_use (enter_files n count p).all_space ≡ in_use p.all_space)
unfolding enter_files
enter_files-IsSound n zero p pos b s =
    (subst (λ k. SoundTo (k * p.page_file_size) p) (omega arith) s, refl)
enter_files-IsSound n (suc more) p pos b s =
    let size = p.page_file_size in
    let o = n * size in
    let here : o % u64_mod ≡ o = omega (arith, b, add-mul n (suc more) size) in
    let (one, same) =
      subst
        (λ i.
          SoundTo (suc n * size) (enter i n p)
          × (in_use (enter i n p).all_space ≡ in_use p.all_space))
        (sym here) (enter_one n p pos s) in
    let q = enter (o % u64_mod) n p in
    let rows : suc n + more ≡ n + suc more = omega arith in
    let (rest, all) =
      enter_files-IsSound (suc n) more q pos (subst (λ k. k * size < u64_mod) (sym rows) b) one in
    (subst (λ k. SoundTo (k * size) (enter_files (suc n) more q)) rows rest, all ∙ same)

-- What entering files leaves alone.
pub record IsKept (p q : PageFile) : Type 0 where
  pub size : q.swap_size ≡ p.swap_size
  pub free : q.swap_free ≡ p.swap_free
  pub number : q.page_file_number ≡ p.page_file_number
  pub file_size : q.page_file_size ≡ p.page_file_size
  pub alignment : q.memory_alignment ≡ p.memory_alignment
  pub location : q.location_bytes ≡ p.location_bytes

pub enter_files-IsKept : (n count : ℕ) (p : PageFile) → IsKept p (enter_files n count p)
unfolding enter_files
enter_files-IsKept n zero p = record {
  size = refl;
  free = refl;
  number = refl;
  file_size = refl;
  alignment = refl;
  location = refl;
}
enter_files-IsKept n (suc more) p =
    let k = enter_files-IsKept (suc n) more (enter ((n * p.page_file_size) % u64_mod) n p) in
    record {
      size = k.size;
      free = k.free;
      number = k.number;
      file_size = k.file_size;
      alignment = k.alignment;
      location = k.location;
    }

settle : (hi : ℕ) (p : PageFile) → SoundTo hi p → p.swap_size ≡ hi → IsSound p
settle hi p s e = record {
  laid = subst (λ k. Tiled (IsLaid p.page_file_size) 0 p.all_space k) (sym e) s.laid;
  sorted = s.sorted;
  listed = s.listed;
}

abbrev bare : (location_bytes alignment one number : ℕ) → PageFile
bare location_bytes al one number = record {
  page_file_number = number;
  page_file_size = one;
  memory_alignment = al;
  location_bytes = location_bytes;
  swap_size = (number * one) % u64_mod;
  swap_free = (number * one) % u64_mod;
  free_space = [];
  all_space = [];
}

-- The constructor's page files are in order and empty.
pub lay_out-IsSound :
    (location_bytes al one number : ℕ)
    → 0 < one
    → number * one < u64_mod
    → let p = lay_out location_bytes al one number in
      IsSound p × (in_use p.all_space ≡ []) × IsKept (bare location_bytes al one number) p
unfolding lay_out find
lay_out-IsSound location_bytes al one number pos b =
    let p = bare location_bytes al one number in
    let (s, all) =
      enter_files-IsSound 0 number p pos (omega (arith, b))
        (record { laid = omega arith; sorted = tt; listed = λ i. refl }) in
    let k = enter_files-IsKept 0 number p in
    let q = enter_files 0 number p in
    (settle ((0 + number) * one) q s (k.size ∙ omega (arith, b)), all, k)

-- `extendSwap` where the disk has room.
pub with_files-IsSound :
    (files bytes : ℕ) (p : PageFile)
    → 0 < p.page_file_size
    → p.swap_size ≡ p.page_file_number * p.page_file_size
    → files * p.page_file_size ≡ bytes
    → p.swap_size + bytes < u64_mod
    → IsSound p
    → let q = with_files files bytes p in
      IsSound q × (in_use q.all_space ≡ in_use p.all_space) × (q.swap_size ≡ p.swap_size + bytes)
unfolding add64
with_files-IsSound files bytes p pos whole e b s =
    let unit = p.page_file_size in
    let n = p.page_file_number in
    let q = record p { page_file_number = n + files } in
    let end : (n + files) * unit ≡ p.swap_size + bytes =
      omega (arith, add-mul n files unit, whole) in
    let (rest, all) = enter_files-IsSound n files q pos (omega (arith, end, b)) (record {
      laid = subst (λ k. Tiled (IsLaid unit) 0 p.all_space k) whole s.laid;
      sorted = s.sorted;
      listed = s.listed;
    }) in
    let k = enter_files-IsKept n files q in
    let grown : (with_files files bytes p).swap_size ≡ p.swap_size + bytes =
      omega (arith, k.size, b) in
    (
      settle ((n + files) * unit) (with_files files bytes p)
          (record { laid = rest.laid; sorted = rest.sorted; listed = rest.listed })
          (grown ∙ sym end),
      all,
      grown,
    )
