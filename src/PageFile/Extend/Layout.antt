-- ===== src/PageFile/Extend/Layout.antt =====
-- The locations of src/managedFileSwap.cpp tile the swap from the constructor on, and `extendSwap` keeps
-- it so.
use rambrain_uwp.Prelude.{
  ℕ, zero, suc, ◌+◌, ◌-◌, ◌*◌, ◌/◌, ◌%◌, ◌^◌, ◌≤◌, ◌<◌, ◌≡◌, refl, sym, ap, subst, ◌∙◌, Bool, true,
  false, List, [], ◌∷◌, ◌++◌, ltb, add64, u64_mod, arith, ◌⊎◌,
}
use native.Mathlib.Nat.{div-add-mod', add-mul, mod-lt}
use rambrain_uwp.PageFile.{PageFile, Location}
use rambrain_uwp.PageFile.Maps.{assign}
use rambrain_uwp.PageFile.Tiles.{Tiled, start, Tiled-le}
use rambrain_uwp.PageFile.Cut.{IsAt, AllAt, sum}
use rambrain_uwp.PageFile.Extend.{
  alignment_for, file_size, file_number, lay_out, empty_location, enter_files, round_up, create,
  extend_swap,
}
use rambrain_uwp.Space.Alloc.{mod_step}

module _ {V : Type 0} (Fits : (o end : ℕ) → V → Type 0) where
  -- A key behind all others comes last.
  pub assign-end :
      (lo hi : ℕ) (v : V) (m : List (ℕ × V))
      → Tiled Fits lo m hi
      → assign hi v m ≡ m ++ (hi, v) ∷ []
  unfolding assign
  assign-end lo hi v [] t = refl
  assign-end lo hi v ((o, l) ∷ m) t =
      let before = Tiled-le Fits (start m hi) m hi t.3 in
      ground (arith, assign-end (start m hi) hi v m t.3)

  start-append : (hi e : ℕ) (v : V) (m : List (ℕ × V)) → start (m ++ (hi, v) ∷ []) e ≡ start m hi
  start-append hi e v [] = refl
  start-append hi e v ((o, l) ∷ m) = refl

  pub Tiled-append :
      (lo hi e : ℕ) (v : V) (m : List (ℕ × V))
      → Tiled Fits lo m hi
      → hi < e
      → Fits hi e v
      → Tiled Fits lo (m ++ (hi, v) ∷ []) e
  Tiled-append lo hi e v [] t l f = (sym t, l, f, refl)
  Tiled-append lo hi e v ((o, l) ∷ m) t le f =
      rw (start-append hi e v m) (t.0, t.1, t.2, Tiled-append (start m hi) hi e v m t.3 le f)

sum-append :
    (m : List (ℕ × Location)) (o : ℕ) (l : Location) → sum (m ++ (o, l) ∷ []) ≡ sum m + l.size
sum-append [] o l = omega arith
sum-append ((i, k) ∷ m) o l = omega (arith, sum-append m o l)

-- What entering files does to a page file.
record Entered (n count : ℕ) (p q : PageFile) : Type 0 where
  tiled : AllAt p.page_file_size ((n + count) * p.page_file_size) q.all_space
  bytes : sum q.all_space ≡ sum p.all_space + count * p.page_file_size
  number : q.page_file_number ≡ p.page_file_number
  size : q.page_file_size ≡ p.page_file_size
  swap_free : q.swap_free ≡ p.swap_free
  swap_size : q.swap_size ≡ p.swap_size

-- One file more.
one_more :
    (n : ℕ) (p : PageFile)
    → 0 < p.page_file_size
    → AllAt p.page_file_size (n * p.page_file_size) p.all_space
    → (n + 1) * p.page_file_size < u64_mod
    → let m =
        assign ((n * p.page_file_size) % u64_mod) (empty_location n p.page_file_size) p.all_space in
      AllAt p.page_file_size (suc n * p.page_file_size) m
      × (sum m ≡ sum p.all_space + p.page_file_size)
one_more n p pos t b =
    let size = p.page_file_size in
    let o = n * size in
    let l = empty_location n size in
    let next : suc n * size ≡ o + size = omega (arith, add-mul n 1 size) in
    let off : o % u64_mod ≡ o = omega (arith, b, add-mul n 1 size) in
    let last = ap (λ i. assign i l p.all_space) off ∙ assign-end (IsAt size) 0 o l p.all_space t in
    rw last (
      Tiled-append (IsAt size) 0 o (suc n * size) l p.all_space t (omega (arith, next))
          (record { key = omega arith; room = omega (arith, next); within = omega (arith, next) }),
      sum-append p.all_space o l,
    )

enter_files-Entered :
    (n count : ℕ) (p : PageFile)
    → 0 < p.page_file_size
    → AllAt p.page_file_size (n * p.page_file_size) p.all_space
    → (n + count) * p.page_file_size < u64_mod
    → Entered n count p (enter_files n count p)
unfolding enter_files
enter_files-Entered n zero p pos t b = record {
  tiled = subst (λ k. AllAt p.page_file_size (k * p.page_file_size) p.all_space) (omega arith) t;
  bytes = omega arith;
  number = refl;
  size = refl;
  swap_free = refl;
  swap_size = refl;
}
enter_files-Entered n (suc more) p pos t b =
    let size = p.page_file_size in
    let off = (n * size) % u64_mod in
    let q = record p {
      free_space = assign off tt p.free_space;
      all_space = assign off (empty_location n size) p.all_space;
    } in
    let one = one_more n p pos t (omega (arith, b, add-mul n 1 size, add-mul (n + 1) more size)) in
    let same : suc n + more ≡ n + suc more = omega arith in
    let rest =
      enter_files-Entered (suc n) more q pos one.0 (subst (λ k. k * size < u64_mod) (sym same) b) in
    record {
      tiled =
          subst (λ k. AllAt size (k * size) (enter_files (suc n) more q).all_space) same rest.tiled;
      bytes = omega (arith, rest.bytes, one.1, add-mul 1 more size);
      number = rest.number;
      size = rest.size;
      swap_free = rest.swap_free;
      swap_size = rest.swap_size;
    }

-- The swap consists of whole page files, and the locations tile it.
pub record IsLaidOut (p : PageFile) : Type 0 where
  pub positive : 0 < p.page_file_size
  pub whole : p.swap_size ≡ p.page_file_number * p.page_file_size
  pub tiled : AllAt p.page_file_size p.swap_size p.all_space

pub round_up_lem :
    (unit size : ℕ)
    → 0 < unit
    → size + unit < u64_mod
    → (round_up unit size / unit * unit ≡ round_up unit size)
      × (size ≤ round_up unit size)
      × (round_up unit size < size + unit)
unfolding round_up add64
round_up_lem unit size pos b =
    let r : (round_up unit size % unit ≡ 0)
        × (size ≤ round_up unit size)
        × (round_up unit size < size + unit) =
      ground (arith, mod-lt size pos, mod_step size unit pos) in
    (omega (arith, r.0, div-add-mod' (round_up unit size) unit), r.1, r.2)

-- The constructor lays the page files out, and all bytes are free.
lay_out-IsLaidOut :
    (location_bytes al one number : ℕ)
    → 0 < one
    → number * one < u64_mod
    → let p = lay_out location_bytes al one number in IsLaidOut p × (p.swap_free ≡ sum p.all_space)
unfolding lay_out
lay_out-IsLaidOut location_bytes al one number pos b =
    let total = (number * one) % u64_mod in
    let p : PageFile = record {
      page_file_number = number;
      page_file_size = one;
      memory_alignment = al;
      location_bytes = location_bytes;
      swap_size = total;
      swap_free = total;
      free_space = [];
      all_space = [];
    } in
    let d =
      enter_files-Entered 0 number p pos (omega arith)
        (subst (λ k. k * one < u64_mod) (omega arith) b) in
    let all : total ≡ number * one = omega arith in
    let entered = enter_files 0 number p in
    let zero_more : 0 + number ≡ number = omega arith in
    let end : entered.swap_size ≡ (0 + number) * one =
      d.swap_size ∙ all ∙ ap (λ k. k * one) (sym zero_more) in
    (
      record {
        positive = subst (λ u. 0 < u) (sym d.size) pos;
        whole =
            d.swap_size
            ∙ all
            ∙ sym (ap (λ a. a * entered.page_file_size) d.number ∙ ap (λ u. number * u) d.size);
        tiled =
            subst (λ u. AllAt u entered.swap_size entered.all_space) (sym d.size)
              (subst (λ s. AllAt one s entered.all_space) (sym end) d.tiled);
      },
      omega (arith, d.swap_free, all, d.bytes),
    )

pub create-IsLaidOut :
    (location_bytes size one_file : ℕ) (dma : Bool)
    → let one = file_size (alignment_for dma) size one_file in
      0 < one
      → file_number size one * one < u64_mod
      → let p = create location_bytes size one_file dma in
        IsLaidOut p × (p.swap_free ≡ sum p.all_space)
unfolding create
create-IsLaidOut location_bytes size one_file dma pos b =
    let one = file_size (alignment_for dma) size one_file in
    lay_out-IsLaidOut location_bytes (alignment_for dma) one (file_number size one) pos b

-- The result of `extendSwap`.
pub record Extends (size : ℕ) (p q : PageFile) : Type 0 where
  pub laid : IsLaidOut q
  pub accounts : q.swap_free + sum p.all_space ≡ p.swap_free + sum q.all_space
  pub larger : p.swap_size + size ≤ q.swap_size

-- The number of files that `extendSwap` is about to have.
abbrev pub raised : (size : ℕ) → PageFile → PageFile
raised size p = record p {
  page_file_number = p.page_file_number + round_up p.page_file_size size / p.page_file_size;
}

-- It extends the swap; or it refuses for want of disk space and has changed nothing; or the files do not
-- open, and the number of files has been raised all the same.
abbrev pub Extension : (disk size : ℕ) → (opens : Bool) → PageFile → PageFile × Bool → Type 0
Extension disk size opens p r =
    (opens ≡ true) × (r.1 ≡ true) × Extends size p r.0
    ⊎ ((ltb disk (round_up p.page_file_size size) ≡ true) × (r.1 ≡ false) × (r.0 ≡ p)
        ⊎ (opens ≡ false) × (r.1 ≡ false) × (r.0 ≡ raised size p))

pub extend_swap-refused :
    (disk size : ℕ) (opens : Bool) (p : PageFile)
    → ltb disk (round_up p.page_file_size size) ≡ true
    → extend_swap disk opens size p ≡ (p, false)
unfolding extend_swap
extend_swap-refused disk size opens p h = rw h refl

abbrev pub with_files : (files bytes : ℕ) → PageFile → PageFile
with_files files bytes p =
    let q =
      enter_files p.page_file_number files
        (record p { page_file_number = p.page_file_number + files }) in
    record q { swap_free = add64 q.swap_free bytes; swap_size = add64 q.swap_size bytes }

pub extend_swap-granted :
    (disk size files : ℕ) (p : PageFile)
    → ltb disk (round_up p.page_file_size size) ≡ false
    → round_up p.page_file_size size / p.page_file_size ≡ files
    → (p.page_file_number + files) % 2 ^ 32 ≡ p.page_file_number + files
    → p.page_file_number + files - p.page_file_number ≡ files
    → extend_swap disk true size p ≡ (with_files files (round_up p.page_file_size size) p, true)
unfolding extend_swap
extend_swap-granted disk size files p h e m d = rw (h, e, m, d) refl

pub with_files-Extends :
    (size files bytes : ℕ) (p : PageFile)
    → IsLaidOut p
    → files * p.page_file_size ≡ bytes
    → size ≤ bytes
    → p.swap_size + bytes < u64_mod
    → p.swap_free ≤ p.swap_size
    → Extends size p (with_files files bytes p)
unfolding add64
with_files-Extends size files bytes p l e some_more b f =
    let unit = p.page_file_size in
    let n = p.page_file_number in
    let q = record p { page_file_number = n + files } in
    let entered = enter_files n files q in
    let whole : (n + files) * unit ≡ p.swap_size + bytes =
      omega (arith, add-mul n files unit, l.whole) in
    let d =
      enter_files-Entered n files q l.positive
        (subst (λ k. AllAt unit k p.all_space) l.whole l.tiled) (omega (arith, whole)) in
    let grown : (with_files files bytes p).swap_size ≡ p.swap_size + bytes =
      omega (arith, d.swap_size) in
    record {
      laid = record {
        positive = omega (arith, d.size, l.positive);
        whole =
            grown
            ∙ sym whole
            ∙ sym
                (ap (λ a. a * entered.page_file_size) d.number ∙ ap (λ u. (n + files) * u) d.size);
        tiled =
            subst (λ u. AllAt u (with_files files bytes p).swap_size entered.all_space) (sym d.size)
              (subst (λ s. AllAt unit s entered.all_space) (whole ∙ sym grown) d.tiled);
      };
      accounts = omega (arith, d.swap_free, d.bytes);
      larger = omega (arith, grown);
    }
