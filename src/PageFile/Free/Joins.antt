-- ===== src/PageFile/Free/Joins.antt =====
-- The rounds of `pffree` of src/managedFileSwap.cpp, step by step: the merge with the location before,
-- the bytes that were unusable, and the merge with the location behind.
use rambrain_uwp.Prelude.{
  ℕ, ◌+◌, ◌-◌, ◌≡◌, ◌<◌, ◌≤◌, refl, sym, true, false, List, [], ◌∷◌, none, some, ◌==◌,
  if◌then◌else◌, add64, add64_lem, u64_mod, arith, Bool-cases, Option-cases, inl, inr, ap, subst,
  ◌∙◌,
}
use rambrain_uwp.PageFile.{PageFile, Location, is_free, merge_before}
use rambrain_uwp.PageFile.Maps.{find, assign, erase, before}
use rambrain_uwp.PageFile.Sorted.{IsAscending, find-assign_if, find-erase_if, IsAscending-assign}
use rambrain_uwp.PageFile.Tiles.{Tiled, end_of, find-Fits}
use rambrain_uwp.PageFile.Merge.{before-end_of, Tiled-IsAscending, swallow-Tiled}
use rambrain_uwp.PageFile.Cut.{IsAt, sum, sum-assign}
use rambrain_uwp.PageFile.Free.{
  IsLaid, IsLaidBut, IsSound, listed_at, used_at, Tiled-map, end_of-le, same_file,
}

-- While the location at `off` of `p` is freed: the location that goes on is `w` at `g`.
pub record IsOpen (p : PageFile) (off g : ℕ) (all : List (ℕ × Location)) (fs : List (ℕ × Unit {0}))
    (sf : ℕ) (w : Location) : Type 0 where
  pub tiled : Tiled (IsLaidBut g p.page_file_size) 0 all p.swap_size
  pub found : find g all ≡ some w
  pub sorted : IsAscending fs
  pub listed : (i : ℕ) → (i == g) ≡ false → find i fs ≡ listed_at (find i all)
  pub was_free :
      (l : Location) → find g p.all_space ≡ some l → (g == off) ≡ false → is_free l.status ≡ true
  pub used :
      (i : ℕ)
      → (i == g) ≡ false
      → used_at (find i all) ≡ (if i == off then none else used_at (find i p.all_space))
  pub accounts : sf + sum p.all_space ≡ p.swap_free + sum all
  pub below : g ≤ off
  pub reaches : (l : Location) → find off p.all_space ≡ some l → off + l.size ≤ g + w.size

sum-erase :
    (i : ℕ) (v : Location) (m : List (ℕ × Location))
    → find i m ≡ some v
    → sum (erase i m) + v.size ≡ sum m
unfolding find erase
sum-erase i v [] h = ground arith
sum-erase i v ((j, l) ∷ m) h = ground (arith, sum-erase i v m)

find_ne :
    (i j : ℕ) (u : Location) (m : List (ℕ × Location))
    → (i == j) ≡ false
    → find i (assign j u m) ≡ find i m
find_ne i j u m h = find-assign_if i j u m ∙ ground arith

status_listed :
    (i : ℕ) (m : List (ℕ × Location)) (l u : Location)
    → find i m ≡ some l
    → is_free l.status ≡ is_free u.status
    → listed_at (some u) ≡ listed_at (find i m)
status_listed i m l u h s = rw (h, s) refl

some-eq : {l k : Location} → some l ≡ some k → l ≡ k
some-eq h = cc

-- `pffree` begins.
pub start-IsOpen :
    (p : PageFile) (off : ℕ) (l : Location)
    → IsSound p
    → find off p.all_space ≡ some l
    → IsOpen p off off p.all_space p.free_space p.swap_free l
start-IsOpen p off l s h = record {
  tiled =
      Tiled-map (IsLaid p.page_file_size) (IsLaidBut off p.page_file_size)
        (λ o e v f. record { at = f.at; whole = λ _. f.whole }) 0 p.all_space p.swap_size s.laid;
  found = h;
  sorted = s.sorted;
  listed = λ i _. s.listed i;
  was_free = λ l' _ n. absurd (ground (arith, n));
  used = λ i ne. rw ne refl;
  accounts = refl;
  below = omega arith;
  reaches =
      λ l' f. (let same : l ≡ l' = some-eq (sym h ∙ f) in omega (arith, ap (λ k. k.size) same));
}

-- A location and the one behind it, joined.
abbrev pub joined : (v w : Location) → Location
joined v w = record v { size = v.size + w.size }

pub joined-IsAt :
    (n a b e : ℕ) (v w : Location)
    → IsAt n a b v
    → a + v.size ≡ b
    → a < b
    → IsAt n b e w
    → b < e
    → (w.offset == 0) ≡ false
    → IsAt n a e (joined v w)
joined-IsAt n a b e v w f whole lt g lt' apart =
    let pos : 0 < w.offset = ground arith in
    let same =
      same_file v.file w.file n (v.offset + (b - a)) w.offset (omega (arith, f.key, g.key)) f.within
        pos (omega (arith, g.within)) in
    record { key = f.key; room = omega (arith, g.room); within = omega (arith, g.within, same) }

abbrev pub Merged : PageFile → (off : ℕ) → Location → Type 0
Merged p off l =
    (g : ℕ) × (all : List (ℕ × Location)) × (w : Location) × (merge_before p off l
      ≡ (record p { all_space = all }, g))
    × IsOpen p off g all p.free_space p.swap_free w

merge_before-none :
    (p : PageFile) (off : ℕ) (l : Location)
    → merge_before p off l ≡ (p, off)
    → IsSound p
    → find off p.all_space ≡ some l
    → Merged p off l
merge_before-none p off l e s h = (off, p.all_space, l, e, start-IsOpen p off l s h)

-- What `find` sees after the location at `b` has gone into the one at `a`.
pub find-swallowed :
    (i a b : ℕ) (u : Location) (m : List (ℕ × Location))
    → IsAscending m
    → find i (erase b (assign a u m))
      ≡ (if i == b then none else if i == a then some u else find i m)
find-swallowed i a b u m asc =
    find-erase_if i b (assign a u m) (IsAscending-assign a u m asc)
    ∙ ap (λ r. if i == b then none else r) (find-assign_if i a u m)

pub sum-swallowed :
    (a b : ℕ) (v w : Location) (m : List (ℕ × Location))
    → find a m ≡ some v
    → find b m ≡ some w
    → (b == a) ≡ false
    → sum (erase b (assign a (joined v w) m)) ≡ sum m
sum-swallowed a b v w m f g apart =
    let u = joined v w in
    omega (arith, sum-assign a v u m f, sum-erase b w (assign a u m) (find_ne b a u m apart ∙ g))

used-gone :
    (i a b : ℕ) (u : Location) (m : List (ℕ × Location))
    → (i == a) ≡ false
    → used_at (if i == b then none else if i == a then some u else find i m)
      ≡ (if i == b then none else used_at (find i m))
used-gone i a b u m far = elim (Bool-cases (i == b)) [
  | inl e ↦ rw e refl
  | inr ne ↦ rw (ne, far) refl
]

-- A location in use is not listed, so its end changes nothing.
listed-gone :
    (i a b : ℕ) (u l : Location) (m : List (ℕ × Location))
    → find b m ≡ some l
    → is_free l.status ≡ false
    → (i == a) ≡ false
    → listed_at (find i m)
      ≡ listed_at (if i == b then none else if i == a then some u else find i m)
listed-gone i a b u l m h used apart = elim (Bool-cases (i == b)) [
  | inl e ↦
      let same : i ≡ b = ground arith in
      rw e (ap (λ k. listed_at (find k m)) same ∙ ap listed_at h ∙ rw used refl)
  | inr ne ↦ rw (ne, apart) refl
]

-- The location at `o` takes the one at `off` in.
pub merge_before-IsOpen :
    (p : PageFile) (off o : ℕ) (l v : Location)
    → IsSound p
    → find off p.all_space ≡ some l
    → is_free l.status ≡ false
    → (l.offset == 0) ≡ false
    → before off p.all_space ≡ some (o, v)
    → is_free v.status ≡ true
    → (v.size + l.size ≤ p.swap_size)
      × IsOpen p off o
          (erase off (assign o (joined v l) p.all_space))
          p.free_space
          p.swap_free
          (joined v l)
merge_before-IsOpen p off o l v s h used inner b free =
    let n = p.page_file_size in
    let m = p.all_space in
    let hi = p.swap_size in
    let u = joined v l in
    let (e, f) = before-end_of (IsLaid n) off m hi o v l s.laid h b in
    let (at_l, lt_l) = find-Fits (IsLaid n) off 0 m hi l s.laid h in
    let (at_v, lt_v) = find-Fits (IsLaid n) o 0 m hi v s.laid f in
    let whole = at_v.whole free in
    let asc = Tiled-IsAscending (IsLaid n) 0 m hi s.laid in
    let open_tiling = (start-IsOpen p o v s f).tiled in
    let lt : o < off = omega (arith, lt_v, e) in
    let at_u =
      joined-IsAt n o off (end_of off m hi) v l (subst (λ i. IsAt n o i v) e at_v.at) (whole ∙ e) lt
        at_l.at lt_l inner in
    (
      omega (arith, at_l.at.room, end_of-le (IsLaid n) off 0 m hi s.laid, whole, e),
      record {
        tiled =
            (swallow-Tiled (IsLaidBut o n) o off 0 m hi v l u open_tiling f e h
              (record { at = at_u; whole = λ x. absurd (ground (arith, x)) })).0;
        found = find-swallowed o o off u m asc ∙ ground arith;
        sorted = s.sorted;
        listed = λ i x.
            s.listed i
            ∙ listed-gone i o off u l m h used x
            ∙ ap listed_at (sym (find-swallowed i o off u m asc));
        was_free = λ l' g x. ground (arith, g, f, free);
        used = λ i x. ap used_at (find-swallowed i o off u m asc) ∙ used-gone i o off u m x;
        accounts = ap (λ k. p.swap_free + k) (sym (sum-swallowed o off v l m f h (ground arith)));
        below = omega (arith, lt);
        reaches = λ l' g.
            (let same : l ≡ l' = some-eq (sym h ∙ g) in
              omega (arith, ap (λ k. k.size) same, whole, e));
      },
    )

merge_before-step :
    (p : PageFile) (off o : ℕ) (l v : Location)
    → (l.offset == 0) ≡ false
    → before off p.all_space ≡ some (o, v)
    → is_free v.status ≡ true
    → add64 v.size l.size ≡ v.size + l.size
    → merge_before p off l
      ≡ (record p { all_space = erase off (assign o (joined v l) p.all_space) }, o)
unfolding merge_before
merge_before-step p off o l v inner b free e = ground arith

merge_before-first :
    (p : PageFile) (off : ℕ) (l : Location)
    → (l.offset == 0) ≡ true
    → merge_before p off l ≡ (p, off)
unfolding merge_before
merge_before-first p off l h = ground arith

merge_before-gone :
    (p : PageFile) (off : ℕ) (l : Location)
    → before off p.all_space ≡ none
    → merge_before p off l ≡ (p, off)
unfolding merge_before
merge_before-gone p off l h = ground arith

merge_before-used :
    (p : PageFile) (off o : ℕ) (l v : Location)
    → before off p.all_space ≡ some (o, v)
    → is_free v.status ≡ false
    → merge_before p off l ≡ (p, off)
unfolding merge_before
merge_before-used p off o l v h used = ground arith

-- Whether there is a free location before it or not.
pub merge_before-Merged :
    (p : PageFile) (off : ℕ) (l : Location)
    → IsSound p
    → find off p.all_space ≡ some l
    → is_free l.status ≡ false
    → p.swap_size < u64_mod
    → Merged p off l
merge_before-Merged p off l s h used range = elim (Bool-cases (l.offset == 0)) [
  | inl e ↦ merge_before-none p off l (merge_before-first p off l e) s h
  | inr inner ↦ elim (Option-cases (before off p.all_space)) [
    | inl gone ↦ merge_before-none p off l (merge_before-gone p off l gone) s h
    | inr ((o, v), b) ↦ elim (Bool-cases (is_free v.status)) [
      | inl free ↦
          let r = merge_before-IsOpen p off o l v s h used inner b free in
          (
            o,
            erase off (assign o (joined v l) p.all_space),
            joined v l,
            merge_before-step p off o l v inner b free
                (add64_lem v.size l.size (omega (arith, r.0))),
            r.1,
          )
      | inr x ↦ merge_before-none p off l (merge_before-used p off o l v b x) s h
    ]
  ]
]
