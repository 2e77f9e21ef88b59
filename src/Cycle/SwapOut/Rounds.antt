-- ===== src/Cycle/SwapOut/Rounds.antt =====
-- The two rounds of `swapOut` of src/cyclicManagedMemory.cpp: the second selects what the first counts.
use rambrain_uwp.Prelude.{
  ℕ, zero, suc, ◌+◌, ◌≤◌, ◌<◌, ◌≡◌, refl, sym, ap, subst, ◌∙◌, Bool, true, false, List, [], ◌∷◌,
  ◌++◌, ltb, if◌then◌else◌, length, length-append, All, add64, add64_lem, u64_mod, arith,
  Bool-cases, ◌⊎◌, inl, inr,
}
use rambrain_uwp.Chunk.{mem_allocated, is}
use rambrain_uwp.World.{World}
use rambrain_uwp.Cycle.SwapOut.{
  is_candidate, size_at, first_round, Selection, select, step_back, second_round,
}

-- The chunks' sizes are positive and small enough for the sums of `swapOut`.
pub record AreSized (w : World) (free : ℕ) : Type 0 where
  pub positive : (k : ℕ) → 0 < (w.chunks k).size
  pub in_range : (k : ℕ) → free + (w.chunks k).size < u64_mod

abbrev pub total_size : World → List ℕ → ℕ
total_size w [] = 0
total_size w (k ∷ ks) = (w.chunks k).size + total_size w ks

-- A chunk that nobody uses.
abbrev pub IsIdle : World → ℕ → Type 0
IsIdle w k = (is (w.chunks k).status mem_allocated ≡ true) × ((w.chunks k).use_cnt ≡ 0)

-- The second round changes nothing that the rounds read.
record Agrees (w v : World) : Type 0 where
  links : v.links ≡ w.links
  chunk_of : v.chunk_of ≡ w.chunk_of
  status : (k : ℕ) → (v.chunks k).status ≡ (w.chunks k).status
  size : (k : ℕ) → (v.chunks k).size ≡ (w.chunks k).size
  use_cnt : (k : ℕ) → (v.chunks k).use_cnt ≡ (w.chunks k).use_cnt

-- The second round has come to `pos` with what the first had counted there.
record Follows (w : World) (pos size n : ℕ) (s : Selection) : Type 0 where
  agrees : Agrees w s.world
  at : s.from_pos ≡ pos
  counted : s.unload_size2 ≡ size
  chunks : length s.unloadlist ≡ n
  total : total_size w s.unloadlist ≡ size
  idle : All (IsIdle w) s.unloadlist

total_size-append :
    (w : World) (xs : List ℕ) (k : ℕ)
    → total_size w (xs ++ k ∷ []) ≡ total_size w xs + (w.chunks k).size
total_size-append w [] k = omega arith
total_size-append w (x ∷ xs) k = omega (arith, total_size-append w xs k)

All-snoc :
    (w : World) (xs : List ℕ) (k : ℕ)
    → All (IsIdle w) xs
    → IsIdle w k
    → All (IsIdle w) (xs ++ k ∷ [])
All-snoc w [] k h i = (i, tt)
All-snoc w (x ∷ xs) k h i = (h.0, All-snoc w xs k h.1 i)

select-Agrees : (s : Selection) → Agrees s.world (select s).world
unfolding select
select-Agrees s = record {
  links = ground arith;
  chunk_of = ground arith;
  status = λ k. ground arith;
  size = λ k. ground arith;
  use_cnt = λ k. ground arith;
}

Agrees-trans : (u v w : World) → Agrees u v → Agrees v w → Agrees u w
Agrees-trans u v w a b = record {
  links = b.links ∙ a.links;
  chunk_of = b.chunk_of ∙ a.chunk_of;
  status = λ k. b.status k ∙ a.status k;
  size = λ k. b.size k ∙ a.size k;
  use_cnt = λ k. b.use_cnt k ∙ a.use_cnt k;
}

-- What else a selection does.
record Selected (s t : Selection) : Type 0 where
  from_pos : t.from_pos ≡ s.from_pos
  counted : t.unload_size2 ≡ add64 s.unload_size2 (size_at s.world s.from_pos)
  list : t.unloadlist ≡ s.unloadlist ++ s.world.chunk_of s.from_pos ∷ []

select-Selected : (s : Selection) → Selected s (select s)
unfolding select
select-Selected s = record { from_pos = refl; counted = refl; list = refl }

-- What the second round makes of what the first counts.
abbrev pub Selects : World → ℕ × ℕ → Selection → Type 0
Selects w r s =
    (s.unload_size2 ≡ r.0)
    × (length s.unloadlist ≡ r.1)
    × (total_size w s.unloadlist ≡ r.0)
    × All (IsIdle w) s.unloadlist

module _ (w : World) (goal free : ℕ) (sized : AreSized w free) where
  candidate_fits :
      (size pos : ℕ)
      → size ≤ free
      → is_candidate w free size pos ≡ true
      → (add64 size (size_at w pos) ≡ size + size_at w pos)
        × (size + size_at w pos ≤ free)
        × IsIdle w (w.chunk_of pos)
  unfolding is_candidate
  candidate_fits size pos l h =
      let sum = add64_lem size (size_at w pos) (omega (arith, sized.in_range (w.chunk_of pos))) in
      ground (arith, sum)

  -- One step of the first round.
  first_round-stop :
      (left pos size n : ℕ)
      → ltb size goal ≡ false
      → first_round w goal free (suc left) pos size n ≡ (size, n)
  unfolding first_round
  first_round-stop left pos size n h = rw h refl

  first_round-take :
      (left pos size n : ℕ)
      → size ≤ free
      → ltb size goal ≡ true
      → is_candidate w free size pos ≡ true
      → first_round w goal free (suc left) pos size n
        ≡ first_round w goal free left (w.links.prev pos) (size + size_at w pos) (suc n)
  unfolding first_round
  first_round-take left pos size n l h c = rw (h, c, (candidate_fits size pos l c).0) refl

  first_round-skip :
      (left pos size n : ℕ)
      → ltb size goal ≡ true
      → is_candidate w free size pos ≡ false
      → first_round w goal free (suc left) pos size n
        ≡ first_round w goal free left (w.links.prev pos) size n
  unfolding first_round
  first_round-skip left pos size n h c = rw (h, c) refl

  -- What the first round counts only grows, and with it the number of chunks.
  abbrev Grows : (size n : ℕ) → ℕ × ℕ → Type 0
  Grows size n r = (size ≤ r.0) × (r.0 ≤ free) × ((r.0 ≡ size) → r.1 ≡ n)

  first_round-Grows :
      (left pos size n : ℕ) → size ≤ free → Grows size n (first_round w goal free left pos size n)
  unfolding first_round
  first_round-Grows zero pos size n l = (omega arith, l, λ e. refl)
  first_round-Grows (suc left) pos size n l =
      each (first_round-Grows left (w.links.prev pos)) (Bool-cases (ltb size goal))
        (Bool-cases (is_candidate w free size pos))
    where
      each :
          ((size' n' : ℕ)
            → size' ≤ free
            → Grows size' n' (first_round w goal free left (w.links.prev pos) size' n'))
          → (ltb size goal ≡ true) ⊎ (ltb size goal ≡ false)
          → (is_candidate w free size pos ≡ true) ⊎ (is_candidate w free size pos ≡ false)
          → Grows size n (first_round w goal free (suc left) pos size n)
      each go_on (inr h) c =
          subst (Grows size n) (sym (first_round-stop left pos size n h))
            (omega arith, l, λ e. refl)
      each go_on (inl h) (inl c) =
          let fits = candidate_fits size pos l c in
          let g = go_on (size + size_at w pos) (suc n) fits.1 in
          subst (Grows size n) (sym (first_round-take left pos size n l h c)) (
            omega (arith, g.0),
            g.1,
            λ e. absurd (omega (arith, e, g.0, sized.positive (w.chunk_of pos))),
          )
      each go_on (inl h) (inr c) =
          subst (Grows size n) (sym (first_round-skip left pos size n h c)) (go_on size n l)

  -- One step of the second round.
  Agrees-candidate :
      (v : World) (size pos : ℕ)
      → Agrees w v
      → is_candidate v free size pos ≡ is_candidate w free size pos
  unfolding is_candidate
  Agrees-candidate v size pos a = rw (a.chunk_of, a.status, a.size, a.use_cnt) refl

  Follows-select :
      (pos size n : ℕ) (s : Selection)
      → size ≤ free
      → is_candidate w free size pos ≡ true
      → Follows w pos size n s
      → Follows w (w.links.prev pos) (size + size_at w pos) (suc n) (step_back (select s))
  Follows-select pos size n s l c f =
      let fits = candidate_fits size pos l c in
      let t = select s in
      let done = select-Selected s in
      let agrees = Agrees-trans w s.world t.world f.agrees (select-Agrees s) in
      let k : s.world.chunk_of s.from_pos ≡ w.chunk_of pos =
        ap s.world.chunk_of f.at ∙ ap (λ g. g pos) f.agrees.chunk_of in
      let list : t.unloadlist ≡ s.unloadlist ++ w.chunk_of pos ∷ [] =
        done.list ∙ ap (λ x. s.unloadlist ++ x ∷ []) k in
      let bytes : size_at s.world s.from_pos ≡ size_at w pos =
        ap (λ x. (s.world.chunks x).size) k ∙ f.agrees.size (w.chunk_of pos) in
      record {
        agrees = agrees;
        at = ap (λ m. m.prev t.from_pos) agrees.links ∙ ap w.links.prev (done.from_pos ∙ f.at);
        counted =
            done.counted
            ∙ ap (λ a. add64 a (size_at s.world s.from_pos)) f.counted
            ∙ ap (add64 size) bytes
            ∙ fits.0;
        chunks =
            ap length list
            ∙ omega (arith, f.chunks, length-append s.unloadlist (w.chunk_of pos ∷ []));
        total =
            ap (total_size w) list
            ∙ omega (arith, f.total, total_size-append w s.unloadlist (w.chunk_of pos));
        idle =
            subst (All (IsIdle w)) (sym list)
              (All-snoc w s.unloadlist (w.chunk_of pos) f.idle fits.2);
      }

  Follows-skip :
      (pos size n : ℕ) (s : Selection)
      → Follows w pos size n s
      → Follows w (w.links.prev pos) size n (step_back s)
  Follows-skip pos size n s f = record {
    agrees = f.agrees;
    at = ap (λ m. m.prev s.from_pos) f.agrees.links ∙ ap w.links.prev f.at;
    counted = f.counted;
    chunks = f.chunks;
    total = f.total;
    idle = f.idle;
  }

  second_round-stop :
      (total left : ℕ) (s : Selection)
      → ltb s.unload_size2 total ≡ false
      → second_round total free left s ≡ s
  unfolding second_round
  second_round-stop total zero s h = refl
  second_round-stop total (suc left) s h = rw h refl

  second_round-more :
      (total left : ℕ) (s : Selection) (takes : Bool)
      → ltb s.unload_size2 total ≡ true
      → is_candidate s.world free s.unload_size2 s.from_pos ≡ takes
      → second_round total free (suc left) s
        ≡ second_round total free left (step_back (if takes then select s else s))
  unfolding second_round
  second_round-more total left s takes h c = rw (h, c) refl

  second_round-Follows_step :
      (total left pos size n : ℕ) (s : Selection) (takes : Bool)
      → Follows w pos size n s
      → ltb size total ≡ true
      → is_candidate w free size pos ≡ takes
      → second_round total free (suc left) s
        ≡ second_round total free left (step_back (if takes then select s else s))
  second_round-Follows_step total left pos size n s takes f h c =
      second_round-more total left s takes (ap (λ a. ltb a total) f.counted ∙ h) (
        ap (λ a. is_candidate s.world free a s.from_pos) f.counted
        ∙ ap (is_candidate s.world free size) f.at
        ∙ Agrees-candidate s.world size pos f.agrees
        ∙ c)

  rounds_follow-zero :
      (pos size n : ℕ) (s : Selection)
      → Follows w pos size n s
      → let r = first_round w goal free zero pos size n in
        Selects w r (second_round r.0 free zero s)
  unfolding first_round second_round
  rounds_follow-zero pos size n s f = (f.counted, f.chunks, f.total, f.idle)

  rounds_follow :
      (left pos size n : ℕ) (s : Selection)
      → size ≤ free
      → Follows w pos size n s
      → let r = first_round w goal free left pos size n in
        Selects w r (second_round r.0 free left s)
  rounds_follow zero pos size n s l f = rounds_follow-zero pos size n s f
  rounds_follow (suc left) pos size n s l f =
      each (rounds_follow left (w.links.prev pos)) (Bool-cases (ltb size goal))
        (Bool-cases (is_candidate w free size pos))
    where
      Fine : ℕ × ℕ → Type 0
      Fine r = Selects w r (second_round r.0 free (suc left) s)

      stopped : (r : ℕ × ℕ) → r.0 ≡ size → r.1 ≡ n → Fine r
      stopped r e e' =
          subst (Selects w r) (sym (second_round-stop r.0 (suc left) s (ground (arith, f.counted))))
            (f.counted ∙ sym e, f.chunks ∙ sym e', f.total ∙ sym e, f.idle)

      each :
          ((size' n' : ℕ) (s' : Selection)
            → size' ≤ free
            → Follows w (w.links.prev pos) size' n' s'
            → let r = first_round w goal free left (w.links.prev pos) size' n' in
              Selects w r (second_round r.0 free left s'))
          → (ltb size goal ≡ true) ⊎ (ltb size goal ≡ false)
          → (is_candidate w free size pos ≡ true) ⊎ (is_candidate w free size pos ≡ false)
          → Fine (first_round w goal free (suc left) pos size n)
      each go_on (inr h) c =
          stopped (first_round w goal free (suc left) pos size n)
            (ap (λ r. r.0) (first_round-stop left pos size n h))
            (ap (λ r. r.1) (first_round-stop left pos size n h))
      each go_on (inl h) (inl c) =
          let fits = candidate_fits size pos l c in
          let r = first_round w goal free left (w.links.prev pos) (size + size_at w pos) (suc n) in
          let g = first_round-Grows left (w.links.prev pos) (size + size_at w pos) (suc n) fits.1 in
          let more : ltb size r.0 ≡ true = ground (arith, g.0, sized.positive (w.chunk_of pos)) in
          subst Fine (sym (first_round-take left pos size n l h c)) (
            subst (Selects w r)
              (sym (second_round-Follows_step r.0 left pos size n s true f more c))
              (go_on (size + size_at w pos) (suc n) (step_back (select s)) fits.1
                (Follows-select pos size n s l c f)))
      each go_on (inl h) (inr c) =
          let r = first_round w goal free left (w.links.prev pos) size n in
          let g = first_round-Grows left (w.links.prev pos) size n l in
          subst Fine (sym (first_round-skip left pos size n h c))
            (elim (Bool-cases (ltb size r.0)) [
              | inl more ↦
                  subst (Selects w r)
                    (sym (second_round-Follows_step r.0 left pos size n s false f more c))
                    (go_on size n (step_back s) l (Follows-skip pos size n s f))
              | inr whole ↦
                  (let same : r.0 ≡ size = ground (arith, g.0) in stopped r same (g.2 same))
            ])

  -- Both rounds of `swapOut` from the same element: the second selects as many chunks, and of as many
  -- bytes, as the first has counted, all of them allocated and without users; they fit in the free swap.
  -- This holds if sizes are positive and their sums with the free swap stay in range.
  pub second_round-first_round :
      (left : ℕ)
      → let r = first_round w goal free left w.counter_active 0 0 in
        let s = second_round r.0 free left (record {
          world = w;
          from_pos = w.counter_active;
          unload_size2 = 0;
          unloadlist = [];
          reset_preemptive_start = false;
        }) in
        Selects w r s × (r.0 ≤ free)
  second_round-first_round left =
      let s : Selection = record {
        world = w;
        from_pos = w.counter_active;
        unload_size2 = 0;
        unloadlist = [];
        reset_preemptive_start = false;
      } in
      (
        rounds_follow left w.counter_active 0 0 s (omega arith) (record {
          agrees = record {
            links = refl;
            chunk_of = refl;
            status = λ k. refl;
            size = λ k. refl;
            use_cnt = λ k. refl;
          };
          at = refl;
          counted = refl;
          chunks = refl;
          total = refl;
          idle = tt;
        }),
        (first_round-Grows left w.counter_active 0 0 (omega arith)).1,
      )
