-- ===== src/PageFile/Tiles.antt =====
-- The locations of src/managedFileSwap.cpp tile the swap: each begins where the one before it ends.
use rambrain_uwp.Prelude.{
  ℕ, ◌≡◌, ◌<◌, ◌≤◌, refl, true, false, List, [], ◌∷◌, none, some, ◌==◌, ltb, if◌then◌else◌, arith,
  Bool-cases, ==_refl, inl, inr, ap, subst, ◌∙◌,
}
use rambrain_uwp.PageFile.Maps.{find, assign, after}

lt→ltb : (a b : ℕ) → a < b → ltb a b ≡ true
lt→ltb a b h = ground arith

lt→beq : (a b : ℕ) → a < b → (a == b) ≡ false
lt→beq a b h = ground arith

ltb_irrefl : (a : ℕ) → ltb a a ≡ false
ltb_irrefl a = ground arith

module _ {ℓ} {V : Type ℓ} where
  -- The first key, or the end of the swap.
  abbrev pub start : List (ℕ × V) → ℕ → ℕ
  start [] hi = hi
  start ((o, l) ∷ m) hi = o

  -- Where the entry at `i` ends.
  unfoldable pub end_of : ℕ → List (ℕ × V) → ℕ → ℕ
  unfolding after
  end_of i [] hi = hi
  end_of i ((o, l) ∷ m) hi = if ltb i o then o else end_of i m hi

-- Entries `V`, each at a key; the entry at `o` ends where the next one starts.
module _ {ℓ} {V : Type ℓ} (Fits : (o end : ℕ) → V → Type 0) where
  abbrev pub Tiled : ℕ → List (ℕ × V) → ℕ → Type 0
  Tiled lo [] hi = lo ≡ hi
  Tiled lo ((o, l) ∷ m) hi =
      (o ≡ lo) × (o < start m hi) × Fits o (start m hi) l × Tiled (start m hi) m hi

  pub not-find-nil : (i : ℕ) (v : V) → find i [] ≡ some v → ⊥
  unfolding find
  not-find-nil i v h = cc

  -- The keys from `lo` on: every key of a tiling is at least its start.
  pub Tiled-le :
      (lo : ℕ) (m : List (ℕ × V)) (hi : ℕ) → Tiled lo m hi → (start m hi ≡ lo) × (lo ≤ hi)
  Tiled-le lo [] hi t = omega arith
  Tiled-le lo ((o, l) ∷ m) hi t = omega (arith, Tiled-le (start m hi) m hi t.3)

  pub find-le :
      (i lo : ℕ) (m : List (ℕ × V)) (hi : ℕ) (v : V)
      → Tiled lo m hi
      → find i m ≡ some v
      → (lo ≤ i) × (i < hi)
  unfolding find
  find-le i lo [] hi v t h = ground arith
  find-le i lo ((o, l) ∷ m) hi v t h =
      ground (arith, find-le i (start m hi) m hi v t.3, Tiled-le (start m hi) m hi t.3)

  pub end_of-start :
      (i lo : ℕ) (m : List (ℕ × V)) (hi : ℕ)
      → Tiled lo m hi
      → i < start m hi
      → end_of i m hi ≡ start m hi
  unfolding end_of
  end_of-start i lo [] hi t h = refl
  end_of-start i lo ((o, l) ∷ m) hi t h = rw (lt→ltb i o h)

  -- The first entry, and one behind it.
  pub data Place (i o : ℕ) (l v : V) (m : List (ℕ × V)) : Type ℓ where
    at : i ≡ o → v ≡ l → Place i o l v m
    behind : o < i → find i m ≡ some v → Place i o l v m

  pub place :
      (i o : ℕ) (l : V) (m : List (ℕ × V)) (v : V) → find i ((o, l) ∷ m) ≡ some v → Place i o l v m
  unfolding find
  place i o l m v h = elim (Bool-cases (i == o)) [
    | inl e ↦ at (ground arith) (ground arith)
    | inr ne ↦ elim (Bool-cases (ltb i o)) [
      | inl lt ↦ absurd (ground arith)
      | inr ge ↦ behind (ground arith) (ground arith)
    ]
  ]

  pub end_of-at :
      (lo o : ℕ) (l : V) (m : List (ℕ × V)) (hi : ℕ)
      → Tiled lo ((o, l) ∷ m) hi
      → end_of o ((o, l) ∷ m) hi ≡ start m hi
  unfolding end_of
  end_of-at lo o l m hi t = rw (ltb_irrefl o) (end_of-start o (start m hi) m hi t.3 t.1)

  pub assign-at : (o : ℕ) (l u : V) (m : List (ℕ × V)) → assign o u ((o, l) ∷ m) ≡ (o, u) ∷ m
  unfolding assign
  assign-at o l u m = rw (==_refl o)

  pub end_of-behind :
      (i o : ℕ) (l : V) (m : List (ℕ × V)) (hi : ℕ)
      → o < i
      → end_of i ((o, l) ∷ m) hi ≡ end_of i m hi
  unfolding end_of
  end_of-behind i o l m hi h = ground arith

  pub assign-behind :
      (i o : ℕ) (l u : V) (m : List (ℕ × V))
      → o < i
      → assign i u ((o, l) ∷ m) ≡ (o, l) ∷ assign i u m
  unfolding assign
  assign-behind i o l u m h = ground arith

  -- A new value at a key that is there.
  pub assign-Tiled :
      (i lo : ℕ) (m : List (ℕ × V)) (hi : ℕ) (v u : V)
      → Tiled lo m hi
      → find i m ≡ some v
      → Fits i (end_of i m hi) u
      → Tiled lo (assign i u m) hi × (start (assign i u m) hi ≡ start m hi)
  assign-Tiled i lo [] hi v u t h f = absurd (not-find-nil i v h)
  assign-Tiled i lo ((o, l) ∷ m) hi v u t h f = elim (place i o l m v h) [
    | at e e' ↦
        let f' = subst (λ j. Fits j (end_of j ((o, l) ∷ m) hi) u) e f in
        let g = subst (λ j. Fits o j u) (end_of-at lo o l m hi t) f' in
        rw (e, assign-at o l u m) ((t.0, t.1, g, t.3), refl)
    | behind lt h' ↦
        let r =
          assign-Tiled i (start m hi) m hi v u t.3 h'
            (subst (λ e. Fits i e u) (end_of-behind i o l m hi lt) f) in
        rw (assign-behind i o l u m lt) ((t.0, rw r.1 t.1, rw r.1 t.2, rw r.1 r.0), refl)
  ]

  pub find-Fits :
      (i lo : ℕ) (m : List (ℕ × V)) (hi : ℕ) (v : V)
      → Tiled lo m hi
      → find i m ≡ some v
      → Fits i (end_of i m hi) v × (i < end_of i m hi)
  find-Fits i lo [] hi v t h = absurd (not-find-nil i v h)
  find-Fits i lo ((o, l) ∷ m) hi v t h = elim (place i o l m v h) [
    | at e e' ↦ rw (e, e', end_of-at lo o l m hi t) (t.2, t.1)
    | behind lt h' ↦ rw (end_of-behind i o l m hi lt) (find-Fits i (start m hi) m hi v t.3 h')
  ]

  pub find-below :
      (lo hi j : ℕ) (m : List (ℕ × V)) → Tiled lo m hi → j < start m hi → find j m ≡ none
  unfolding find
  find-below lo hi j [] t h = refl
  find-below lo hi j ((o, l) ∷ m) t h = ground arith

  pub find-behind : (i o : ℕ) (l : V) (m : List (ℕ × V)) → o < i → find i ((o, l) ∷ m) ≡ find i m
  unfolding find
  find-behind i o l m h = ground arith

  -- No entry starts inside another.
  pub find-inside :
      (i j lo : ℕ) (m : List (ℕ × V)) (hi : ℕ) (v : V)
      → Tiled lo m hi
      → find i m ≡ some v
      → i < j
      → j < end_of i m hi
      → find j m ≡ none
  find-inside i j lo [] hi v t h lt lt' = absurd (not-find-nil i v h)
  find-inside i j lo ((o, l) ∷ m) hi v t h lt lt' = elim (place i o l m v h) [
    | at e e' ↦
        let p = ap (λ k. end_of k ((o, l) ∷ m) hi) e ∙ end_of-at lo o l m hi t in
        find-behind j o l m (omega arith) ∙ find-below (start m hi) hi j m t.3 (omega (arith, p))
    | behind lo' h' ↦
        find-behind j o l m (omega arith)
        ∙ find-inside i j (start m hi) m hi v t.3 h' lt
            (omega (arith, end_of-behind i o l m hi lo'))
  ]

  assign-front :
      (j : ℕ) (w : V) (m : List (ℕ × V)) (hi : ℕ) → j < start m hi → assign j w m ≡ (j, w) ∷ m
  unfolding assign
  assign-front j w [] hi h = refl
  assign-front j w ((o, l) ∷ m) hi h = rw (lt→beq j o h, lt→ltb j o h)

  -- The entry at `i` is cut at `j`: it becomes `u`, and `w` starts at `j`.
  pub assign-assign-Tiled :
      (i j lo : ℕ) (m : List (ℕ × V)) (hi : ℕ) (v u w : V)
      → Tiled lo m hi
      → find i m ≡ some v
      → i < j
      → j < end_of i m hi
      → Fits i j u
      → Fits j (end_of i m hi) w
      → Tiled lo (assign i u (assign j w m)) hi
        × (start (assign i u (assign j w m)) hi ≡ start m hi)
  assign-assign-Tiled i j lo [] hi v u w t h lt lt' f g = absurd (not-find-nil i v h)
  assign-assign-Tiled i j lo ((o, l) ∷ m) hi v u w t h lt lt' f g = elim (place i o l m v h) [
    | at e e' ↦
        let p = ap (λ k. end_of k ((o, l) ∷ m) hi) e ∙ end_of-at lo o l m hi t in
        let below : j < start m hi = omega (arith, p) in
        let g' = subst (λ k. Fits j k w) p g in
        let f' = subst (λ k. Fits k j u) e f in
        rw
          (
            assign-behind j o l w m (omega arith),
            assign-front j w m hi below,
            e,
            assign-at o l u ((j, w) ∷ m),
          )
          ((t.0, omega arith, f', (refl, below, g', t.3)), refl)
    | behind lo' h' ↦
        let p = end_of-behind i o l m hi lo' in
        let r =
          assign-assign-Tiled i j (start m hi) m hi v u w t.3 h' lt (omega (arith, p)) f
            (subst (λ k. Fits j k w) p g) in
        rw (assign-behind j o l w m (omega arith), assign-behind i o l u (assign j w m) lo')
          ((t.0, rw r.1 t.1, rw r.1 t.2, rw r.1 r.0), refl)
  ]
