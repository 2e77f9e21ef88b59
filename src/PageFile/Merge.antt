-- ===== src/PageFile/Merge.antt =====
-- Lemmas on tilings for `pffree` of src/managedFileSwap.cpp: a location is found beside another, and
-- swallows the one behind it.
use rambrain_uwp.Prelude.{
  ℕ, ◌≡◌, ◌⊎◌, ◌<◌, ◌≤◌, refl, sym, List, [], ◌∷◌, Option, none, some, ltb, arith, Bool-cases, inl,
  inr, ap, subst, ◌∙◌,
}
use rambrain_uwp.PageFile.Maps.{find, assign, erase, after, before, before_from}
use rambrain_uwp.PageFile.Sorted.{IsAscending, erase-behind, erase-at}
use rambrain_uwp.PageFile.Tiles.{
  Tiled, start, end_of, find-le, find-Fits, not-find-nil, end_of-start, find-behind, assign-at,
  assign-behind, end_of-at, end_of-behind, at, behind, place,
}

module _ {V : Type 0} where
  module _ (Fits : (o end : ℕ) → V → Type 0) where
    -- `++it`.
    pub after-end_of :
        (i lo : ℕ) (m : List (ℕ × V)) (hi o : ℕ) (v : V)
        → Tiled Fits lo m hi
        → after i m ≡ some (o, v)
        → (end_of i m hi ≡ o) × (find o m ≡ some v)
    unfolding after end_of find
    after-end_of i lo [] hi o v t h = absurd (ground arith)
    after-end_of i lo ((k, u) ∷ m) hi o v t h = elim (Bool-cases (ltb i k)) [
      | inl e ↦ (ground arith, ground arith)
      | inr e ↦
          let r = after-end_of i (start m hi) m hi o v t.3 (ground arith) in
          let b = find-le Fits o (start m hi) m hi v t.3 r.1 in
          (rw e r.0, find-behind Fits o k u m (omega (arith, t.1, b)) ∙ r.1)
    ]

    pub after-none : (i : ℕ) (m : List (ℕ × V)) (hi : ℕ) → after i m ≡ none → end_of i m hi ≡ hi
    unfolding after end_of
    after-none i [] hi h = refl
    after-none i ((k, u) ∷ m) hi h = ground (arith, after-none i m hi)

    -- `--it`, with the entry that has been passed last.
    before_from-end_of :
        (last : Option (ℕ × V)) (i lo : ℕ) (m : List (ℕ × V)) (hi o : ℕ) (v w : V)
        → Tiled Fits lo m hi
        → find i m ≡ some w
        → before_from last i m ≡ some (o, v)
        → ((last ≡ some (o, v)) × (i ≡ lo)) ⊎ ((end_of o m hi ≡ i) × (find o m ≡ some v) × (lo ≤ o))
    unfolding before_from end_of find
    before_from-end_of last i lo [] hi o v w t f h = absurd (ground arith)
    before_from-end_of last i lo ((k, u) ∷ m) hi o v w t f h = elim (Bool-cases (ltb k i)) [
      | inl e ↦
          elim (before_from-end_of (some (k, u)) i (start m hi) m hi o v w t.3 (ground arith)
            (ground arith)) [
              | inl r ↦
                  let same = end_of-start Fits k (start m hi) m hi t.3 t.1 in
                  inr (ground (arith, r, same), ground (arith, r), ground (arith, r, t.0))
              | inr r ↦
                  let lt : k < o = omega (arith, r.2, t.1) in
                  inr (
                    end_of-behind Fits o k u m hi lt ∙ r.0,
                    find-behind Fits o k u m lt ∙ r.1,
                    omega (arith, t.0, r.2, t.1),
                  )
            ]
      | inr e ↦ inl (ground arith, ground arith)
    ]

    -- `--it` of a key that is there and is not the first.
    pub before-end_of :
        (i : ℕ) (m : List (ℕ × V)) (hi o : ℕ) (v w : V)
        → Tiled Fits 0 m hi
        → find i m ≡ some w
        → before i m ≡ some (o, v)
        → (end_of o m hi ≡ i) × (find o m ≡ some v)
    unfolding before
    before-end_of i m hi o v w t f h = elim (before_from-end_of none i 0 m hi o v w t f h) [
      | inl r ↦ absurd (ground arith)
      | inr r ↦ (r.0, r.1)
    ]

    pub Tiled-IsAscending :
        (lo : ℕ) (m : List (ℕ × V)) (hi : ℕ) → Tiled Fits lo m hi → IsAscending m
    Tiled-IsAscending lo [] hi t = tt
    Tiled-IsAscending lo ((o, l) ∷ []) hi t = tt
    Tiled-IsAscending lo ((o, l) ∷ (q, k) ∷ m) hi t = (t.1, Tiled-IsAscending q ((q, k) ∷ m) hi t.3)

    -- Values have no part in where an entry ends.
    pub end_of-assign :
        (i j : ℕ) (m : List (ℕ × V)) (hi : ℕ) (u v : V)
        → find j m ≡ some v
        → end_of i (assign j u m) hi ≡ end_of i m hi
    unfolding end_of find assign
    end_of-assign i j [] hi u v h = absurd (ground arith)
    end_of-assign i j ((k, w) ∷ m) hi u v h = ground (arith, end_of-assign i j m hi u v)

    -- The entry behind the first one is the one at which that ends.
    find-start :
        (lo : ℕ) (m : List (ℕ × V)) (hi : ℕ) (w : V)
        → Tiled Fits lo m hi
        → find (start m hi) m ≡ some w
        → (r : List (ℕ × V)) × (m ≡ (start m hi, w) ∷ r)
    unfolding find
    find-start lo [] hi w t h = absurd (ground arith)
    find-start lo ((o, l) ∷ m) hi w t h = (m, ground arith)

    -- The result of the swallowing of the entry at `off` by the one at `o`.
    abbrev pub Swallowed : (o off lo : ℕ) (m : List (ℕ × V)) (hi : ℕ) (u : V) → Type 0
    Swallowed o off lo m hi u =
        let m' = erase off (assign o u m) in
        Tiled Fits lo m' hi × (start m' hi ≡ start m hi) × (end_of o m' hi ≡ end_of off m hi)

    swallow-first :
        (lo k q : ℕ) (a w u : V) (m : List (ℕ × V)) (hi : ℕ)
        → Tiled Fits lo ((k, a) ∷ (q, w) ∷ m) hi
        → Fits k (end_of q ((k, a) ∷ (q, w) ∷ m) hi) u
        → Swallowed k q lo ((k, a) ∷ (q, w) ∷ m) hi u
    swallow-first lo k q a w u m hi t f =
        let end = end_of-behind Fits q k a ((q, w) ∷ m) hi t.1 ∙ end_of-at Fits q q w m hi t.3 in
        let le : k < start m hi = omega (arith, t.1, t.3.1) in
        let tiled : Tiled Fits lo ((k, u) ∷ m) hi =
          (t.0, le, subst (λ e. Fits k e u) end f, t.3.3) in
        rw (assign-at Fits k a u ((q, w) ∷ m), erase-behind q k u ((q, w) ∷ m) t.1, erase-at q w m)
          (tiled, refl, end_of-at Fits lo k u m hi tiled ∙ sym end)

    pub swallow-Tiled :
        (o off lo : ℕ) (m : List (ℕ × V)) (hi : ℕ) (v w u : V)
        → Tiled Fits lo m hi
        → find o m ≡ some v
        → end_of o m hi ≡ off
        → find off m ≡ some w
        → Fits o (end_of off m hi) u
        → Swallowed o off lo m hi u
    swallow-Tiled o off lo [] hi v w u t h e g f = absurd (not-find-nil Fits o v h)
    swallow-Tiled o off lo ((k, a) ∷ m) hi v w u t h e g f = elim (place Fits o k a m v h) [
      | at e' _ ↦
          let q : off ≡ start m hi =
            sym e ∙ ap (λ i. end_of i ((k, a) ∷ m) hi) e' ∙ end_of-at Fits lo k a m hi t in
          let g' = sym (find-behind Fits off k a m (omega (arith, q, t.1))) ∙ g in
          let (r, same) =
            find-start (start m hi) m hi w t.3 (subst (λ i. find i m ≡ some w) q g') in
          let found = subst (λ i. m ≡ (i, w) ∷ r) (sym q) same in
          subst
            (λ n.
              Tiled Fits lo ((k, a) ∷ n) hi
              → Fits o (end_of off ((k, a) ∷ n) hi) u
              → Swallowed o off lo ((k, a) ∷ n) hi u)
            (sym found)
            (subst
              (λ i.
                Tiled Fits lo ((k, a) ∷ (off, w) ∷ r) hi
                → Fits i (end_of off ((k, a) ∷ (off, w) ∷ r) hi) u
                → Swallowed i off lo ((k, a) ∷ (off, w) ∷ r) hi u)
              (sym e') (swallow-first lo k off a w u r hi))
            t f
      | behind lt h' ↦
          let e' = sym (end_of-behind Fits o k a m hi lt) ∙ e in
          let after : o < off =
            omega (arith, e', (find-Fits Fits o (start m hi) m hi v t.3 h').1) in
          let lt' : k < off = omega arith in
          let r =
            swallow-Tiled o off (start m hi) m hi v w u t.3 h' e'
              (sym (find-behind Fits off k a m lt') ∙ g)
              (subst (λ i. Fits o i u) (end_of-behind Fits off k a m hi lt') f) in
          rw (assign-behind Fits o k a u m lt, erase-behind off k a (assign o u m) lt')
            (
              (t.0, rw r.1 t.1, rw r.1 t.2, rw r.1 r.0),
              refl,
              end_of-behind Fits o k a (erase off (assign o u m)) hi lt
                  ∙ r.2
                  ∙ sym (end_of-behind Fits off k a m hi lt'),
            )
    ]
