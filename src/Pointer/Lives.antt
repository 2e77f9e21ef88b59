-- ===== src/Pointer/Lives.antt =====
-- What can happen to the pointers of src/genericManagedPtr.cpp: a program makes, copies and destroys
-- them in any order. An assignment over a pointer destroys it and copies another.
use rambrain_uwp.Prelude.{
  ℕ, suc, ◌^◌, ◌<◌, ◌≡◌, ◌≢◌, inl, inr, refl, sym, ap, subst, ◌∙◌, false, List, [], ◌∷◌, ◌++◌,
  Option, none, some, ◌==◌, elem, arith, length, Bool-cases, All,
}
use rambrain_uwp.Links.{update}
use rambrain_uwp.Pointer.{Pointer, Trackers, create, copy, add_fetch, release}
use rambrain_uwp.Pointer.Counted.{
  IsCounted, holders, copy-IsCounted, release-last, release-held, create-IsCounted,
}

-- The live pointers and the trackers.
pub record Pointers : Type 0 where
  pub live : List Pointer
  pub trackers : Trackers

abbrev after : List Pointer → Pointer × Trackers → Pointers
after ps (p, s) = record { live = p ∷ ps; trackers = s }

-- A new tracker and a new chunk are at addresses that no pointer holds and that have not been used
-- and given back.
pub data Step : Pointers → Pointers → Type 0 where
  created :
      (ps : List Pointer) (s : Trackers) (size n t c : ℕ)
      → 0 < n
      → 0 < size
      → c ≢ 0
      → holders t ps ≡ 0
      → elem t s.deleted ≡ false
      → All (λ p. p.chunk ≢ c) ps
      → elem c s.freed ≡ false
      → suc (length ps) < 2 ^ 32
      → Step (record { live = ps; trackers = s }) (after ps (create size n t c s))
  copied :
      (xs : List Pointer) (p : Pointer) (ys : List Pointer) (s : Trackers)
      → suc (length (xs ++ p ∷ ys)) < 2 ^ 32
      → Step (record { live = xs ++ p ∷ ys; trackers = s }) (after (xs ++ p ∷ ys) (copy p s))
  destroyed :
      (xs : List Pointer) (p : Pointer) (ys : List Pointer) (s t : Trackers)
      → release p s ≡ some t
      → Step
          (record { live = xs ++ p ∷ ys; trackers = s })
          (record { live = xs ++ ys; trackers = t })

pub data Reach (w : Pointers) : Pointers → Type 0 where
  here : Reach w w
  next : {v u : Pointers} → Reach w v → Step v u → Reach w u

-- A live pointer has a chunk that has not been freed and that belongs to its tracker.
abbrev IsLive : (owner : ℕ → ℕ) → Trackers → Pointer → Type 0
IsLive owner s p =
    (p.chunk ≢ 0) × (0 < p.s_size) × (owner p.chunk ≡ p.tracker) × (elem p.chunk s.freed ≡ false)

pub record IsSafe (w : Pointers) : Type 0 where
  pub counted : IsCounted w.live w.trackers
  pub owner : ℕ → ℕ
  pub lives : All (IsLive owner w.trackers) w.live

All-remove {ℓ κ} :
    {A : Type ℓ} (P : A → Type κ) (xs : List A) (p : A) (ys : List A)
    → All P (xs ++ p ∷ ys)
    → P p × All P (xs ++ ys)
All-remove P [] p ys h = (h.0, h.1)
All-remove P (x ∷ xs) p ys h = let r = All-remove P xs p ys h.1 in (r.0, (h.0, r.1))

freed-later :
    (owner : ℕ → ℕ) (s t : Trackers) (p : Pointer) (ps : List Pointer)
    → owner p.chunk ≡ p.tracker
    → holders p.tracker ps ≡ 0
    → t.freed ≡ p.chunk ∷ s.freed
    → All (IsLive owner s) ps
    → All (IsLive owner t) ps
freed-later owner s t p [] o z e h = tt
freed-later owner s t p (q ∷ ps) o z e h =
    let apart : q.chunk ≢ p.chunk =
      λ same. let tracker : q.tracker ≡ p.tracker = sym h.0.2 ∙ ap owner same ∙ o in ground arith in
    (ground (arith, h.0, apart), freed-later owner s t p ps o (ground arith) e h.1)

kept-later :
    (owner : ℕ → ℕ) (s t : Trackers) (ps : List Pointer)
    → t.freed ≡ s.freed
    → All (IsLive owner s) ps
    → All (IsLive owner t) ps
kept-later owner s t [] e h = tt
kept-later owner s t (q ∷ ps) e h = (ground (arith, h.0), kept-later owner s t ps e h.1)

owner-later :
    (owner : ℕ → ℕ) (s t : Trackers) (c n : ℕ) (ps : List Pointer)
    → t.freed ≡ s.freed
    → All (λ p. p.chunk ≢ c) ps
    → All (IsLive owner s) ps
    → All (IsLive (update owner c n) t) ps
owner-later owner s t c n [] e f h = tt
owner-later owner s t c n (q ∷ ps) e f h =
    (ground (arith, h.0, f.0), owner-later owner s t c n ps e f.1 h.1)

abbrev SafeResult : List Pointer → Option Trackers → Type 0
SafeResult ps none = Unit
SafeResult ps (some t) = IsSafe (record { live = ps; trackers = t })

destroyed-IsSafe :
    (xs : List Pointer) (p : Pointer) (ys : List Pointer) (s : Trackers)
    → IsSafe (record { live = xs ++ p ∷ ys; trackers = s })
    → SafeResult (xs ++ ys) (release p s)
destroyed-IsSafe xs p ys s h =
    let (live, others) = All-remove (IsLive h.owner s) xs p ys h.lives in
    elim (Bool-cases (holders p.tracker (xs ++ ys) == 0)) [
      | inl z ↦
          let (t, e, counted, freed, gone) =
            release-last xs p ys s h.counted live.0 live.1 (ground arith) in
          subst (SafeResult (xs ++ ys)) (sym e) (record {
            counted = counted;
            owner = h.owner;
            lives = freed-later h.owner s t p (xs ++ ys) live.2 (ground arith) freed others;
          })
      | inr z ↦
          let (t, e, counted, freed, gone) = release-held xs p ys s h.counted (ground arith) in
          subst (SafeResult (xs ++ ys)) (sym e) (record {
            counted = counted;
            owner = h.owner;
            lives = kept-later h.owner s t (xs ++ ys) freed others;
          })
    ]

Step-IsSafe : {w v : Pointers} → Step w v → IsSafe w → IsSafe v
unfolding create copy add_fetch
Step-IsSafe (created ps s size n t c pn ps' c0 fresh fresh' f f' few) h = record {
  counted = create-IsCounted size n t c ps s fresh fresh' few h.counted;
  owner = update h.owner c t;
  lives = (ground arith, owner-later h.owner s (create size n t c s).1 c t ps refl f h.lives);
}
Step-IsSafe (copied xs p ys s few) h = record {
  counted = copy-IsCounted xs p ys s h.counted few;
  owner = h.owner;
  lives = (
    ground (arith, (All-remove (IsLive h.owner s) xs p ys h.lives).0),
    kept-later h.owner s (copy p s).1 (xs ++ p ∷ ys) refl h.lives,
  );
}
Step-IsSafe (destroyed xs p ys s t e) h =
    subst (SafeResult (xs ++ ys)) e (destroyed-IsSafe xs p ys s h)

-- Whatever pointers a program makes, copies and destroys, from a safe state on: every tracker that is
-- held counts its holders and is not deleted, and the chunk of every live pointer has not been freed.
pub Reach-IsSafe : {w v : Pointers} → IsSafe w → Reach w v → IsSafe v
Reach-IsSafe h here = h
Reach-IsSafe h (next r st) = Step-IsSafe st (Reach-IsSafe h r)
