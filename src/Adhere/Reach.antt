-- ===== src/Adhere/Reach.antt =====
-- What can happen to the `adhereTo` objects of src/managedPtr.h on a chunk in RAM: a program makes,
-- pulls, copies, assigns and destroys them in any order.
use rambrain_uwp.Prelude.{
  ℕ, ◌+◌, ◌^◌, ◌≡◌, ◌⊎◌, ◌<◌, inl, inr, refl, sym, Bool, true, false, arith, ◌∙◌, ap, subst, List,
  [], ◌∷◌, ◌++◌, ◌==◌, not, ◌&&◌, Bool-cases, All,
}
use rambrain_uwp.World.{World}
use rambrain_uwp.Outcome.{Outcome, Returns, returned}
use rambrain_uwp.Manager.{Backend, status_of, prepare_use}
use rambrain_uwp.Manager.Use.{IsQuiet, IsAllocated}
use rambrain_uwp.Pointer.{Pointer}
use rambrain_uwp.Adhere.{
  Adherence, loaded, adhere, pull_const, pull, copy_adherence, assign_adherence, let_go,
}
use rambrain_uwp.Manager.Mode.{Off, StaysOff, IsCalm}
use rambrain_uwp.Adhere.Calm.{
  adhere-Calm, pull_const-Calm, pull-Calm, copy-Calm, assign-Calm, let_go-Calm,
}
use rambrain_uwp.Adhere.Held.{IsHeld}
use rambrain_uwp.Adhere.Lives.{
  total, total-middle, Pulled, pull_const-Pulled, pull-Pulled, copy-IsHeld, assign-IsHeld,
  let_go-IsHeld,
}

-- What a call that has returned guarantees.
returned-holds :
    {A : Type 0} (P : A → World → Type 0) (o : Outcome A) (a : A) (v : World)
    → Returns P o
    → o ≡ returned a v
    → P a v
returned-holds P o a v r e = subst (Returns P) e r

-- The objects on a chunk that live, and the world.
pub record Adhering : Type 0 where
  pub live : List Adherence
  pub world : World

-- An object on the chunk at `k`; one on a pointer to no elements holds no use.
abbrev pub IsOn : (k : ℕ) → Adherence → Type 0
IsOn k a = (a.on.chunk ≡ k) × ((a.on.n_elem == 0) ≡ true → loaded a ≡ 0)

pub record IsBalanced (k : ℕ) (s : Adhering) : Type 0 where
  pub held : IsHeld k (total s.live) s.world
  pub sane : All (IsOn k) s.live
  pub off : Off s.world

All-replace :
    (P : Adherence → Type 0) (xs : List Adherence) (a c : Adherence) (ys : List Adherence)
    → All P (xs ++ a ∷ ys)
    → P a × All P (xs ++ ys) × (P c → All P (xs ++ c ∷ ys))
All-replace P [] a c ys h = (h.0, h.1, λ p. (p, h.1))
All-replace P (x ∷ xs) a c ys h =
    let r = All-replace P xs a c ys h.1 in (r.0, (h.0, r.1), λ p. (h.0, r.2 p))

total-append : (xs ys : List Adherence) → total (xs ++ ys) ≡ total xs + total ys
total-append [] ys = omega arith
total-append (x ∷ xs) ys = omega (arith, total-append xs ys)

module _ (b : Backend) (fuel k : ℕ) where
  pub data Step : Adhering → Adhering → Type 0 where
    made :
        (hs : List Adherence) (w v : World) (p : Pointer) (load : Bool) (a : Adherence)
        → p.chunk ≡ k
        → adhere b fuel p load w ≡ returned a v
        → Step (record { live = hs; world = w }) (record { live = a ∷ hs; world = v })
    pulled :
        (xs : List Adherence) (a : Adherence) (ys : List Adherence) (w v : World)
        (r : Adherence × ℕ)
        → total (xs ++ a ∷ ys) + 1 < 2 ^ 16
        → (pull_const b fuel a w ≡ returned r v) ⊎ (pull b fuel a w ≡ returned r v)
        → Step
            (record { live = xs ++ a ∷ ys; world = w })
            (record { live = xs ++ r.0 ∷ ys; world = v })
    copied :
        (xs : List Adherence) (a : Adherence) (ys : List Adherence) (w v : World) (c : Adherence)
        → total (xs ++ a ∷ ys) + loaded a < 2 ^ 16
        → copy_adherence b fuel a w ≡ returned c v
        → Step
            (record { live = xs ++ a ∷ ys; world = w })
            (record { live = c ∷ xs ++ a ∷ ys; world = v })
    assigned :
        (xs : List Adherence) (a : Adherence) (ys us : List Adherence) (ref : Adherence)
        (vs : List Adherence) (w v : World) (r : Adherence)
        → xs ++ a ∷ ys ≡ us ++ ref ∷ vs
        → total (xs ++ a ∷ ys) + loaded ref < 2 ^ 16
        → assign_adherence b fuel a ref w ≡ returned r v
        → Step
            (record { live = xs ++ a ∷ ys; world = w })
            (record { live = xs ++ r ∷ ys; world = v })
    destroyed :
        (xs : List Adherence) (a : Adherence) (ys : List Adherence) (w v : World)
        → let_go b fuel a w ≡ returned tt v
        → Step (record { live = xs ++ a ∷ ys; world = w }) (record { live = xs ++ ys; world = v })

  pub data Reach (s : Adhering) : Adhering → Type 0 where
    here : Reach s s
    next : {t u : Adhering} → Reach s t → Step t u → Reach s u

  module _ (touch_quiet : IsQuiet (b.touch k))
      (invalidate_quiet : IsQuiet (b.invalidate_cache_for k)) (calm : IsCalm b k) where
    calm_at : (c : ℕ) → c ≡ k → IsCalm b c
    calm_at c e = subst (IsCalm b) (sym e) calm

    prepare_use-there :
        (w : World)
        → IsAllocated (status_of w k)
        → prepare_use b fuel k true w ≡ returned true (record w { state_locked = false })
    unfolding prepare_use
    prepare_use-there w (inl e) = rw e refl
    prepare_use-there w (inr (inl e)) = rw e refl
    prepare_use-there w (inr (inr e)) = rw e refl

    unlocked-IsHeld :
        (n : ℕ) (w : World) → IsHeld k n w → IsHeld k n (record w { state_locked = false })
    unlocked-IsHeld n w h = record {
      counted = h.counted;
      there = h.there;
      in_use = h.in_use;
      idle = h.idle;
    }

    adhere-IsHeld :
        (p : Pointer) (load : Bool) (n : ℕ) (w : World)
        → p.chunk ≡ k
        → IsHeld k n w
        → Returns (λ a v. IsOn k a × (loaded a ≡ 0) × IsHeld k n v) (adhere b fuel p load w)
    unfolding adhere
    adhere-IsHeld p load n w e h =
        let done =
          subst
            (λ c. prepare_use b fuel c true w ≡ returned true (record w { state_locked = false }))
            (sym e) (prepare_use-there w h.there) in
        elim (Bool-cases (load && not (p.n_elem == 0))) [
          | inl x ↦ rw (x, done) ((e, λ _. refl), refl, unlocked-IsHeld n w h)
          | inr x ↦ rw x ((e, λ _. refl), refl, h)
        ]

    Pulled-IsBalanced :
        (xs : List Adherence) (a : Adherence) (ys : List Adherence) (w v : World)
        (r : Adherence × ℕ)
        → Off v
        → IsBalanced k (record { live = xs ++ a ∷ ys; world = w })
        → Pulled b fuel k touch_quiet invalidate_quiet a (total xs + total ys) r v
        → IsBalanced k (record { live = xs ++ r.0 ∷ ys; world = v })
    Pulled-IsBalanced xs a ys w v r off h (same, held, _, empty) =
        let (on, _, put) = All-replace (IsOn k) xs a r.0 ys h.sane in
        record {
          held = subst (λ n. IsHeld k n v) (omega (arith, total-middle xs r.0 ys)) held;
          sane = put (
            ap (λ p. p.chunk) same ∙ on.0,
            λ z.
                (let z' : (a.on.n_elem == 0) ≡ true = sym (ap (λ p. p.n_elem == 0) same) ∙ z in
                  ap loaded (empty z') ∙ on.1 z'),
          );
          off = off;
        }

    Step-IsBalanced : {s t : Adhering} → Step s t → IsBalanced k s → IsBalanced k t
    Step-IsBalanced (made hs w v p load a e o) h =
        let (on, none_held, held) =
          returned-holds _ (adhere b fuel p load w) a v (adhere-IsHeld p load (total hs) w e h.held)
            o in
        record {
          held = subst (λ n. IsHeld k n v) (omega (arith, none_held)) held;
          sane = (on, h.sane);
          off = subst StaysOff o (adhere-Calm b fuel p load (calm_at p.chunk e) w h.off);
        }
    Step-IsBalanced (pulled xs a ys w v r lt o) h =
        let n = total xs + total ys in
        let mid = total-middle xs a ys in
        let on = (All-replace (IsOn k) xs a a ys h.sane).0 in
        let held : IsHeld k (n + loaded a) w =
          subst (λ m. IsHeld k m w) (omega (arith, mid)) h.held in
        let got : Pulled b fuel k touch_quiet invalidate_quiet a n r v = elim o [
          | inl e ↦
              returned-holds _ (pull_const b fuel a w) r v
                (pull_const-Pulled b fuel k touch_quiet invalidate_quiet a n w on.0
                  (omega (arith, lt, mid)) held)
                e
          | inr e ↦
              returned-holds _ (pull b fuel a w) r v
                (pull-Pulled b fuel k touch_quiet invalidate_quiet a n w on.0
                  (omega (arith, lt, mid)) held)
                e
        ] in
        let off : Off v = elim o [
          | inl e ↦ subst StaysOff e (pull_const-Calm b fuel a (calm_at a.on.chunk on.0) w h.off)
          | inr e ↦ subst StaysOff e (pull-Calm b fuel a (calm_at a.on.chunk on.0) w h.off)
        ] in
        Pulled-IsBalanced xs a ys w v r off h got
    Step-IsBalanced (copied xs a ys w v c lt e) h =
        let on = (All-replace (IsOn k) xs a a ys h.sane).0 in
        let (same, held, _) =
          returned-holds _ (copy_adherence b fuel a w) c v
            (copy-IsHeld b fuel k touch_quiet invalidate_quiet a (total (xs ++ a ∷ ys)) w on.0 lt
              h.held)
            e in
        record {
          held = subst (λ n. IsHeld k n v) (omega (arith, ap loaded same)) held;
          sane = (rw same on, h.sane);
          off = subst StaysOff e (copy-Calm b fuel a (calm_at a.on.chunk on.0) w h.off);
        }
    Step-IsBalanced (assigned xs a ys us ref vs w v r same lt e) h =
        let on = (All-replace (IsOn k) xs a a ys h.sane).0 in
        let on' = (All-replace (IsOn k) us ref ref vs (subst (All (IsOn k)) same h.sane)).0 in
        let n = total xs + total ys in
        let mid = total-middle xs a ys in
        let (got, held) =
          returned-holds _ (assign_adherence b fuel a ref w) r v
            (assign-IsHeld b fuel k touch_quiet invalidate_quiet calm a ref n w on.0 on'.0
              (omega (arith, lt, mid)) h.off
              (subst (λ m. IsHeld k m w) (omega (arith, mid)) h.held))
            e in
        record {
          held =
              subst (λ m. IsHeld k m v) (omega (arith, total-middle xs r ys, ap loaded got)) held;
          sane = (All-replace (IsOn k) xs a r ys h.sane).2 (rw got on');
          off = subst StaysOff e (
              assign-Calm b fuel a ref (calm_at a.on.chunk on.0) (calm_at ref.on.chunk on'.0) w
                h.off);
        }
    Step-IsBalanced (destroyed xs a ys w v e) h =
        let (on, rest, _) = All-replace (IsOn k) xs a a ys h.sane in
        let n = total xs + total ys in
        let held =
          returned-holds _ (let_go b fuel a w) tt v
            (let_go-IsHeld b fuel k touch_quiet invalidate_quiet calm a n w on.0 on.1 h.off
              (subst (λ m. IsHeld k m w) (omega (arith, total-middle xs a ys)) h.held))
            e in
        record {
          held = subst (λ m. IsHeld k m v) (omega (arith, total-append xs ys)) held;
          sane = rest;
          off = subst StaysOff e (let_go-Calm b fuel a (calm_at a.on.chunk on.0) w h.off);
        }

    -- Whatever `adhereTo` objects a program makes, pulls, copies, assigns and destroys on a chunk in RAM,
    -- with less than 2 ^ 16 uses at a time and preemptive swapping out turned off: the use count of the
    -- chunk is the number of uses that the live objects hold, so it stays in RAM, in use while there are
    -- any and swappable when there are none.
    pub Reach-IsBalanced : {s t : Adhering} → IsBalanced k s → Reach s t → IsBalanced k t
    Reach-IsBalanced h here = h
    Reach-IsBalanced h (next r st) = Step-IsBalanced st (Reach-IsBalanced h r)
