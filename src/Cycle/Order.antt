-- ===== src/Cycle/Order.antt =====
-- The ring of src/cyclicManagedMemory.cpp as a list of elements: what `schedulerRegister`,
-- `schedulerDelete` and `touch` do to the order in which the scheduler holds its elements.
use rambrain_uwp.Prelude.{
  ℕ, ◌≡◌, true, false, List, [], ◌∷◌, ◌++◌, arith, ◌==◌, elem, Distinct, if◌then◌else◌, ◌∙◌, sym,
  subst, Distinct-middle, elem-append, Distinct-apart,
}
use mathlib.Core.List.{append-nil}
use rambrain_uwp.Links.{
  Links, mutual_connect, Chain, Chain-split, elem-prev, Chain-retarget, Chain-connect, Chain-unlink,
  Ring-insert,
}
use rambrain_uwp.World.{World}
use rambrain_uwp.Cycle.{
  scheduler_register, delete_preemptive, hook_out, scheduler_delete, touch_preemptive,
  move_to_front, touch,
}

-- `xs` are the elements of the ring, from `active` along `next`; `counterActive` is one of them.
abbrev pub Order : World → List ℕ → Type 0
Order w [] = (w.active ≡ 0) × (w.counter_active ≡ 0)
Order w (a ∷ xs) =
    (w.active ≡ a)
    × Chain w.links a xs a
    × Distinct (0 ∷ a ∷ xs)
    × (elem w.counter_active (a ∷ xs) ≡ true)

Order-cong :
    (w v : World) (xs : List ℕ)
    → v.active ≡ w.active
    → v.counter_active ≡ w.counter_active
    → v.links ≡ w.links
    → Order w xs
    → Order v xs
Order-cong w v [] e f g h = rw (e, f) h
Order-cong w v (a ∷ xs) e f g h = rw (e, f, g) h

-- `schedulerRegister` puts the new element at the head of the ring and keeps the order of the others,
-- if its address is new.
pub scheduler_register-Order :
    (w : World) (k neu : ℕ) (xs : List ℕ)
    → Order w xs
    → elem neu (0 ∷ xs) ≡ false
    → Order (scheduler_register w k neu) (neu ∷ xs)
unfolding scheduler_register
scheduler_register-Order w k neu [] h new = ground arith
scheduler_register-Order w k neu (a ∷ xs) h new =
    let ring = Ring-insert w.links neu a xs h.1 (ground arith, h.2.1) in ground (arith, ring)

hook_out-head : (w : World) (e : ℕ) (ys : List ℕ) → Order w (e ∷ ys) → Order (hook_out w e) ys
unfolding hook_out
hook_out-head w e [] h = ground arith
hook_out-head w e (y ∷ r) h =
    let ring = Chain-retarget w.links y y r e h.1.2 h.2.1.1 h.2.1.1.0 in
    ground (arith, ring, elem-prev w.links y r e h.1.2)

next-ne :
    (m : Links) (e : ℕ) (ys : List ℕ) (b : ℕ)
    → Chain m e ys b
    → elem e (b ∷ ys) ≡ false
    → (m.next e == e) ≡ false
next-ne m e [] b h out = ground arith
next-ne m e (y ∷ r) b h out = ground arith

-- What `hook_out` leaves where the element is not alone; two cases of the code do the same.
hook_out-links :
    (w : World) (e : ℕ)
    → (w.links.next e == e) ≡ false
    → (hook_out w e).links ≡ mutual_connect w.links (w.links.prev e) (w.links.next e)
unfolding hook_out
hook_out-links w e h = ground arith

hook_out-pointers :
    (w : World) (e : ℕ)
    → (w.links.next e == e) ≡ false
    → (w.active == e) ≡ false
    → ((hook_out w e).active ≡ w.active)
      × ((hook_out w e).counter_active
          ≡ (if w.counter_active == e then w.links.prev e else w.counter_active))
unfolding hook_out
hook_out-pointers w e h h' = ground arith

-- `counterActive` steps back from the element that moves, to one that stays.
counter-elem :
    (c p a : ℕ) (xs : List ℕ) (e : ℕ) (ys : List ℕ)
    → elem c (a ∷ xs ++ e ∷ ys) ≡ true
    → elem p (a ∷ xs) ≡ true
    → elem (if c == e then p else c) (a ∷ xs ++ ys) ≡ true
counter-elem c p a xs e ys h h' =
    ground (arith, elem-append p xs ys, elem-append c xs ys, elem-append c xs (e ∷ ys))

hook_out-tail :
    (w : World) (a : ℕ) (xs : List ℕ) (e : ℕ) (ys : List ℕ)
    → Order w (a ∷ xs ++ e ∷ ys)
    → Order (hook_out w e) (a ∷ xs ++ ys)
hook_out-tail w a xs e ys h =
    let parts = Chain-split w.links a xs e ys a h.1 in
    let ring = Chain-unlink w.links a xs e ys a h.1 h.2.1 h.2.1.0 in
    let apart = elem-append a xs (e ∷ ys) in
    let e_apart = Distinct-apart e (a ∷ xs) ys h.2.1 in
    let other = next-ne w.links e ys a parts.1 (ground arith) in
    let pointers = hook_out-pointers w e other (ground arith) in
    (
      pointers.0 ∙ h.0,
      rw (hook_out-links w e other) ring,
      (Distinct-middle e (0 ∷ a ∷ xs) ys h.2).1,
      rw pointers.1 (counter-elem _ _ a xs e ys h.3 (elem-prev w.links a xs e parts.0)),
    )

delete_preemptive-Order :
    (w : World) (k : ℕ) (xs : List ℕ) → Order w xs → Order (delete_preemptive w k) xs
unfolding delete_preemptive
delete_preemptive-Order w k xs h =
    Order-cong w (delete_preemptive w k) xs (ground arith) (ground arith) (ground arith) h

touch_preemptive-Order :
    (w : World) (k : ℕ) (xs : List ℕ) → Order w xs → Order (touch_preemptive w k) xs
unfolding touch_preemptive
touch_preemptive-Order w k xs h =
    Order-cong w (touch_preemptive w k) xs (ground arith) (ground arith) (ground arith) h

hook_out-Order :
    (w : World) (xs : List ℕ) (e : ℕ) (ys : List ℕ)
    → Order w (xs ++ e ∷ ys)
    → Order (hook_out w e) (xs ++ ys)
hook_out-Order w [] e ys h = hook_out-head w e ys h
hook_out-Order w (a ∷ xs) e ys h = hook_out-tail w a xs e ys h

-- `schedulerDelete` takes the chunk's element out of the ring and keeps the order of the others, if
-- the element stands in the ring.
pub scheduler_delete-Order :
    (w : World) (k : ℕ) (xs : List ℕ) (e : ℕ) (ys : List ℕ)
    → Order w (xs ++ e ∷ ys)
    → (w.chunks k).sched_buf ≡ e
    → Order (scheduler_delete w k) (xs ++ ys)
unfolding scheduler_delete
scheduler_delete-Order w k xs e ys h buf =
    rw buf (hook_out-Order (delete_preemptive w k) xs e ys (delete_preemptive-Order w k _ h))

move_to_front-head :
    (w : World) (e : ℕ) (ys : List ℕ) → Order w (e ∷ ys) → Order (move_to_front w e) (e ∷ ys)
unfolding move_to_front
move_to_front-head w e ys h = ground arith

-- Where `move_to_front` leaves the two pointers, if the element is not the head.
move_to_front-pointers :
    (w : World) (e : ℕ)
    → (w.active == e) ≡ false
    → ((move_to_front w e).active ≡ e)
      × ((move_to_front w e).counter_active
          ≡ (if w.counter_active == e then w.links.prev e else w.counter_active))
unfolding move_to_front
move_to_front-pointers w e h = ground arith

module _ (w : World) (a e : ℕ) where
  move_to_front-last :
      (xs : List ℕ)
      → w.active ≡ a
      → (a == e) ≡ false
      → Chain w.links a (xs ++ e ∷ []) a
      → Chain (move_to_front w e).links e (a ∷ xs) e
  unfolding move_to_front
  move_to_front-last xs at ne h =
      let parts = Chain-split w.links a xs e [] a h in ground (arith, parts)

  move_to_front-second :
      (y : ℕ) (r : List ℕ)
      → w.active ≡ a
      → Distinct (a ∷ e ∷ y ∷ r)
      → Chain w.links a (e ∷ y ∷ r) a
      → Chain (move_to_front w e).links e (a ∷ y ∷ r) e
  unfolding move_to_front mutual_connect
  move_to_front-second y r at d h =
      let m1 = mutual_connect w.links (w.links.prev a) e in
      let m2 = mutual_connect m1 e a in
      let c1 = Chain-retarget w.links e y r a h.2.2 d.1.1 (ground arith) in
      let c2 = Chain-connect m1 e a y r e c1 (ground arith) (ground arith) (ground arith) in
      let c3 = Chain-connect m2 a y y r e c2 (ground arith) (ground arith) (ground arith) in
      let e1 : (move_to_front w e).links ≡ mutual_connect m2 a y =
        ground (arith, elem-prev w.links y r a h.2.2) in
      subst (λ m. Chain m e (a ∷ y ∷ r) e) (sym e1)
        (ground arith, ground arith, (ground arith, ground arith, c3))

  move_to_front-inner :
      (xs : List ℕ) (y : ℕ) (r : List ℕ)
      → w.active ≡ a
      → (w.links.next a == e) ≡ false
      → Distinct (a ∷ xs ++ e ∷ y ∷ r)
      → Chain w.links a (xs ++ e ∷ y ∷ r) a
      → Chain (move_to_front w e).links e (a ∷ xs ++ y ∷ r) e
  unfolding move_to_front mutual_connect
  move_to_front-inner xs y r at ne d h =
      let m1 = mutual_connect w.links (w.links.prev e) (w.links.next e) in
      let apart = Distinct-middle e (a ∷ xs) (y ∷ r) d in
      let c1 = Chain-unlink w.links a xs e (y ∷ r) a h d d.0 in
      let c2 = Ring-insert m1 e a (xs ++ y ∷ r) c1 apart in
      let last = elem-prev w.links y r a (Chain-split w.links a xs e (y ∷ r) a h).1.2 in
      let after = (Chain-split w.links a xs e (y ∷ r) a h).1.0 in
      let e1 : (move_to_front w e).links ≡ mutual_connect (mutual_connect m1 (m1.prev a) e) e a =
        ground (arith, elem-append a xs (e ∷ y ∷ r), Distinct-apart e (a ∷ xs) (y ∷ r) d) in
      subst (λ m. Chain m e (a ∷ xs ++ y ∷ r) e) (sym e1) c2

Distinct-front :
    (a : ℕ) (xs : List ℕ) (e : ℕ) (ys : List ℕ)
    → Distinct (0 ∷ a ∷ xs ++ e ∷ ys)
    → Distinct (0 ∷ e ∷ a ∷ xs ++ ys)
Distinct-front a xs e ys d = ground (arith, Distinct-middle e (0 ∷ a ∷ xs) ys d)

move_to_front-ring :
    (w : World) (a : ℕ) (xs : List ℕ) (e : ℕ) (ys : List ℕ)
    → Order w (a ∷ xs ++ e ∷ ys)
    → Chain (move_to_front w e).links e (a ∷ xs ++ ys) e
move_to_front-ring w a xs e [] h =
    rw append-nil
      (move_to_front-last w a e xs h.0 (ground (arith, Distinct-apart e (a ∷ xs) [] h.2.1)) h.1)
move_to_front-ring w a [] e (y ∷ r) h = move_to_front-second w a e y r h.0 h.2.1 h.1
move_to_front-ring w a (x ∷ xs) e (y ∷ r) h =
    move_to_front-inner w a e (x ∷ xs) y r h.0
      (ground (arith, Distinct-apart e (a ∷ x ∷ xs) (y ∷ r) h.2.1)) h.2.1 h.1

move_to_front-Order :
    (w : World) (xs : List ℕ) (e : ℕ) (ys : List ℕ)
    → Order w (xs ++ e ∷ ys)
    → Order (move_to_front w e) (e ∷ xs ++ ys)
move_to_front-Order w [] e ys h = move_to_front-head w e ys h
move_to_front-Order w (a ∷ xs) e ys h =
    let ne : (w.active == e) ≡ false = ground (arith, Distinct-apart e (a ∷ xs) ys h.2.1) in
    let pointers = move_to_front-pointers w e ne in
    let before = elem-prev w.links a xs e (Chain-split w.links a xs e ys a h.1).0 in
    (
      pointers.0,
      move_to_front-ring w a xs e ys h,
      Distinct-front a xs e ys h.2,
      rw pointers.1 (ground (arith, counter-elem _ _ a xs e ys h.3 before)),
    )

-- `touch` brings the chunk's element to the head of the ring and keeps the order of the others, if
-- the element stands in the ring.
pub touch-Order :
    (w : World) (k : ℕ) (xs : List ℕ) (e : ℕ) (ys : List ℕ)
    → Order w (xs ++ e ∷ ys)
    → (w.chunks k).sched_buf ≡ e
    → Order (touch w k).0 (e ∷ xs ++ ys)
unfolding touch
touch-Order w k xs e ys h buf =
    rw buf (move_to_front-Order (touch_preemptive w k) xs e ys (touch_preemptive-Order w k _ h))
