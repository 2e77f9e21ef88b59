-- ===== src/Cycle/Filter/Loop.antt =====
-- The loop of `filterChain` in src/cyclicManagedMemory.cpp, over the ring that the local variable `end`
-- closes: it comes to `end` with the kept elements in the ring and the others separated, in order.
use rambrain_uwp.Prelude.{
  ℕ, zero, suc, ◌+◌, ◌≤◌, ◌≡◌, ◌⊎◌, inl, inr, refl, sym, ap, subst, ◌∙◌, Bool, true, false, List,
  [], ◌∷◌, ◌++◌, Option, some, arith, ◌==◌, if◌then◌else◌, Bool-cases, length,
}
use mathlib.Core.List.{append-nil, append_assoc}
use rambrain_uwp.Links.{Links, Chain, Chain-append}
use rambrain_uwp.Links.Runs.{count, count-append, first_of, last-append}
use rambrain_uwp.Cycle.Filter.{
  FilterState, close_area, close_pending, mark_valid, filter_step, filter_loop,
}
use rambrain_uwp.Cycle.Filter.Close.{
  kept, chosen, IsAt, IsPending, total, close_area-IsAt, close_area-rest,
}

-- Nothing is pending, and `c` is not separated.
mark_valid-IsAt :
    (e c d : ℕ) (os ks ss : List ℕ) (s : FilterState)
    → IsAt e os ks ss [] c s
    → ((q : ℕ) → total q e os ks ss [] ≤ 1)
    → Chain s.links c [] d
    → IsAt e os (ks ++ c ∷ []) ss [] d (mark_valid c s)
unfolding mark_valid
mark_valid-IsAt e c d os ks ss s at once h = record {
  outer = at.outer;
  ring = Chain-append s.links e ks c [] d at.ring h;
  pending = at.pending;
  piece = at.piece;
  first = head ks at.first once;
  last = sym (last-append 0 ks c []);
}
  where
    head :
        (ls : List ℕ)
        → s.first_valid ≡ first_of 0 ls
        → ((q : ℕ) → total q e os ls ss [] ≤ 1)
        → (if s.first_valid == 0 then c else s.first_valid) ≡ first_of 0 (ls ++ c ∷ [])
    head [] f o = ground arith
    head (zero ∷ ls) f o = absurd (ground (arith, o 0))
    head (suc k ∷ ls) f o = ground arith

mark_close :
    (c : ℕ) (s : FilterState) → close_pending c (mark_valid c s) ≡ mark_valid c (close_pending c s)
unfolding close_pending close_area mark_valid
mark_close c s = ground arith

close_pending-idle : (c : ℕ) (s : FilterState) → s.sepa_start ≡ 0 → close_pending c s ≡ s
unfolding close_pending
close_pending-idle c s z = ground arith

close_pending-busy :
    (c p : ℕ) (s : FilterState) → s.sepa_start ≡ suc p → close_pending c s ≡ close_area c s
unfolding close_pending
close_pending-busy c p s z = ground arith

-- What was pending is closed.
pub close_pending-IsAt :
    (e c : ℕ) (os ks ss ps : List ℕ) (s : FilterState)
    → IsAt e os ks ss ps c s
    → ((q : ℕ) → total q e os ks ss ps ≤ 1)
    → (c ≡ e) ⊎ (total c e os ks ss ps ≡ 0)
    → IsAt e os ks (ss ++ ps) [] c (close_pending c s)
close_pending-IsAt e c os ks ss [] s at once apart =
    rw (close_pending-idle c s at.pending, append-nil) at
close_pending-IsAt e c os ks ss (zero ∷ ps) s at once apart = absurd (ground (arith, once 0))
close_pending-IsAt e c os ks ss (suc p ∷ ps) s at once apart =
    rw (close_pending-busy c p s at.pending.0)
      (close_area-IsAt e c os ks ss (suc p) ps s at once apart)

close_pending-rest :
    (e c : ℕ) (os ks ss ps r : List ℕ) (s : FilterState)
    → IsAt e os ks ss ps c s
    → ((q : ℕ) → total q e os ks ss ps + count q (c ∷ r) ≤ 1)
    → Chain s.links c r e
    → Chain (close_pending c s).links c r e
close_pending-rest e c os ks ss [] r s at once h = rw (close_pending-idle c s at.pending) h
close_pending-rest e c os ks ss (zero ∷ ps) r s at once h = absurd (ground (arith, once 0))
close_pending-rest e c os ks ss (suc p ∷ ps) r s at once h =
    rw (close_pending-busy c p s at.pending.0)
      (close_area-rest e c os ks ss (suc p) ps r s at once h)

-- One element: the loop goes on to the next of `r`, or to `e`.
record Stepped (separate : ℕ → Bool) (e c : ℕ) (os ks ss ps r : List ℕ) (t : FilterState)
    : Type 0 where
  ks' : List ℕ
  ss' : List ℕ
  ps' : List ℕ
  at : IsAt e os ks' ss' ps' (first_of e r) t
  keeps : ks' ++ kept separate r ≡ ks ++ kept separate (c ∷ r)
  order : (ss' ++ ps') ++ chosen separate r ≡ (ss ++ ps) ++ chosen separate (c ∷ r)
  once : (q : ℕ) → total q e os ks' ss' ps' + count q r ≤ 1
  rest : Chain t.links c r e

-- The loop ended.
pub record Finished (separate : ℕ → Bool) (e : ℕ) (os ks : List ℕ) (ss : List ℕ)
    (result : Option FilterState) : Type 0 where
  pub state : FilterState
  pub ss' : List ℕ
  pub ps' : List ℕ
  pub runs : result ≡ some state
  pub at : IsAt e os ks ss' ps' e state
  pub order : ss' ++ ps' ≡ ss
  pub once : (q : ℕ) → total q e os ks ss' ps' ≤ 1

next-Chain : (m : Links) (e c : ℕ) (r : List ℕ) → Chain m c r e → Chain m c [] (first_of e r)
next-Chain m e c [] h = h
next-Chain m e c (x ∷ r) h = (h.0, h.1)

module _ (separate : ℕ → Bool) (e : ℕ) (os : List ℕ) where
  mark_valid-IsPending :
      (c d : ℕ) (ps : List ℕ) (s : FilterState)
      → IsPending s.links s.sepa_start ps c
      → Chain s.links c [] d
      → count 0 ps ≡ 0
      → IsPending s.links (if s.sepa_start == 0 then c else s.sepa_start) (ps ++ c ∷ []) d
  mark_valid-IsPending c d [] s h n z = (ground arith, n)
  mark_valid-IsPending c d (zero ∷ ps) s h n z = absurd (ground arith)
  mark_valid-IsPending c d (suc p ∷ ps) s h n z =
      (ground arith, Chain-append s.links (suc p) ps c [] d h.1 n)

  first-append : (c : ℕ) (ps : List ℕ) (d : ℕ) → first_of c ps ≡ first_of d (ps ++ c ∷ [])
  first-append c [] d = refl
  first-append c (p ∷ ps) d = refl

  kept-kept :
      (c : ℕ) (ks r : List ℕ)
      → separate c ≡ false
      → (ks ++ c ∷ []) ++ kept separate r ≡ ks ++ kept separate (c ∷ r)
  kept-kept c ks r keep = rw keep (append_assoc ks (c ∷ []) (kept separate r))

  chosen-kept :
      (c : ℕ) (ss ps r : List ℕ)
      → separate c ≡ false
      → ((ss ++ ps) ++ []) ++ chosen separate r ≡ (ss ++ ps) ++ chosen separate (c ∷ r)
  chosen-kept c ss ps r keep = rw (keep, append-nil) refl

  chosen-chosen :
      (c : ℕ) (ss ps r : List ℕ)
      → separate c ≡ true
      → (ss ++ (ps ++ c ∷ [])) ++ chosen separate r ≡ (ss ++ ps) ++ chosen separate (c ∷ r)
  chosen-chosen c ss ps r chose = rw chose (
      ap (λ l. l ++ chosen separate r) (sym (append_assoc ss ps (c ∷ [])))
      ∙ append_assoc (ss ++ ps) (c ∷ []) (chosen separate r))

  filter_step-chosen :
      (c : ℕ) (ks ss ps r : List ℕ) (s : FilterState)
      → separate c ≡ true
      → IsAt e os ks ss ps c s
      → ((q : ℕ) → total q e os ks ss ps + count q (c ∷ r) ≤ 1)
      → Chain s.links c r e
      → Stepped separate e c os ks ss ps r (filter_step separate e c s)
  unfolding filter_step
  filter_step-chosen c ks ss ps r s chose at once h = rw chose (record {
    ks' = ks;
    ss' = ss;
    ps' = ps ++ c ∷ [];
    at = record {
      outer = at.outer;
      ring = subst (λ x. Chain s.links e ks x) (first-append c ps (first_of e r)) at.ring;
      pending =
          mark_valid-IsPending c (first_of e r) ps s at.pending (next-Chain s.links e c r h)
            (ground (arith, once 0));
      piece = at.piece;
      first = at.first;
      last = at.last;
    };
    keeps = rw chose refl;
    order = chosen-chosen c ss ps r chose;
    once = λ q. omega (arith, once q, count-append q ps (c ∷ []));
    rest = h;
  })

  filter_step-kept :
      (c : ℕ) (ks ss ps r : List ℕ) (s : FilterState)
      → separate c ≡ false
      → IsAt e os ks ss ps c s
      → ((q : ℕ) → total q e os ks ss ps + count q (c ∷ r) ≤ 1)
      → Chain s.links c r e
      → Stepped separate e c os ks ss ps r (filter_step separate e c s)
  unfolding filter_step mark_valid
  filter_step-kept c ks ss ps r s keep at once h =
      let here : (q : ℕ) → total q e os ks ss ps ≤ 1 = λ q. omega (arith, once q) in
      let closed = close_pending-IsAt e c os ks ss ps s at here (inr (ground (arith, once c))) in
      let linked = close_pending-rest e c os ks ss ps r s at once h in
      let now : (q : ℕ) → total q e os ks (ss ++ ps) [] ≤ 1 =
        λ q. omega (arith, here q, count-append q ss ps) in
      rw (keep, mark_close c s)
        (record {
          ks' = ks ++ c ∷ [];
          ss' = ss ++ ps;
          ps' = [];
          at =
              mark_valid-IsAt e c (first_of e r) os ks (ss ++ ps) (close_pending c s) closed now
                (next-Chain (close_pending c s).links e c r linked);
          keeps = kept-kept c ks r keep;
          order = chosen-kept c ss ps r keep;
          once = λ q. omega (arith, once q, count-append q ss ps, count-append q ks (c ∷ []));
          rest = linked;
        })

  filter_step_lem :
      (c : ℕ) (ks ss ps r : List ℕ) (s : FilterState)
      → IsAt e os ks ss ps c s
      → ((q : ℕ) → total q e os ks ss ps + count q (c ∷ r) ≤ 1)
      → Chain s.links c r e
      → Stepped separate e c os ks ss ps r (filter_step separate e c s)
  filter_step_lem c ks ss ps r s at once h = elim (Bool-cases (separate c)) [
    | inl chose ↦ filter_step-chosen c ks ss ps r s chose at once h
    | inr keep ↦ filter_step-kept c ks ss ps r s keep at once h
  ]

  filter_loop-last :
      (f c : ℕ) (s : FilterState)
      → (filter_step separate e c s).links.next c ≡ e
      → filter_loop separate e (suc f) c s ≡ some (filter_step separate e c s)
  unfolding filter_loop
  filter_loop-last f c s h = ground arith

  filter_loop-more :
      (f c d : ℕ) (s : FilterState)
      → (filter_step separate e c s).links.next c ≡ d
      → (d == e) ≡ false
      → filter_loop separate e (suc f) c s ≡ filter_loop separate e f d (filter_step separate e c s)
  unfolding filter_loop
  filter_loop-more f c d s h n = rw (h, n) refl

  pub filter_loop_lem :
      (f c : ℕ) (r ks ss ps : List ℕ) (s : FilterState)
      → length r ≤ f
      → IsAt e os ks ss ps c s
      → ((q : ℕ) → total q e os ks ss ps + count q (c ∷ r) ≤ 1)
      → Chain s.links c r e
      → Finished separate e os
          (ks ++ kept separate (c ∷ r))
          ((ss ++ ps) ++ chosen separate (c ∷ r))
          (filter_loop separate e (suc f) c s)
  filter_loop_lem f c [] ks ss ps s enough at once h =
      let d = filter_step_lem c ks ss ps [] s at once h in
      let all = sym (append-nil d.ks') ∙ d.keeps in
      record {
        state = filter_step separate e c s;
        ss' = d.ss';
        ps' = d.ps';
        runs = filter_loop-last f c s d.rest.0;
        at = subst (λ l. IsAt e os l d.ss' d.ps' e (filter_step separate e c s)) all d.at;
        order = sym (append-nil (d.ss' ++ d.ps')) ∙ d.order;
        once = λ q. subst (λ l. total q e os l d.ss' d.ps' ≤ 1) all (omega (arith, d.once q));
      }
  filter_loop_lem zero c (x ∷ r) ks ss ps s enough at once h = elim enough [ ]
  filter_loop_lem (suc f) c (x ∷ r) ks ss ps s enough at once h =
      let d = filter_step_lem c ks ss ps (x ∷ r) s at once h in
      rw
        (filter_loop-more (suc f) c x s d.rest.0 (ground (arith, once e)), sym d.keeps, sym d.order)
        (filter_loop_lem f x r d.ks' d.ss' d.ps' (filter_step separate e c s) (ground arith) d.at
          d.once d.rest.2)
