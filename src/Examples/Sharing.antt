-- ===== src/Examples/Sharing.antt =====
-- Two pointers of src/genericManagedPtr.cpp on one chunk.
use rambrain_uwp.Prelude.{ℕ, ◌≡◌, refl, inl, inr, [], ◌∷◌, none, ◌==◌, arith, if◌then◌else◌}
use rambrain_uwp.Pointer.{Pointer, Trackers, create, copy, release}
use rambrain_uwp.Pointer.Counted.{IsCounted, release-empty, copy-IsCounted}
use rambrain_uwp.Pointer.Lives.{Pointers, created, copied, Reach, here, next, IsSafe, Reach-IsSafe}

abbrev first : Pointer
first = record { chunk = 5; tracker = 9; n_elem = 2; s_size = 8 }

abbrev counts_to : ℕ → Trackers
counts_to n = record { count = λ t. if t == 9 then n else 0; freed = []; deleted = [] }

abbrev shared : Trackers
shared = counts_to 2

abbrev alone : Trackers
alone = counts_to 1

two-IsCounted : IsCounted (first ∷ first ∷ []) shared
two-IsCounted = record { counts = λ t. ground arith; alive = λ t. inr refl; few = omega arith }

one-IsCounted : IsCounted (first ∷ []) alone
one-IsCounted = record { counts = λ t. ground arith; alive = λ t. inr refl; few = omega arith }

copy-IsCounted_example : IsCounted ((copy first alone).0 ∷ first ∷ []) (copy first alone).1
copy-IsCounted_example = copy-IsCounted [] first [] alone one-IsCounted (omega arith)

release-empty_example : let (p, u) = create 8 0 9 5 alone in release p u ≡ none
release-empty_example = release-empty 8 9 5 alone (omega arith)

abbrev nothing : Pointers
nothing = record { live = []; trackers = counts_to 0 }

nothing-IsSafe : IsSafe nothing
nothing-IsSafe = record {
  counted = record { counts = λ t. inl refl; alive = λ t. inl refl; few = omega arith };
  owner = λ c. 0;
  lives = tt;
}

-- A pointer to 2 elements of 8 bytes, then a copy of it.
abbrev one : Pointers
one = record {
  live = (create 8 2 9 5 (counts_to 0)).0 ∷ [];
  trackers = (create 8 2 9 5 (counts_to 0)).1;
}

abbrev two : Pointers
two = record { live = first ∷ first ∷ []; trackers = (copy first one.trackers).1 }

run : Reach nothing two
unfolding create copy
run =
    next
      (next here (
        created [] (counts_to 0) 8 2 9 5 (omega arith) (omega arith) (ground arith) refl refl tt
          refl (omega arith)))
      (copied [] first [] one.trackers (omega arith))

Reach-IsSafe_example : IsSafe two
Reach-IsSafe_example = Reach-IsSafe nothing-IsSafe run
