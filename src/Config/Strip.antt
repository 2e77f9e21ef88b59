-- ===== src/Config/Strip.antt =====
-- `stripLeadingTrailingWhitespace` of src/configreader.cpp.
use rambrain_uwp.Prelude.{
  ℕ, suc, ◌+◌, ◌-◌, ◌≡◌, ◌<◌, refl, true, false, [], ◌∷◌, ◌++◌, none, some, take, drop, length, All,
  arith, ap, ◌∙◌,
}
use rambrain_uwp.Config.{Text, is_white, first_not_white, last_not_white, strip}

abbrev pub AllWhite : Text → Type 0
AllWhite = All (λ c. is_white c ≡ true)

first_not_white-append :
    (p s : Text) (c : ℕ)
    → AllWhite p
    → is_white c ≡ false
    → first_not_white (p ++ c ∷ s) ≡ some (length p)
unfolding first_not_white
first_not_white-append [] s c a h = ground arith
first_not_white-append (d ∷ p) s c a h = ground (arith, first_not_white-append p s c a.1 h)

last_not_white-white : (q : Text) → AllWhite q → last_not_white q ≡ none
unfolding last_not_white
last_not_white-white [] a = refl
last_not_white-white (c ∷ q) a = ground (arith, last_not_white-white q a.1)

last_not_white-append :
    (p s : Text) (k : ℕ) → last_not_white s ≡ some k → last_not_white (p ++ s) ≡ some (length p + k)
unfolding last_not_white
last_not_white-append [] s k h = h ∙ ap some (omega arith)
last_not_white-append (d ∷ p) s k h = ground (arith, last_not_white-append p s k h)

last_not_white-end :
    (q : Text) (c : ℕ) → AllWhite q → is_white c ≡ false → last_not_white (c ∷ q) ≡ some 0
unfolding last_not_white
last_not_white-end q c a h = ground (arith, last_not_white-white q a)

strip-far :
    (s : Text) (i j : ℕ)
    → first_not_white s ≡ some i
    → last_not_white s ≡ some j
    → i < j
    → strip s ≡ take (j - i + 1) (drop i s)
unfolding strip
strip-far s i j h k lt = ground arith

strip-near :
    (s : Text) (i j : ℕ)
    → first_not_white s ≡ some i
    → last_not_white s ≡ some j
    → i ≡ j
    → strip s ≡ s
unfolding strip
strip-near s i j h k e = ground arith

drop-append : (p s : Text) → drop (length p) (p ++ s) ≡ s
drop-append [] s = refl
drop-append (c ∷ p) s = drop-append p s

take-append : (m q : Text) (d : ℕ) → take (suc (length m)) (m ++ d ∷ q) ≡ m ++ d ∷ []
take-append [] q d = refl
take-append (c ∷ m) q d = ap (◌∷◌ c) (take-append m q d)

-- If a text has at least two characters that are not white, all white space before the first and
-- behind the last of them is removed, and nothing else.
pub strip-around :
    (p m q : Text) (c d : ℕ)
    → AllWhite p
    → is_white c ≡ false
    → is_white d ≡ false
    → AllWhite q
    → strip (p ++ c ∷ (m ++ d ∷ q)) ≡ c ∷ (m ++ d ∷ [])
strip-around p m q c d wp hc hd wq =
    let n = length p in
    let k = length m in
    let inner = last_not_white-append (c ∷ m) (d ∷ q) 0 (last_not_white-end q d wq hd) in
    let last = last_not_white-append p (c ∷ (m ++ d ∷ q)) (suc k + 0) inner in
    let count : n + (suc k + 0) - n + 1 ≡ suc (suc k) = omega arith in
    strip-far (p ++ c ∷ (m ++ d ∷ q)) n (n + (suc k + 0))
      (first_not_white-append p (m ++ d ∷ q) c wp hc) last (omega arith)
    ∙ rw (drop-append p (c ∷ (m ++ d ∷ q)), count) (ap (◌∷◌ c) (take-append m q d))

-- A text with a single character that is not white keeps the white space around it.
strip-single :
    (p q : Text) (c : ℕ)
    → AllWhite p
    → is_white c ≡ false
    → AllWhite q
    → strip (p ++ c ∷ q) ≡ p ++ c ∷ q
strip-single p q c wp hc wq =
    strip-near (p ++ c ∷ q) (length p) (length p + 0) (first_not_white-append p q c wp hc)
      (last_not_white-append p (c ∷ q) 0 (last_not_white-end q c wq hc)) (omega arith)
