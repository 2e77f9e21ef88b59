-- ===== src/Config/Priority.antt =====
-- Which setting of an option wins in `configReader` of src/configreader.cpp.
use rambrain_uwp.Prelude.{
  ℕ, zero, suc, ◌≡◌, ◌≢◌, ◌⊎◌, inl, inr, refl, Bool, true, false, not, List, [], ◌∷◌, ◌++◌, ◌&&◌,
  Option, none, some, ◌==◌, ltb, length, if◌then◌else◌, elem, elem-append, get_elem?, arith, ◌∙◌,
}
use rambrain_uwp.Config.{
  Text, ConfigLine, RegexMatcher, Reading, FileState, strip, before_comment, set_at, find_option,
  parse_option, parse_config_block, read_block, read_default, file_line, file_lines,
  parse_config_file, parse_files, codes,
}

if-either {ℓ κ} :
    {A : Type ℓ} (P : A → Type κ) (b : Bool) {x y : A} → P x → P y → P (if b then x else y)
if-either P true p q = p
if-either P false p q = q

if-each {ℓ κ} :
    {A : Type ℓ} (P : A → Type κ) (b : Bool) {x y : A}
    → (b ≡ true → P x)
    → (b ≡ false → P y)
    → P (if b then x else y)
if-each P true p q = p refl
if-each P false p q = q refl

elem-differs : (i j : ℕ) (xs : List ℕ) → elem i xs ≡ true → elem j xs ≡ false → i ≢ j
elem-differs i j [] h k = ground arith
elem-differs i j (x ∷ xs) h k = ground (arith, elem-differs i j xs)

-- The option `i` has been read in `r`, and is as it was.
pub record IsKept (i : ℕ) (os : List ConfigLine) (r : Reading) : Type 0 where
  pub is_read : elem i r.read_lines ≡ true
  pub value_kept : get_elem? r.options i ≡ get_elem? os i

-- The option `i` will not be set again in the file: it is in `readLines` and, if the file's own
-- block is still to come, in `thisReadLines`.
pub record IsSettled (i : ℕ) (os : List ConfigLine) (s : FileState) : Type 0 where
  pub is_read : elem i s.read_lines ≡ true
  pub is_known : (s.specific_done ≡ true) ⊎ (elem i s.this_read_lines ≡ true)
  pub value_kept : get_elem? s.options i ≡ get_elem? os i

module _ {Double : Type 0} (regex : RegexMatcher Double) where
  get_elem-set_at :
      (i j : ℕ) (v : Text) (os : List ConfigLine)
      → i ≢ j
      → get_elem? (set_at regex j v os) i ≡ get_elem? os i
  unfolding set_at
  get_elem-set_at i j v [] h = refl
  get_elem-set_at zero zero v (o ∷ os) h = absurd (h refl)
  get_elem-set_at zero (suc j) v (o ∷ os) h = refl
  get_elem-set_at (suc i) zero v (o ∷ os) h = refl
  get_elem-set_at (suc i) (suc j) v (o ∷ os) h = get_elem-set_at i j v os (λ e. h (ground arith))

  find_option-unread :
      (line v : Text) (i j : ℕ) (os : List ConfigLine) (done : List ℕ)
      → find_option regex line i os done ≡ some (j, v)
      → elem j done ≡ false
  unfolding find_option
  find_option-unread line v i j [] done h = ground arith
  find_option-unread line v i j (o ∷ os) done h =
      ground (arith, find_option-unread line v (suc i) j os done)

  parse_option-IsKept :
      (i : ℕ) (line : Text) (r : Reading)
      → elem i r.read_lines ≡ true
      → IsKept i r.options (parse_option regex line r)
  unfolding parse_option
  parse_option-IsKept i line r h = go (find_option regex line 0 r.options r.read_lines) refl
    where
      go :
          (o : Option (ℕ × Text))
          → find_option regex line 0 r.options r.read_lines ≡ o
          → IsKept i r.options (elim o [
            | none ↦ r
            | some (j, v) ↦ record {
              options = set_at regex j v r.options;
              read_lines = r.read_lines ++ j ∷ [];
            }
          ])
      go none e = record { is_read = h; value_kept = refl }
      go (some (j, v)) e =
          let unread = find_option-unread line v 0 j r.options r.read_lines e in
          record {
            is_read = elem-append i r.read_lines (j ∷ []) ∙ rw h refl;
            value_kept = get_elem-set_at i j v r.options (elem-differs i j r.read_lines h unread);
          }

  line-either :
      (P : Reading × Bool → Type 0) (t : Text) {stop skip next : Reading × Bool}
      → P stop
      → P skip
      → P next
      → P (elim t [
        | [] ↦ skip
        | c ∷ _ ↦ if c == b'[' then stop else if c == b'#' then skip else next
      ])
  line-either P [] p q n = q
  line-either P (c ∷ t) p q n = if-either P (c == b'[') p (if-either P (c == b'#') q n)

  -- `parseConfigBlock` leaves an option that has been read before as it is, and read.
  parse_config_block-IsKept :
      (i : ℕ) (ls : List Text) (r : Reading)
      → elem i r.read_lines ≡ true
      → IsKept i r.options (parse_config_block regex ls r).0
  unfolding parse_config_block
  parse_config_block-IsKept i [] r h = record { is_read = h; value_kept = refl }
  parse_config_block-IsKept i (l ∷ ls) r h =
      let first = parse_option-IsKept i (before_comment (strip l)) r h in
      let rest =
        parse_config_block-IsKept i ls (parse_option regex (before_comment (strip l)) r)
          first.is_read in
      line-either (λ x. IsKept i r.options x.0) (strip l)
        (record { is_read = h; value_kept = refl }) (parse_config_block-IsKept i ls r h)
        (record { is_read = rest.is_read; value_kept = rest.value_kept ∙ first.value_kept })

  read_block-IsSettled :
      (i : ℕ) (os : List ConfigLine) (ls : List Text) (s : FileState)
      → IsSettled i os s
      → IsSettled i os (read_block regex ls s).0
  unfolding read_block
  read_block-IsSettled i os ls s h =
      let kept =
        parse_config_block-IsKept i ls (record { options = s.options; read_lines = s.read_lines })
          h.is_read in
      record {
        is_read = kept.is_read;
        is_known = h.is_known;
        value_kept = kept.value_kept ∙ h.value_kept;
      }

  read_default-IsSettled :
      (i : ℕ) (os : List ConfigLine) (ls : List Text) (s : FileState)
      → IsSettled i os s
      → s.specific_done ≡ false
      → IsSettled i os (read_default regex ls s).0
  unfolding read_default
  read_default-IsSettled i os ls s h e =
      let known : elem i s.this_read_lines ≡ true = elim h.is_known [
        | inl d ↦ absurd (ground arith)
        | inr k ↦ k
      ] in
      let kept =
        parse_config_block-IsKept i ls
          (record { options = s.options; read_lines = s.this_read_lines }) known in
      record {
        is_read = h.is_read;
        is_known = inr kept.is_read;
        value_kept = kept.value_kept ∙ h.value_kept;
      }

  module _ (app_name : Text) where
    file_line-IsSettled :
        (i : ℕ) (os : List ConfigLine) (line : Text) (ls : List Text) (s : FileState)
        → IsSettled i os s
        → IsSettled i os (file_line regex app_name line ls s).0
    unfolding file_line
    file_line-IsSettled i os line ls s h =
        let P : FileState × Bool → Type 0 = λ x. IsSettled i os x.0 in
        let block = read_block-IsSettled i os ls s h in
        if-either P (regex.match_config_block line (codes "default"))
          (if-each (λ (x : FileState × Bool). IsSettled i os (record x.0 { default_done = true }))
            s.specific_done
            (λ d. record {
              is_read = block.is_read;
              is_known = block.is_known;
              value_kept = block.value_kept;
            })
            (λ d.
              let default = read_default-IsSettled i os ls s h d in
              record {
                is_read = default.is_read;
                is_known = default.is_known;
                value_kept = default.value_kept;
              }))
          (if-either P (not s.specific_done && regex.match_config_block line app_name)
            (record { is_read = block.is_read; is_known = inl refl; value_kept = block.value_kept })
            h)

    line-skip :
        (P : FileState → Type 0) (t : Text) {skip next : FileState}
        → P skip
        → P next
        → P (elim t [ [] ↦ skip | _ ∷ _ ↦ next ])
    line-skip P [] p q = p
    line-skip P (c ∷ t) p q = q

    -- The rest of a file does not change an option that is settled: one in `readLines` that is in
    -- `thisReadLines` too or stands there when the program's own block is done.
    file_lines-IsSettled :
        (i : ℕ) (os : List ConfigLine) (ls : List Text) (s : FileState)
        → IsSettled i os s
        → IsSettled i os (file_lines regex app_name ls s)
    unfolding file_lines
    file_lines-IsSettled i os [] s h = h
    file_lines-IsSettled i os (l ∷ ls) s h =
        let P : FileState → Type 0 = IsSettled i os in
        let (t, more) = file_line regex app_name (strip l) ls s in
        let step = file_line-IsSettled i os (strip l) ls s h in
        if-either P (s.default_done && s.specific_done) h (
          line-skip P (strip l) (file_lines-IsSettled i os ls s h)
            (if-either P more (file_lines-IsSettled i os ls t step) step))

    module _ (unique : List ℕ → List ℕ)
        (unique-elem : (i : ℕ) (xs : List ℕ) → elem i xs ≡ true → elem i (unique xs) ≡ true) where
      parse_config_file-IsKept :
          (i : ℕ) (ls : List Text) (r : Reading)
          → elem i r.read_lines ≡ true
          → IsKept i r.options (parse_config_file regex app_name unique ls r)
      unfolding parse_config_file
      parse_config_file-IsKept i ls r h =
          let start : FileState = record {
            options = r.options;
            read_lines = r.read_lines;
            this_read_lines = r.read_lines;
            default_done = false;
            specific_done = false;
          } in
          let s = file_lines regex app_name ls start in
          let settled =
            file_lines-IsSettled i r.options ls start
              (record { is_read = h; is_known = inr h; value_kept = refl }) in
          record {
            is_read =
                if-either (λ x. elem i x ≡ true) s.default_done
                  (unique-elem i (s.read_lines ++ s.this_read_lines)
                    (elem-append i s.read_lines s.this_read_lines ∙ rw settled.is_read refl))
                  settled.is_read;
            value_kept = settled.value_kept;
          }

      -- An option that has been read keeps its value through any further files, open or not, and stays
      -- read, if `std::unique` keeps the members of the list.
      pub parse_files-IsKept :
          (i : ℕ) (fs : List (Option (List Text))) (r : Reading)
          → elem i r.read_lines ≡ true
          → IsKept i r.options (parse_files regex app_name unique fs r)
      unfolding parse_files
      parse_files-IsKept i [] r h = record { is_read = h; value_kept = refl }
      parse_files-IsKept i (none ∷ fs) r h = parse_files-IsKept i fs r h
      parse_files-IsKept i (some f ∷ fs) r h =
          let t =
            if ltb (length r.read_lines) (length r.options)
            then parse_config_file regex app_name unique f r
            else r in
          let first : IsKept i r.options t =
            if-either (IsKept i r.options) (ltb (length r.read_lines) (length r.options))
              (parse_config_file-IsKept i f r h) (record { is_read = h; value_kept = refl }) in
          let rest = parse_files-IsKept i fs t first.is_read in
          record { is_read = rest.is_read; value_kept = rest.value_kept ∙ first.value_kept }
