-- ===== src/Config.antt =====
-- src/configreader.h and .cpp: the options, their values, and the reader of the configuration
-- files. A text is the list of its character codes, a file the list of its lines, each ended by a
-- newline; a `configLineBase *` is the option's index in `configOptions`. `regexMatcher` is an
-- interface, as its functions do no more than run `std::regex`; so is `std::unique`.
pub mod Priority
pub mod Strip
use Prim.Native.Char.{code}
use Prim.Native.String.{String}
use rambrain_uwp.Prelude.{
  ℕ, zero, suc, ◌+◌, ◌-◌, ◌*◌, ◌%◌, Bool, true, false, ◌&&◌, ◌||◌, not, List, [], ◌∷◌, ◌++◌, Option,
  none, some, ◌==◌, ltb, if◌then◌else◌, bit_and, take, drop, length, elem, get_elem?, u64_mod,
}

abbrev pub Text : Type 0
Text = List ℕ

abbrev pub codes : String → Text
codes String.[] = []
codes (String.◌∷◌ c s) = code c ∷ codes s

abbrev pub same : Text → Text → Bool
same [] [] = true
same [] (_ ∷ _) = false
same (_ ∷ _) [] = false
same (c ∷ s) (d ∷ t) = (c == d) && same s t

-- `enum class swapPolicy`.
pub data SwapPolicy : Type 0 where
  fixed autoextendable interactive : SwapPolicy

-- The `value` of a `configLine<T>`.
pub data Value : Type 0 where
  words : Text → Value
  bytes : ℕ → Value
  flag : Bool → Value
  policy : SwapPolicy → Value

pub record ConfigLine : Type 0 where
  pub name : Text
  pub match_type : ℕ
  pub value : Value

-- `enum matchType`.
abbrev floating : ℕ
floating = 2

abbrev units : ℕ
units = 4

-- `regexMatcher`, and the conversions of the C library; `Double` is `double`, and an integer is
-- taken modulo 2 ^ 64.
pub record RegexMatcher (Double : Type 0) : Type 0 where
  pub match_config_block : (str blockname : Text) → Bool
  pub match_key_equals_value : (str key : Text) → (value_type : ℕ) → Text × Text
  pub split_double_value_unit : Text → Double × Text
  pub split_integer_value_unit : Text → ℕ × Text
  pub substitute_home_dir : (source homedir : Text) → Text
  pub times_double : ℕ → Double → ℕ
  pub atoll : Text → ℕ

-- The factor that `configLine<global_bytesize>::setValue` takes for a unit.
unfoldable pub unit_bytes : Text → ℕ
unit_bytes u =
    if same u (codes "b") || same u (codes "B")
    then 1
    else if same u (codes "kb") || same u (codes "kB") || same u (codes "Kb") || same u (codes "KB")
    then 1024
    else if same u (codes "mb") || same u (codes "Mb") || same u (codes "MB")
    then 1024 * 1024
    else if same u (codes "gb") || same u (codes "Gb") || same u (codes "GB")
    then 1024 * 1024 * 1024
    else 1

-- `configLine<bool>::setValue`.
unfoldable pub bool_value : Text → Bool
bool_value s = not (
    same s (codes "false")
    || same s (codes "False")
    || same s (codes "FALSE")
    || same s (codes "0"))

-- `configLine<swapPolicy>::setValue`.
unfoldable pub policy_value : Text → SwapPolicy
policy_value s =
    if same s (codes "fixed")
    then fixed
    else if same s (codes "autoextendable")
    then autoextendable
    else if same s (codes "interactive")
    then interactive
    else autoextendable

unfoldable pub is_white : ℕ → Bool
is_white c = elem c (32 ∷ 9 ∷ 11 ∷ 13 ∷ 10 ∷ [])

-- `find_first_not_of` and `find_last_not_of`; `none` is `npos`.
unfoldable pub first_not_white : Text → Option ℕ
unfolding is_white
first_not_white [] = none
first_not_white (c ∷ s) =
    if is_white c
    then (elim (first_not_white s) [ none ↦ none | some i ↦ some (suc i) ])
    else some 0

unfoldable pub last_not_white : Text → Option ℕ
unfolding is_white
last_not_white [] = none
last_not_white (c ∷ s) = elim (last_not_white s) [
  | some i ↦ some (suc i)
  | none ↦ if is_white c then none else some 0
]

-- `stripLeadingTrailingWhitespace`; `start` and `end` are equal as well where both are `npos`.
unfoldable pub strip : Text → Text
strip s = elim (first_not_white s) [
  | none ↦ s
  | some i ↦ elim (last_not_white s) [
    | none ↦ s
    | some j ↦ if i == j then s else take (j - i + 1) (drop i s)
  ]
]

-- The line up to a comment sign.
unfoldable pub before_comment : Text → Text
before_comment [] = []
before_comment (c ∷ s) = if c == b'#' then [] else c ∷ before_comment s

-- The configuration, with the indices of the options that have been read.
pub record Reading : Type 0 where
  pub options : List ConfigLine
  pub read_lines : List ℕ

-- The variables of `parseConfigFile`.
pub record FileState : Type 0 where
  pub options : List ConfigLine
  pub read_lines : List ℕ
  pub this_read_lines : List ℕ
  pub default_done : Bool
  pub specific_done : Bool

-- What `reopenStreams` returns.
unfoldable pub any_open : List (Option (List Text)) → Bool
any_open [] = false
any_open (none ∷ fs) = any_open fs
any_open (some f ∷ fs) = true

module _ {Double : Type 0} (regex : RegexMatcher Double) where
  -- `configLine<global_bytesize>::setValue`.
  unfoldable pub bytes_value : (match_type : ℕ) → Text → ℕ
  unfolding unit_bytes
  bytes_value t s =
      if bit_and t units == 0
      then regex.atoll s
      else if bit_and t floating == 0
      then (let (n, u) = regex.split_integer_value_unit s in (unit_bytes u * n) % u64_mod)
      else (let (d, u) = regex.split_double_value_unit s in regex.times_double (unit_bytes u) d)

  unfoldable pub set_value : Text → ConfigLine → ConfigLine
  set_value s l = elim l.value [
    | words t ↦ record l { value = words s }
    | bytes n ↦ record l { value = bytes (bytes_value l.match_type s) }
    | flag b ↦ record l { value = flag (bool_value s) }
    | policy p ↦ record l { value = policy (policy_value s) }
  ]

  unfoldable pub set_at : ℕ → Text → List ConfigLine → List ConfigLine
  set_at i s [] = []
  set_at zero s (l ∷ ls) = set_value s l ∷ ls
  set_at (suc i) s (l ∷ ls) = l ∷ set_at i s ls

  -- The loop over `configOptions`: the first option from the index `i` on that the line matches and
  -- that has not been read yet, and its value.
  unfoldable pub find_option : (line : Text) → ℕ → List ConfigLine → List ℕ → Option (ℕ × Text)
  find_option line i [] done = none
  find_option line i (l ∷ ls) done =
      let (key, value) = regex.match_key_equals_value line l.name l.match_type in
      if same key l.name && not (elem i done)
      then some (i, value)
      else find_option line (suc i) ls done

  unfoldable pub parse_option : (line : Text) → Reading → Reading
  parse_option line r = elim (find_option line 0 r.options r.read_lines) [
    | none ↦ r
    | some (i, v) ↦ record { options = set_at i v r.options; read_lines = r.read_lines ++ i ∷ [] }
  ]

  -- `parseConfigBlock`; the flag says that it stopped at the next block, not at the end of the file.
  unfoldable pub parse_config_block : List Text → Reading → Reading × Bool
  parse_config_block [] r = (r, false)
  parse_config_block (l ∷ ls) r =
      let line = strip l in
      let skip = parse_config_block ls r in
      let next = parse_config_block ls (parse_option (before_comment line) r) in
      elim line [
        | [] ↦ skip
        | c ∷ _ ↦ if c == b'[' then (r, true) else if c == b'#' then skip else next
      ]

  -- A block that fills `readLines`, and one that fills `thisReadLines`.
  unfoldable pub read_block : List Text → FileState → FileState × Bool
  read_block ls s =
      let (r, more) =
        parse_config_block ls (record { options = s.options; read_lines = s.read_lines }) in
      (record s { options = r.options; read_lines = r.read_lines }, more)

  unfoldable pub read_default : List Text → FileState → FileState × Bool
  read_default ls s =
      let (r, more) =
        parse_config_block ls (record { options = s.options; read_lines = s.this_read_lines }) in
      (record s { options = r.options; this_read_lines = r.read_lines }, more)

  module _ (app_name : Text) where
    -- One line of the loop, with the lines that follow; the flag says that the stream is still good.
    unfoldable pub file_line : (line : Text) → List Text → FileState → FileState × Bool
    file_line line ls s =
        if regex.match_config_block line (codes "default")
        then (let (t, more) = if s.specific_done then read_block ls s else read_default ls s in
            (record t { default_done = true }, more))
        else if not s.specific_done && regex.match_config_block line app_name
        then (let (t, more) = read_block ls s in (record t { specific_done = true }, more))
        else (s, true)

    -- The loop. A block that has reached the end leaves the stream failed.
    unfoldable pub file_lines : List Text → FileState → FileState
    file_lines [] s = s
    file_lines (l ∷ ls) s =
        let line = strip l in
        let (t, more) = file_line line ls s in
        let skip = file_lines ls s in
        let next = file_lines ls t in
        if s.default_done && s.specific_done
        then s
        else elim line [ [] ↦ skip | _ ∷ _ ↦ if more then next else t ]

    module _ (unique : List ℕ → List ℕ) where
      -- `parseConfigFile`, whose result is always true.
      unfoldable pub parse_config_file : List Text → Reading → Reading
      parse_config_file ls r =
          let s = file_lines ls (record {
            options = r.options;
            read_lines = r.read_lines;
            this_read_lines = r.read_lines;
            default_done = false;
            specific_done = false;
          }) in
          record {
            options = s.options;
            read_lines =
                if s.default_done then unique (s.read_lines ++ s.this_read_lines) else s.read_lines;
          }

      -- The loop of `readConfig` over the streams, `none` where the file is not open.
      unfoldable pub parse_files : List (Option (List Text)) → Reading → Reading
      parse_files [] r = r
      parse_files (none ∷ fs) r = parse_files fs r
      parse_files (some f ∷ fs) r =
          parse_files fs
            (if ltb (length r.read_lines) (length r.options) then parse_config_file f r else r)

      -- `readConfig` on the three streams, given the home directory; `swapfiles` is the option 2.
      unfoldable pub read_config :
          List (Option (List Text)) → (homedir : Text) → List ConfigLine → List ConfigLine × Bool
      read_config fs home os =
          if any_open fs
          then (let r = parse_files fs (record { options = os; read_lines = [] }) in
              elim (get_elem? r.options 2) [
                | none ↦ (r.options, true)
                | some l ↦ elim l.value [
                  | words t ↦ (set_at 2 (regex.substitute_home_dir t home) r.options, true)
                  | _ ↦ (r.options, true)
                ]
              ])
          else (os, false)
