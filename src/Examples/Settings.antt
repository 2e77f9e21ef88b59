-- ===== src/Examples/Settings.antt =====
-- Runs of the reader of src/configreader.cpp.
use rambrain_uwp.Prelude.{ℕ, false, ◌==◌, ◌≡◌, ◌++◌, refl, none, some, List, [], ◌∷◌, if◌then◌else◌}
use rambrain_uwp.Config.{
  Text, codes, same, ConfigLine, RegexMatcher, Reading, FileState, words, flag, strip, is_white,
  parse_config_block, parse_files, parse_option, find_option, first_not_white, last_not_white,
  before_comment, set_at, set_value, bool_value,
}
use rambrain_uwp.Config.Priority.{IsKept, parse_files-IsKept}
use rambrain_uwp.Config.Strip.{AllWhite, strip-around}

abbrev after_sign : (key line : Text) → Text × Text
after_sign key [] = ([], [])
after_sign key (c ∷ value) = if c == b'=' then (key, value) else ([], [])

abbrev from_key : (whole key line : Text) → Text × Text
from_key whole [] line = after_sign whole line
from_key whole (c ∷ key) [] = ([], [])
from_key whole (c ∷ key) (d ∷ line) = if c == d then from_key whole key line else ([], [])

-- A matcher of lines `[block]` and `key=value`.
abbrev matcher : RegexMatcher ℕ
matcher = record {
  match_config_block = λ str block. same str (91 ∷ block ++ 93 ∷ []);
  match_key_equals_value = λ str key t. from_key key key str;
  split_double_value_unit = λ s. (1, s);
  split_integer_value_unit = λ s. (1, s);
  substitute_home_dir = λ source home. source;
  times_double = λ n d. n;
  atoll = λ s. 1;
}

abbrev options : List ConfigLine
options =
    record { name = codes "swap"; match_type = 8; value = words (codes "file") }
    ∷ record { name = codes "enableDMA"; match_type = 33; value = flag false }
    ∷ []

abbrev reading : Reading
reading = record { options = options; read_lines = 0 ∷ [] }

abbrev block : List Text
block = codes "swap=dummy" ∷ codes "enableDMA=true" ∷ []

abbrev state : FileState
state = record {
  options = options;
  read_lines = 0 ∷ [];
  this_read_lines = 0 ∷ [];
  default_done = false;
  specific_done = false;
}

second_read : (parse_config_block matcher block reading).0.read_lines ≡ 0 ∷ 1 ∷ []
unfolding parse_config_block parse_option find_option strip first_not_white last_not_white
    before_comment set_at set_value is_white bool_value
second_read = refl

parse_files-IsKept_example : IsKept 0 options (
    parse_files matcher (codes "app") (λ xs. xs) (none ∷ some (codes "[app]" ∷ block) ∷ []) reading)
parse_files-IsKept_example =
    parse_files-IsKept matcher (codes "app") (λ xs. xs) (λ i xs h. h) 0
      (none ∷ some (codes "[app]" ∷ block) ∷ []) reading refl

blank : AllWhite (32 ∷ 9 ∷ [])
unfolding is_white
blank = (refl, (refl, tt))

letter : is_white 97 ≡ false
unfolding is_white
letter = refl

strip-around_example : strip (32 ∷ 9 ∷ 97 ∷ 32 ∷ 97 ∷ 32 ∷ 9 ∷ []) ≡ 97 ∷ 32 ∷ 97 ∷ []
strip-around_example =
    strip-around (32 ∷ 9 ∷ []) (32 ∷ []) (32 ∷ 9 ∷ []) 97 97 blank letter letter blank
