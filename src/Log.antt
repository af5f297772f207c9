-- ===== src/Log.antt =====
-- The rolling log file, utils/log/file_writer.go.
pub mod Bounds
pub mod Broken
pub mod Expired
pub mod Logger
use Prim.Native.Char.{code}
use Prim.Native.String as Text
use pikamgr.Base.{
  ℕ, zero, suc, ◌+◌, ◌-◌, ◌*◌, ◌<◌, String, Bool, true, false, not, ◌&&◌, ◌||◌, List, [], ◌∷◌,
  Option, none, some, ◌==◌, eqb, ltb, leb, if◌then◌else◌,
}
use Prim.Native.Nat.{◌%◌}
use pikamgr.Base.Int.{ℤ, pos, negsuc}

-- 2 ^ 63 and 2 ^ 64
abbrev half : ℕ
half = 9223372036854775808

abbrev full : ℕ
full = 18446744073709551616

-- An int64 from its bit pattern.
abbrev pub signed : ℕ → ℤ
signed n = if ltb n half then pos n else negsuc (full - n - 1)

-- The bit pattern of an int64.
abbrev pub pattern_of : ℤ → ℕ
pattern_of (pos n) = n % full
pattern_of (negsuc n) = full - 1 - n % full

-- `LogFileMaxSize`: `int64(size) * 1024 * 1024`, which wraps around.
unfoldable pub log_file_max_size : ℤ → ℤ
log_file_max_size size = signed ((pattern_of size * 1048576) % full)

-- `FileWriter`, the file that it has opened, and the files that it has renamed, by their sizes. Of
-- the time only the day of the month is used.
pub record Writer : Type 0 where
  pub rotate_by_daily : Bool
  pub max_size : ℤ
  pub current_size : ℕ
  pub open_day : ℕ
  -- `fd` is open
  pub is_open : Bool
  -- there is a file under the name
  pub is_there : Bool
  -- the size of the file that is written to
  pub file_size : ℕ
  pub archived : List ℕ

-- What a call of `Write` meets: the day of the month, whether renaming and opening work, and how
-- many bytes are written, or, if the write fails, are written all the same.
pub record Env : Type 0 where
  pub day : ℕ
  pub renames : Bool
  pub opens : Bool
  pub writes : Option ℕ
  pub partial : ℕ

abbrev pub is_positive : ℤ → Bool
is_positive (pos zero) = false
is_positive (pos (suc n)) = true
is_positive (negsuc n) = false

-- `f.currentSize >= f.maxsize`
abbrev pub is_full : ℕ → ℤ → Bool
is_full n (pos m) = leb m n
is_full n (negsuc m) = true

unfoldable pub need_rotate : Writer → ℕ → Bool
need_rotate w day =
    (is_positive w.max_size && is_full w.current_size w.max_size)
    || (w.rotate_by_daily && not (eqb day w.open_day))

-- `initStat`; the `Stat` of a file that was just opened does not fail.
abbrev pub init_stat : Writer → ℕ → Writer
init_stat w day = record w { current_size = w.file_size; open_day = day }

-- `os.Rename`, whose error is not looked at.
abbrev pub rename : Writer → Bool → Writer
rename w works =
    if works
    then record w { is_there = false; file_size = 0; archived = w.file_size ∷ w.archived }
    else w

-- `doRotate`; an error is only printed.
unfoldable pub do_rotate : Writer → Env → Writer
do_rotate w env =
    if not w.is_there
    then w
    else let w' = rename w env.renames in
      if env.opens
      then init_stat (record w' { is_open = true; is_there = true }) env.day
      else record w' { is_open = false }

unfoldable pub write_open : Writer → Env → Option ℕ × Writer
write_open w env = elim env.writes [
  | none ↦ (none, record w { file_size = w.file_size + env.partial })
  | some n ↦ (some n, record w { current_size = w.current_size + n; file_size = w.file_size + n })
]

-- `Write`: what is written, and `none` for an error.
unfoldable pub write : Writer → Env → Option ℕ × Writer
write w env =
    let w' = if need_rotate w env.day then do_rotate w env else w in
    if w'.is_open then write_open w' env else (none, w')

-- `strings.HasPrefix` and `strings.HasSuffix`
unfoldable pub has_prefix : String → String → Bool
has_prefix s String.[] = true
has_prefix String.[] (String.◌∷◌ d p) = false
has_prefix (String.◌∷◌ c s) (String.◌∷◌ d p) =
    let rest = has_prefix s p in if eqb (code c) (code d) then rest else false

unfoldable pub has_suffix : String → String → Bool
has_suffix String.[] e = String.[] == e
has_suffix (String.◌∷◌ c s) e = String.◌∷◌ c s == e || has_suffix s e

unfoldable pub has_slash : String → Bool
has_slash String.[] = false
has_slash (String.◌∷◌ c s) = eqb (code c) 47 || has_slash s

-- `filepath.Ext`, and what stands before it; `none` if there is no dot behind the last slash.
unfoldable pub split_ext : String → Option (String × String)
unfolding has_slash
split_ext String.[] = none
split_ext (String.◌∷◌ c s) =
    let rest = split_ext s in
    elim rest [
      | some (p, e) ↦ some (String.◌∷◌ c p, e)
      | none ↦ if eqb (code c) 46 && not (has_slash s) then some ("", String.◌∷◌ c s) else none
    ]

abbrev pub prefix_of : String → String
prefix_of name = elim (split_ext name) [ none ↦ name | some (p, e) ↦ p ]

abbrev pub ext_of : String → String
ext_of name = elim (split_ext name) [ none ↦ "" | some (p, e) ↦ e ]

-- The name of a rotated file, with the text of the time at which it was opened.
unfoldable pub rotated_name : String → String → String
rotated_name name date =
    let ext = if ext_of name == "" then ".log" else ext_of name in
    Text.◌++◌ (prefix_of name) (Text.◌++◌ "." (Text.◌++◌ date ext))

-- Whether `deleteOldFiles` removes a file: its path, whether it is a directory, and its age in
-- seconds, against a whole number of days that is not negative.
unfoldable pub is_expired : String → ℕ → String → Bool → ℕ → Bool
is_expired name max_days path is_dir age =
    not (path == name)
    && (not is_dir && ltb (86400 * max_days) age)
    && (has_prefix path (prefix_of name) && has_suffix path (ext_of name))
