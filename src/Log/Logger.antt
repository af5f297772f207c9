-- ===== src/Log/Logger.antt =====
-- The logger, utils/log/log.go. What it takes from outside is a parameter: the destination, the
-- clock, the stack of the callers, and the formatting of package fmt.
pub mod Header
pub mod Output
pub mod Methods
pub mod Std
pub mod Digits
pub mod Stamp
pub mod Line
pub mod Off
pub mod Formats
use pikamgr.Base.{
  ℕ, zero, suc, ◌+◌, ◌-◌, ◌*◌, ◌/◌, String, Bool, true, false, not, ◌&&◌, ◌||◌, List, [], ◌∷◌, ◌++◌,
  Option, none, some, codes, eqb, ltb, leb, map, if◌then◌else◌,
}
use Prim.Native.Nat.{bit_and}
use pikamgr.Base.Int.{ℤ, pos, negsuc, int_eq, int_lt}
use pikamgr.Coordinate.{segment_eq}

-- Bytes. What the logger itself writes is ASCII.
abbrev pub Text : Type 0
Text = List ℕ

-- The flags, one bit each, and the levels.
abbrev pub l_date : ℕ
l_date = 1

abbrev pub l_time : ℕ
l_time = 2

abbrev pub l_microseconds : ℕ
l_microseconds = 4

abbrev pub l_longfile : ℕ
l_longfile = 8

abbrev pub l_shortfile : ℕ
l_shortfile = 16

abbrev pub l_utc : ℕ
l_utc = 32

abbrev pub l_std_flags : ℕ
l_std_flags = 7

-- `LstdFlags | Lshortfile`, as both programs set them.
abbrev pub l_program_flags : ℕ
l_program_flags = 23

abbrev pub l_off : ℤ
l_off = pos 2147483647

abbrev pub l_fatal : ℤ
l_fatal = pos 70000

abbrev pub l_panic : ℤ
l_panic = pos 60000

abbrev pub l_error : ℤ
l_error = pos 50000

abbrev pub l_warn : ℤ
l_warn = pos 40000

abbrev pub l_info : ℤ
l_info = pos 30000

abbrev pub l_debug : ℤ
l_debug = pos 20000

abbrev pub l_trace : ℤ
l_trace = pos 10000

abbrev pub l_std_level : ℤ
l_std_level = l_trace

-- `flag & bit != 0`
abbrev pub has_flag : ℕ → ℕ → Bool
has_flag flag bit = not (eqb (bit_and flag bit) 0)

-- The loop of `itoa` with `bp` at a position of the buffer of 20 bytes; `none` is a panic, behind
-- its front. A width below 1, such as -1, acts as 0.
unfoldable pub itoa_at : ℕ → ℕ → ℕ → Text → Option Text
itoa_at zero i wid b = if leb 10 i || ltb 1 wid then none else some ((b'0' + i) ∷ b)
itoa_at (suc bp) i wid b =
    let more = itoa_at bp (i / 10) (wid - 1) ((b'0' + (i - (i / 10) * 10)) ∷ b) in
    if leb 10 i || ltb 1 wid then more else some ((b'0' + i) ∷ b)

unfoldable pub itoa : Text → ℕ → ℕ → Option Text
itoa buf i wid = elim (itoa_at 19 i wid []) [ none ↦ none | some b ↦ some (buf ++ b) ]

unfoldable pub level_to_string : ℤ → Text
level_to_string level =
    if int_eq level l_off
    then codes "[OFF]"
    else if int_eq level l_fatal
    then codes "[FATAL]"
    else if int_eq level l_panic
    then codes "[PANIC]"
    else if int_eq level l_error
    then codes "[ERROR]"
    else if int_eq level l_warn
    then codes "[WARN]"
    else if int_eq level l_info
    then codes "[INFO]"
    else if int_eq level l_debug
    then codes "[DEBUG]"
    else if int_eq level l_trace
    then codes "[TRACE]"
    else []

-- `unicode.ToLower`, as far as its results are ASCII; of the characters beyond ASCII two have
-- such a result.
unfoldable pub to_lower : ℕ → ℕ
to_lower c =
    if leb b'A' c && leb c b'Z'
    then c + 32
    else if eqb c 304
    then b'i'
    else if eqb c 8490
    then b'k'
    else c

unfoldable pub string_to_level : String → ℤ
string_to_level s =
    let l = map to_lower (codes s) in
    if segment_eq l (codes "off")
    then l_off
    else if segment_eq l (codes "fatal")
    then l_fatal
    else if segment_eq l (codes "panic")
    then l_panic
    else if segment_eq l (codes "error")
    then l_error
    else if segment_eq l (codes "warn")
    then l_warn
    else if segment_eq l (codes "info")
    then l_info
    else if segment_eq l (codes "debug")
    then l_debug
    else if segment_eq l (codes "trace")
    then l_trace
    else l_std_level
