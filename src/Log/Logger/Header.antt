-- ===== src/Log/Logger/Header.antt =====
-- The header of a line of the log: `formatHeader` of utils/log/log.go.
use pikamgr.Base.{
  and_then, ℕ, ◌/◌, Bool, false, ◌||◌, [], ◌∷◌, ◌++◌, Option, none, some, eqb, if◌then◌else◌,
}
use pikamgr.Base.Int.{ℤ}
use pikamgr.Log.Logger.{
  Text, has_flag, l_date, l_time, l_microseconds, l_longfile, l_shortfile, l_utc, itoa,
  level_to_string,
}

-- What the logger uses of `time.Time`: the fields in one time zone. A year is not negative.
pub record Time : Type 0 where
  pub year : ℕ
  pub month : ℕ
  pub day : ℕ
  pub hour : ℕ
  pub min : ℕ
  pub sec : ℕ
  pub nanosecond : ℕ

-- `*buf = append(*buf, c)` behind a number
abbrev pub itoa_then : Text → ℕ → ℕ → ℕ → Option Text
itoa_then buf i wid c = and_then (itoa buf i wid) (λ buf'. some (buf' ++ c ∷ []))

unfoldable pub format_date : ℕ → Time → Text → Option Text
unfolding itoa
format_date flag t buf =
    if has_flag flag l_date
    then and_then (itoa_then buf t.year 4 b'/')
        (λ buf'. and_then (itoa_then buf' t.month 2 b'/') (λ buf''. itoa_then buf'' t.day 2 b' '))
    else some buf

unfoldable pub format_fraction : ℕ → Time → Text → Option Text
unfolding itoa
format_fraction flag t buf =
    if has_flag flag l_microseconds
    then itoa (buf ++ b'.' ∷ []) (t.nanosecond / 1000) 6
    else some buf

unfoldable pub format_clock : ℕ → Time → Text → Option Text
unfolding itoa format_fraction
format_clock flag t buf =
    if has_flag flag l_time || has_flag flag l_microseconds
    then and_then (itoa_then buf t.hour 2 b':') (λ buf'.
      and_then (itoa_then buf' t.min 2 b':') (λ buf''.
        and_then (itoa buf'' t.sec 2)
          (λ seconds. and_then (format_fraction flag t seconds) (λ all. some (all ++ b' ' ∷ [])))))
    else some buf

-- What stands behind the last slash, unless that is the first character; `none` if there is no
-- such slash.
unfoldable pub behind_slash : Text → Option Text
behind_slash [] = none
behind_slash (c ∷ cs) =
    let rest = behind_slash cs in
    elim rest [ some s ↦ some s | none ↦ if eqb c b'/' then some cs else none ]

unfoldable pub short_file : Text → Text
unfolding behind_slash
short_file [] = []
short_file (c ∷ file) = elim (behind_slash file) [ none ↦ c ∷ file | some s ↦ s ]

unfoldable pub format_file : ℕ → Text → ℕ → Text → Option Text
unfolding itoa
format_file flag file line buf =
    if has_flag flag l_shortfile || has_flag flag l_longfile
    then (let name = if has_flag flag l_shortfile then short_file file else file in
        and_then (itoa (buf ++ b' ' ∷ (name ++ b':' ∷ [])) line 0)
          (λ buf'. some (buf' ++ b':' ∷ b' ' ∷ [])))
    else some buf

-- `formatHeader`, with `UTC` of package time.
unfoldable pub format_header : (Time → Time) → ℕ → Text → Time → Text → ℕ → ℤ → Option Text
unfolding level_to_string format_date format_clock format_file
format_header utc flag buf now file line level =
    let t = if has_flag flag l_utc then utc now else now in
    and_then (format_date flag t buf) (λ buf'.
      and_then (format_clock flag t buf')
        (λ buf''. format_file flag file line (buf'' ++ (level_to_string level ++ b' ' ∷ []))))

-- `if len(s) == 0 || s[len(s)-1] != '\n'`
unfoldable pub ends_line : Text → Bool
ends_line [] = false
ends_line (c ∷ []) = eqb c 10
ends_line (c ∷ d ∷ s) = ends_line (d ∷ s)

unfoldable pub end_line : Text → Text
unfolding ends_line
end_line s = if ends_line s then s else s ++ 10 ∷ []
