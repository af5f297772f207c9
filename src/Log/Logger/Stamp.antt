-- ===== src/Log/Logger/Stamp.antt =====
-- The parts of the header of a line of the log: date, time, file and line.
use pikamgr.Base.{
  and_then, ℕ, suc, ◌/◌, ◌≤◌, ◌<◌, [], ◌∷◌, ◌++◌, Option, some, ◌≡◌, ◌∙◌, ap, arith, length,
}
use mathlib.Core.List.{append_assoc}
use pikamgr.Log.Logger.{l_program_flags, Text, itoa}
use pikamgr.Log.Logger.Header.{
  Time, itoa_then, format_date, format_fraction, format_clock, short_file, format_file,
}
use pikamgr.Log.Logger.Digits.{IsDecimal, ten_to, itoa-IsDecimal}

-- Decimal digits that fill a width exactly.
pub record IsField (wid n : ℕ) (ds : Text) : Type 0 where
  pub decimal : IsDecimal wid n ds
  pub fits : length ds ≡ wid

-- The fields of a time are in their ranges, the year below 10000.
pub record IsTime (t : Time) : Type 0 where
  pub year : t.year < 10000
  pub month : t.month < 100
  pub day : t.day < 100
  pub hour : t.hour < 100
  pub min : t.min < 100
  pub sec : t.sec < 100
  pub nanosecond : t.nanosecond < 1000000000

-- year/month/day hour:minute:second.microseconds, each field at its full width.
pub record IsStamp (t : Time) (stamp : Text) : Type 0 where
  pub year : Text
  pub month : Text
  pub day : Text
  pub hour : Text
  pub min : Text
  pub sec : Text
  pub micro : Text
  pub year_field : IsField 4 t.year year
  pub month_field : IsField 2 t.month month
  pub day_field : IsField 2 t.day day
  pub hour_field : IsField 2 t.hour hour
  pub min_field : IsField 2 t.min min
  pub sec_field : IsField 2 t.sec sec
  pub micro_field : IsField 6 (t.nanosecond / 1000) micro
  pub joined :
      stamp
      ≡ year
        ++ (b'/'
            ∷ (month
                ++ (b'/'
                    ∷ (day
                        ++ (b' '
                            ∷ (hour
                                ++ (b':'
                                    ∷ (min
                                        ++ (b':' ∷ (sec ++ (b'.' ∷ (micro ++ (b' ' ∷ [])))))))))))))

-- A field that the header prints, and the character behind it.
field :
    (buf : Text) (i wid : ℕ)
    → i < ten_to (suc wid)
    → i < ten_to 20
    → suc wid ≤ 20
    → (ds : Text) × (itoa buf i (suc wid) ≡ some (buf ++ ds)) × IsField (suc wid) i ds
field buf i wid h big k =
    let (ds, e, d) = itoa-IsDecimal buf i (suc wid) big k in
    (ds, e, record { decimal = d; fits = omega (arith, d.long, d.short wid h (omega arith)) })

pub and_then-some :
    {A B : Type 0} (o : Option A) (f : A → Option B) {a : A} → o ≡ some a → and_then o f ≡ f a
and_then-some o f e = ap (λ x. and_then x f) e

field_then :
    (buf : Text) (i wid c : ℕ)
    → i < ten_to (suc wid)
    → i < ten_to 20
    → suc wid ≤ 20
    → (ds : Text) × (itoa_then buf i (suc wid) c ≡ some (buf ++ (ds ++ c ∷ [])))
      × IsField (suc wid) i ds
field_then buf i wid c h big k =
    let (ds, e, f) = field buf i wid h big k in
    (ds, ground (arith, e, append_assoc buf ds (c ∷ [])), f)

-- The three numbers of the date, behind a buffer.
pub format_date-fields :
    (t : Time) (buf : Text)
    → IsTime t
    → (y m d : Text) × IsField 4 t.year y
      × IsField 2 t.month m
      × IsField 2 t.day d
      × (format_date l_program_flags t buf
          ≡ some (buf ++ (y ++ (b'/' ∷ (m ++ (b'/' ∷ (d ++ b' ' ∷ [])))))))
unfolding format_date
format_date-fields t buf h =
    let (y, ye, yf) = field_then buf t.year 3 b'/' h.year (omega (arith, h.year)) (omega arith) in
    let (m, me, mf) =
      field_then (buf ++ (y ++ b'/' ∷ [])) t.month 1 b'/' h.month (omega (arith, h.month))
        (omega arith) in
    let (d, de, df) =
      field_then ((buf ++ (y ++ b'/' ∷ [])) ++ (m ++ b'/' ∷ [])) t.day 1 b' ' h.day
        (omega (arith, h.day)) (omega arith) in
    (
      y,
      m,
      d,
      yf,
      mf,
      df,
      and_then-some _ _ ye ∙ (and_then-some _ _ me ∙ (de ∙ ap (λ x. some x) (simp append_assoc))),
    )

-- The time of day.
pub format_clock-fields :
    (t : Time) (buf : Text)
    → IsTime t
    → (h m s u : Text) × IsField 2 t.hour h
      × IsField 2 t.min m
      × IsField 2 t.sec s
      × IsField 6 (t.nanosecond / 1000) u
      × (format_clock l_program_flags t buf
          ≡ some (buf ++ (h ++ (b':' ∷ (m ++ (b':' ∷ (s ++ (b'.' ∷ (u ++ b' ' ∷ [])))))))))
unfolding format_clock format_fraction
format_clock-fields t buf r =
    let (h, he, hf) = field_then buf t.hour 1 b':' r.hour (omega (arith, r.hour)) (omega arith) in
    let at_min : Text = buf ++ (h ++ b':' ∷ []) in
    let (m, me, mf) = field_then at_min t.min 1 b':' r.min (omega (arith, r.min)) (omega arith) in
    let at_sec : Text = at_min ++ (m ++ b':' ∷ []) in
    let (s, se, sf) = field at_sec t.sec 1 r.sec (omega (arith, r.sec)) (omega arith) in
    let (u, ue, uf) =
      field ((at_sec ++ s) ++ b'.' ∷ []) (t.nanosecond / 1000) 5 (omega (arith, r.nanosecond))
        (omega (arith, r.nanosecond)) (omega arith) in
    (
      h,
      m,
      s,
      u,
      hf,
      mf,
      sf,
      uf,
      and_then-some _ _ he
          ∙ (and_then-some _ _ me
              ∙ (and_then-some _ _ se
                  ∙ (and_then-some _ _ ue ∙ ap (λ x. some x) (simp append_assoc)))),
    )

-- The file and the line of the call.
pub format_file-line :
    (file : Text) (line : ℕ) (buf : Text)
    → line < ten_to 20
    → (ds : Text) × IsDecimal 0 line ds
      × (format_file l_program_flags file line buf
          ≡ some (buf ++ (b' ' ∷ (short_file file ++ (b':' ∷ (ds ++ (b':' ∷ b' ' ∷ [])))))))
unfolding format_file
format_file-line file line buf h =
    let (ds, e, d) =
      itoa-IsDecimal (buf ++ b' ' ∷ (short_file file ++ b':' ∷ [])) line 0 h (omega arith) in
    (ds, d, and_then-some _ _ e ∙ ap (λ x. some x) (simp append_assoc))
