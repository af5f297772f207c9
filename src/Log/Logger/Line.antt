-- ===== src/Log/Logger/Line.antt =====
-- What a line of the log is, with the flags that both programs set: the standard flags and
-- `Lshortfile`.
use pikamgr.Base.{
  ℕ, ◌+◌, ◌<◌, Bool, true, false, [], ◌∷◌, ◌++◌, some, ◌≡◌, refl, ◌⊎◌, ◌∙◌, arith, Bool-cases, inl,
  inr,
}
use mathlib.Core.List.{append_assoc}
use pikamgr.Base.Int.{ℤ, int_lt}
use pikamgr.Log.Logger.{l_program_flags, Text, level_to_string}
use pikamgr.Log.Logger.Header.{Time, short_file, format_header, ends_line, end_line}
use pikamgr.Log.Logger.Output.{Logger, Outside, Ending, returned, call_site, output, output_text}
use pikamgr.Log.Logger.Digits.{IsDecimal, ten_to}
use pikamgr.Log.Logger.Stamp.{
  IsTime, IsStamp, format_date-fields, format_clock-fields, format_file-line, and_then-some,
}

-- The parts of a line.
pub record IsLine (now : Time) (level : ℤ) (site : Text × ℕ) (s text : Text) : Type 0 where
  pub stamp : Text
  pub number : Text
  pub stamped : IsStamp now stamp
  pub numbered : IsDecimal 0 site.1 number
  pub joined :
      text
      ≡ stamp
        ++ (level_to_string level
            ++ (b' '
                ∷ b' '
                ∷ (short_file site.0 ++ (b':' ∷ (number ++ (b':' ∷ b' ' ∷ end_line s))))))
  pub ended : ends_line text ≡ true

ends_line-append : (xs : Text) (y : ℕ) (ys : Text) → ends_line (xs ++ y ∷ ys) ≡ ends_line (y ∷ ys)
unfolding ends_line
ends_line-append [] y ys = refl
ends_line-append (x ∷ []) y ys = refl
ends_line-append (x ∷ z ∷ xs) y ys = ends_line-append (z ∷ xs) y ys

ends_line-end_line : (xs s : Text) → ends_line (xs ++ end_line s) ≡ true
unfolding end_line
ends_line-end_line xs [] = ends_line-append xs 10 []
ends_line-end_line xs (c ∷ s) = elim (Bool-cases (ends_line (c ∷ s))) [
  | inl done ↦ rw done (ends_line-append xs c s ∙ done)
  | inr open_ ↦ rw open_ (ends_line-append xs c (s ++ 10 ∷ []) ∙ ends_line-append (c ∷ s) 10 [])
]

stamp_joined :
    (y m d clock : Text)
    → (y ++ (b'/' ∷ (m ++ (b'/' ∷ (d ++ b' ' ∷ []))))) ++ clock
      ≡ y ++ (b'/' ∷ (m ++ (b'/' ∷ (d ++ b' ' ∷ clock))))
stamp_joined y m d clock = simp append_assoc

line_joined :
    (stamp tag name n rest : Text)
    → ((stamp ++ (tag ++ b' ' ∷ [])) ++ (b' ' ∷ (name ++ (b':' ∷ (n ++ (b':' ∷ b' ' ∷ []))))))
        ++ rest
      ≡ stamp ++ (tag ++ (b' ' ∷ b' ' ∷ (name ++ (b':' ∷ (n ++ (b':' ∷ b' ' ∷ rest))))))
line_joined stamp tag name n rest = simp append_assoc

format_header-IsLine :
    (utc : Time → Time) (now : Time) (file : Text) (line : ℕ) (level : ℤ) (s : Text)
    → IsTime now
    → line < ten_to 20
    → (header : Text) × (format_header utc l_program_flags [] now file line level ≡ some header)
      × IsLine now level (file, line) s (header ++ end_line s)
unfolding format_header
format_header-IsLine utc now file line level s r k =
    let (y, mo, d, yf, mof, df, de) = format_date-fields now [] r in
    let date : Text = y ++ (b'/' ∷ (mo ++ (b'/' ∷ (d ++ b' ' ∷ [])))) in
    let (h, mi, se, u, hf, mif, sef, uf, ce) = format_clock-fields now date r in
    let clock : Text = h ++ (b':' ∷ (mi ++ (b':' ∷ (se ++ (b'.' ∷ (u ++ b' ' ∷ [])))))) in
    let tag : Text = (date ++ clock) ++ (level_to_string level ++ b' ' ∷ []) in
    let (n, nd, fe) = format_file-line file line tag k in
    (
      tag ++ (b' ' ∷ (short_file file ++ (b':' ∷ (n ++ (b':' ∷ b' ' ∷ []))))),
      and_then-some _ _ de ∙ (and_then-some _ _ ce ∙ fe),
      record {
        stamp = date ++ clock;
        number = n;
        stamped = record {
          year = y;
          month = mo;
          day = d;
          hour = h;
          min = mi;
          sec = se;
          micro = u;
          year_field = yf;
          month_field = mof;
          day_field = df;
          hour_field = hf;
          min_field = mif;
          sec_field = sef;
          micro_field = uf;
          joined = stamp_joined y mo d clock;
        };
        numbered = nd;
        joined =
            line_joined (date ++ clock) (level_to_string level) (short_file file) n (end_line s);
        ended =
            ends_line-end_line
              (tag ++ (b' ' ∷ (short_file file ++ (b':' ∷ (n ++ (b':' ∷ b' ' ∷ [])))))) s;
      },
    )

-- What `Output`, `Outputf` and `Outputln` do with a message, by its level and that of the logger.
abbrev pub IsLogged :
    {Out Arg : Type 0}
    → Outside Out Arg
    → ℤ
    → ℕ
    → Text
    → Logger Out
    → Ending Bool × Logger Out
    → Type 0
IsLogged io level depth s l (r, l') =
    ((int_lt level l.level ≡ true) × (r ≡ returned false) × (l' ≡ l))
    ⊎ ((int_lt level l.level ≡ false)
        × (text : Text) × IsLine io.now level (call_site io l_program_flags (depth + 1)) s text
        × (r ≡ returned (io.write l.out text).0)
        × (l' ≡ record l { out = (io.write l.out text).1 }))

-- What `output` itself does.
pub output-IsLine :
    {Out Arg : Type 0} (io : Outside Out Arg) (level : ℤ) (depth : ℕ) (s : Text) (l : Logger Out)
    → l.flag ≡ l_program_flags
    → IsTime io.now
    → (call_site io l_program_flags depth).1 < ten_to 20
    → (text : Text) × IsLine io.now level (call_site io l_program_flags depth) s text
      × ((output io level depth s l).0 ≡ returned (io.write l.out text).0)
      × ((output io level depth s l).1 ≡ record l { out = (io.write l.out text).1 })
unfolding output
output-IsLine io level depth s l f r k =
    let (file, line) = call_site io l_program_flags depth in
    let (header, e, parts) = format_header-IsLine io.utc io.now file line level s r k in
    (header ++ end_line s, parts, ground (arith, e, f), ground (arith, e, f))

-- With the flags that both programs set, at a time whose fields are in their ranges: a message below the
-- logger's level writes nothing and returns no error. Any other is written by one call of `Write`, whose
-- error is returned: the time with each field at its full width, the level, the short name of the
-- file of the call and the line in decimal, and the message, which ends in a newline.
pub output_text-IsLogged :
    {Out Arg : Type 0} (io : Outside Out Arg) (level : ℤ) (depth : ℕ) (s : Text) (l : Logger Out)
    → l.flag ≡ l_program_flags
    → IsTime io.now
    → (call_site io l_program_flags (depth + 1)).1 < ten_to 20
    → IsLogged io level depth s l (output_text io level depth s l)
unfolding output_text
output_text-IsLogged io level depth s l f r k = elim (Bool-cases (int_lt level l.level)) [
  | inl low ↦ inl (low, rw low refl, rw low refl)
  | inr high ↦
      let (text, parts, e, e') = output-IsLine io level (depth + 1) s l f r k in
      inr (high, text, parts, rw high e, rw high e')
]
