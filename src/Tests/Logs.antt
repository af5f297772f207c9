-- ===== src/Tests/Logs.antt =====
-- The theorems on the logger at concrete messages.
use pikamgr.Base.{ℕ, ◌<◌, true, false, List, [], ◌∷◌, some, ◌≡◌, refl, ◌↔◌, ◌||◌, arith, codes}
use pikamgr.Log.Logger.{l_program_flags, Text, l_info, string_to_level}
use pikamgr.Log.Logger.Header.{Time}
use pikamgr.Log.Logger.Output.{Logger, Outside, call_site, output_text, returned}
use pikamgr.Log.Logger.Digits.{ten_to}
use pikamgr.Log.Logger.Stamp.{IsTime}
use pikamgr.Log.Logger.Line.{IsLogged, output_text-IsLogged}
use pikamgr.Log.Logger.Off.{is_off, is_fatal, std-returns}
use pikamgr.Log.Logger.Formats.{IsPanicked, panicf-formats}
use pikamgr.Log.Logger.Methods
use pikamgr.Log.Logger.Std

abbrev noon : Time
noon = record { year = 2018; month = 12; day = 27; hour = 12; min = 0; sec = 3; nanosecond = 45000 }

noon-IsTime : IsTime noon
noon-IsTime = record {
  year = omega arith;
  month = omega arith;
  day = omega arith;
  hour = omega arith;
  min = omega arith;
  sec = omega arith;
  nanosecond = omega arith;
}

abbrev first : List Text → Text
first [] = []
first (s ∷ v) = s

-- A destination that keeps what is written, and values that are texts.
abbrev outside : Outside (List Text) Text
outside = record {
  write = λ out s. (false, s ∷ out);
  now = noon;
  utc = λ t. t;
  caller = λ depth. some (codes "/src/main.go", 42);
  sprint = λ v. first v;
  sprintln = λ v. first v;
  sprintf = λ format v. format;
}

abbrev logger : Logger (List Text)
logger = record { level = l_info; out = []; flag = l_program_flags }

site-IsShort : (depth : ℕ) → (call_site outside l_program_flags depth).1 < ten_to 20
unfolding call_site
site-IsShort depth = omega arith

output_text-IsLogged_example :
    IsLogged outside l_info 2
      (codes "start")
      logger
      (output_text outside l_info 2 (codes "start") logger)
output_text-IsLogged_example =
    output_text-IsLogged outside l_info 2 (codes "start") logger refl noon-IsTime (site-IsShort 3)

panicf-formats_example :
    IsPanicked outside
      (codes "no %s")
      logger
      (Methods.panicf outside (codes "no %s") (codes "x" ∷ []) logger)
    × IsPanicked outside
        (codes "x")
        logger
        (Std.panicf outside (codes "no %s") (codes "x" ∷ []) logger)
panicf-formats_example =
    panicf-formats outside (codes "no %s") (codes "x" ∷ []) logger refl noon-IsTime (site-IsShort 2)

-- A configuration that says `OFF`.
abbrev silent : Logger (List Text)
silent = record logger { level = string_to_level "OFF" }

std-returns_example :
    let v : List Text = codes "x" ∷ [] in
    (((Std.fatal outside v silent).0 ≡ returned tt) ↔ (is_off "OFF" ≡ true))
    × (((Std.fatalln outside v silent).0 ≡ returned tt) ↔ (is_off "OFF" ≡ true))
    × (((Std.fatalf outside (codes "%s") v silent).0 ≡ returned tt) ↔ (is_off "OFF" ≡ true))
    × (((Std.panic outside v silent).0 ≡ returned tt) ↔ ((is_off "OFF" || is_fatal "OFF") ≡ true))
    × (((Std.panicln outside v silent).0 ≡ returned tt) ↔ ((is_off "OFF" || is_fatal "OFF") ≡ true))
    × (((Std.panicf outside (codes "%s") v silent).0 ≡ returned tt)
        ↔ ((is_off "OFF" || is_fatal "OFF") ≡ true))
std-returns_example = std-returns outside "OFF" (codes "x" ∷ []) (codes "%s") silent refl
