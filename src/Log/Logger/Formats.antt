-- ===== src/Log/Logger/Formats.antt =====
-- `Panicf` of the package and that of a logger.
use pikamgr.Base.{◌<◌, true, false, List, ◌≡◌, ◌⊎◌, inl, inr, refl, arith, Bool-cases}
use pikamgr.Base.Int.{int_lt}
use pikamgr.Log.Logger.{l_program_flags, Text, l_panic}
use pikamgr.Log.Logger.Output.{Logger, Outside, Ending, returned, panicked, call_site}
use pikamgr.Log.Logger.Digits.{ten_to}
use pikamgr.Log.Logger.Stamp.{IsTime}
use pikamgr.Log.Logger.Line.{IsLine, output-IsLine}
use pikamgr.Log.Logger.Methods
use pikamgr.Log.Logger.Std

-- A call for a panic with a text: below the level of the logger nothing is written and the call returns,
-- otherwise the text is written as one line in one call of `Write`, whatever that returns, and is what
-- the call panics with.
abbrev pub IsPanicked :
    {Out Arg : Type 0}
    → Outside Out Arg
    → Text
    → Logger Out
    → Ending (Unit {0}) × Logger Out
    → Type 0
IsPanicked io s l (r, l') =
    ((int_lt l_panic l.level ≡ true) × (r ≡ returned tt) × (l' ≡ l))
    ⊎ ((int_lt l_panic l.level ≡ false)
        × (line : Text) × IsLine io.now l_panic (call_site io l_program_flags 2) s line
        × (r ≡ panicked s)
        × (l' ≡ record l { out = (io.write l.out line).1 }))

-- With the flags that both programs set, at a time whose fields are in their ranges: `Panicf` of a
-- logger writes its values in the given format as one line and panics with that text; `Panicf` of
-- the package does so with the values as `Panicln` prints them, whatever the format is. Below
-- the level of the logger either returns and writes nothing.
pub panicf-formats :
    {Out Arg : Type 0} (io : Outside Out Arg) (format : Text) (v : List Arg) (l : Logger Out)
    → l.flag ≡ l_program_flags
    → IsTime io.now
    → (call_site io l_program_flags 2).1 < ten_to 20
    → IsPanicked io (io.sprintf format v) l (Methods.panicf io format v l)
      × IsPanicked io (io.sprintln v) l (Std.panicf io format v l)
unfolding Methods.panicf Std.panicf
panicf-formats io format v l f r k = elim (Bool-cases (int_lt l_panic l.level)) [
  | inl low ↦ (inl (low, rw low refl, rw low refl), inl (low, rw low refl, rw low refl))
  | inr high ↦
      let (text, parts, e, e') = output-IsLine io l_panic 2 (io.sprintf format v) l f r k in
      let (text', parts', d, d') = output-IsLine io l_panic 2 (io.sprintln v) l f r k in
      (
        inr (high, text, parts, ground (arith, high, e), ground (arith, high, e, e')),
        inr (high, text', parts', ground (arith, high, d), ground (arith, high, d, d')),
      )
]
