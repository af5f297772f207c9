-- ===== src/Log/Logger/Output.antt =====
-- The writing of a line of the log: `output` and `Output…` of utils/log/log.go.
use pikamgr.Base.{
  ℕ, ◌+◌, Bool, false, ◌||◌, List, [], ◌++◌, Option, none, some, codes, if◌then◌else◌,
}
use pikamgr.Base.Int.{ℤ, int_lt}
use pikamgr.Log.Logger.{Text, has_flag, l_longfile, l_shortfile}
use pikamgr.Log.Logger.Header.{Time, format_header, end_line}

-- The logger; its buffer is empty between two calls.
pub record Logger (Out : Type 0) : Type 0 where
  pub level : ℤ
  pub out : Out
  pub flag : ℕ

-- The outside during one call: `Write` of the destination (whether it returns an error, and what
-- it leaves), `time.Now`, `UTC`, `runtime.Caller` by its depth, and package fmt on its values.
pub record Outside (Out Arg : Type 0) : Type 0 where
  pub write : Out → Text → Bool × Out
  pub now : Time
  pub utc : Time → Time
  pub caller : ℕ → Option (Text × ℕ)
  pub sprint : List Arg → Text
  pub sprintln : List Arg → Text
  pub sprintf : Text → List Arg → Text

-- How a call ends. An index out of range is a panic of the runtime.
pub data Ending (A : Type 0) : Type 0 where
  returned : A → Ending A
  exited : ℕ → Ending A
  panicked : Text → Ending A
  out_of_range : Ending A

abbrev pub Method : Type 0 → Type 0 → Type 0
Method Out A = Logger Out → Ending A × Logger Out

module _ {Out Arg : Type 0} (io : Outside Out Arg) where
  -- The file and the line of a caller, `???` and 0 if there is none; they are looked up only if a
  -- flag wants them.
  unfoldable pub call_site : ℕ → ℕ → Text × ℕ
  call_site flag depth =
      if has_flag flag l_shortfile || has_flag flag l_longfile
      then elim (io.caller depth) [ none ↦ (codes "???", 0) | some site ↦ site ]
      else ([], 0)

  abbrev pub send : Option Text → Text → Method Out Bool
  send none s l = (out_of_range, l)
  send (some header) s l =
      let (failed, out') = io.write l.out (header ++ end_line s) in
      (returned failed, record l { out = out' })

  -- `output`: whether it returns an error.
  unfoldable pub output : ℤ → ℕ → Text → Method Out Bool
  output level depth s l =
      let (file, line) = call_site l.flag depth in
      send (format_header io.utc l.flag [] io.now file line level) s l

  -- `Outputf`, `Outputln` and `Output`: the level is tested before anything is formatted.
  unfoldable pub output_text : ℤ → ℕ → Text → Method Out Bool
  output_text level depth s l =
      if int_lt level l.level then (returned false, l) else output level (depth + 1) s l

  unfoldable pub outputf : ℤ → ℕ → Text → List Arg → Method Out Bool
  unfolding output_text
  outputf level depth format v = output_text level depth (io.sprintf format v)

  unfoldable pub outputln : ℤ → ℕ → List Arg → Method Out Bool
  unfolding output_text
  outputln level depth v = output_text level depth (io.sprintln v)

  unfoldable pub output_all : ℤ → ℕ → List Arg → Method Out Bool
  unfolding output_text
  output_all level depth v = output_text level depth (io.sprint v)

  -- A call of which the error is not looked at.
  abbrev pub discard : Ending Bool × Logger Out → Ending (Unit {0}) × Logger Out
  discard (returned e, l) = (returned tt, l)
  discard (exited n, l) = (exited n, l)
  discard (panicked s, l) = (panicked s, l)
  discard (out_of_range, l) = (out_of_range, l)

  -- A call and then `os.Exit(1)`
  abbrev pub and_exit : Ending Bool × Logger Out → Ending (Unit {0}) × Logger Out
  and_exit (out_of_range, l) = (out_of_range, l)
  and_exit (_, l) = (exited 1, l)

  -- A call and then `panic(s)`
  abbrev pub and_panic : Text → Ending Bool × Logger Out → Ending (Unit {0}) × Logger Out
  and_panic s (out_of_range, l) = (out_of_range, l)
  and_panic s (_, l) = (panicked s, l)
