-- ===== src/Log/Logger/Std.antt =====
-- The functions of the package, on the standard logger: utils/log/log.go.
use pikamgr.Base.{ℕ, ◌+◌, Bool, false, List, if◌then◌else◌}
use pikamgr.Base.Int.{ℤ, int_lt}
use pikamgr.Log.Logger.{
  Text, l_std_level, l_fatal, l_panic, l_error, l_warn, l_info, l_debug, l_trace,
}
use pikamgr.Log.Logger.Methods
use pikamgr.Log.Logger.Methods.{new}
use pikamgr.Log.Logger.Output.{
  Logger, Outside, returned, Method, output, outputf, outputln, output_all, discard, and_exit,
  and_panic,
}

-- The standard logger as the package starts with it, on its first destination.
unfoldable pub std : {Out : Type 0} → Out → Logger Out
unfolding new
std stderr = new stderr l_std_level 15

module _ {Out : Type 0} where
  unfoldable pub set_output : Out → Method Out (Unit {0})
  set_output out l = (returned tt, record l { out = out })

  unfoldable pub level : Method Out ℤ
  unfolding Methods.level
  level l = Methods.level l

  unfoldable pub set_level : ℤ → Method Out (Unit {0})
  unfolding Methods.set_level
  set_level level l = Methods.set_level level l

  unfoldable pub flags : Method Out ℕ
  unfolding Methods.flags
  flags l = Methods.flags l

  unfoldable pub set_flags : ℕ → Method Out (Unit {0})
  unfolding Methods.set_flags
  set_flags flag l = Methods.set_flags flag l

module _ {Out Arg : Type 0} (io : Outside Out Arg) where
  unfoldable pub info : List Arg → Method Out (Unit {0})
  info v l = discard io (output_all io l_info 2 v l)

  unfoldable pub infoln : List Arg → Method Out (Unit {0})
  infoln v l = discard io (outputln io l_info 2 v l)

  unfoldable pub infof : Text → List Arg → Method Out (Unit {0})
  infof format v l = discard io (outputf io l_info 2 format v l)

  unfoldable pub error : List Arg → Method Out (Unit {0})
  error v l = discard io (output_all io l_error 2 v l)

  unfoldable pub errorln : List Arg → Method Out (Unit {0})
  errorln v l = discard io (outputln io l_error 2 v l)

  unfoldable pub errorf : Text → List Arg → Method Out (Unit {0})
  errorf format v l = discard io (outputf io l_error 2 format v l)

  unfoldable pub debug : List Arg → Method Out (Unit {0})
  debug v l = discard io (output_all io l_debug 2 v l)

  unfoldable pub debugln : List Arg → Method Out (Unit {0})
  debugln v l = discard io (outputln io l_debug 2 v l)

  unfoldable pub debugf : Text → List Arg → Method Out (Unit {0})
  debugf format v l = discard io (outputf io l_debug 2 format v l)

  unfoldable pub trace : List Arg → Method Out (Unit {0})
  trace v l = discard io (output_all io l_trace 2 v l)

  unfoldable pub traceln : List Arg → Method Out (Unit {0})
  traceln v l = discard io (outputln io l_trace 2 v l)

  unfoldable pub tracef : Text → List Arg → Method Out (Unit {0})
  tracef format v l = discard io (outputf io l_trace 2 format v l)

  unfoldable pub warn : List Arg → Method Out (Unit {0})
  warn v l = discard io (output_all io l_warn 2 v l)

  unfoldable pub warnln : List Arg → Method Out (Unit {0})
  warnln v l = discard io (outputln io l_warn 2 v l)

  unfoldable pub warnf : Text → List Arg → Method Out (Unit {0})
  warnf format v l = discard io (outputf io l_warn 2 format v l)

  unfoldable pub fatal : List Arg → Method Out (Unit {0})
  fatal v l =
      if int_lt l_fatal l.level then (returned tt, l) else and_exit io (output_all io l_fatal 2 v l)

  unfoldable pub fatalln : List Arg → Method Out (Unit {0})
  fatalln v l =
      if int_lt l_fatal l.level then (returned tt, l) else and_exit io (outputln io l_fatal 2 v l)

  unfoldable pub fatalf : Text → List Arg → Method Out (Unit {0})
  fatalf format v l =
      if int_lt l_fatal l.level
      then (returned tt, l)
      else and_exit io (outputf io l_fatal 2 format v l)

  unfoldable pub panic : List Arg → Method Out (Unit {0})
  panic v l =
      if int_lt l_panic l.level
      then (returned tt, l)
      else and_panic io (io.sprint v) (output io l_panic 2 (io.sprint v) l)

  -- The format is not used.
  unfoldable pub panicf : Text → List Arg → Method Out (Unit {0})
  panicf format v l =
      if int_lt l_panic l.level
      then (returned tt, l)
      else and_panic io (io.sprintln v) (output io l_panic 2 (io.sprintln v) l)

  unfoldable pub panicln : List Arg → Method Out (Unit {0})
  panicln v l =
      if int_lt l_panic l.level
      then (returned tt, l)
      else and_panic io (io.sprintln v) (output io l_panic 2 (io.sprintln v) l)

  -- `Output`
  unfoldable pub output_string : ℤ → ℕ → Text → Method Out Bool
  output_string level depth s l =
      if int_lt level l.level then (returned false, l) else output io level (depth + 1) s l
