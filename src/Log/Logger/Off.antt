-- ===== src/Log/Logger/Off.antt =====
-- The calls of `Fatal` and `Panic` under the level that the configuration names.
use pikamgr.Base.{
  String, Bool, true, false, List, ◌≡◌, ◌≢◌, ◌↔◌, refl, sym, ◌||◌, arith, codes, map, if◌then◌else◌,
}
use pikamgr.Base.Int.{int_lt}
use pikamgr.Coordinate.{segment_eq}
use pikamgr.Log.Logger.{Text, l_fatal, l_panic, to_lower, string_to_level}
use pikamgr.Log.Logger.Output.{
  Logger, Outside, Ending, returned, exited, panicked, out_of_range, and_exit, and_panic,
}
use pikamgr.Log.Logger.Std.{fatal, fatalln, fatalf, panic, panicln, panicf}

-- The text `off`, in small or capital letters.
abbrev pub is_off : String → Bool
is_off s = segment_eq (map to_lower (codes s)) (codes "off")

abbrev pub is_fatal : String → Bool
is_fatal s = segment_eq (map to_lower (codes s)) (codes "fatal")

-- Only these texts stand for a level above that of `Fatal`, or of `Panic`.
string_to_level-fatal : (s : String) → int_lt l_fatal (string_to_level s) ≡ is_off s
unfolding string_to_level
string_to_level-fatal s = ground arith

string_to_level-panic : (s : String) → int_lt l_panic (string_to_level s) ≡ (is_off s || is_fatal s)
unfolding string_to_level
string_to_level-panic s = ground arith

module _ {Out Arg : Type 0} (io : Outside Out Arg) where
  and_exit-goes : (x : Ending Bool × Logger Out) → (and_exit io x).0 ≢ returned tt
  and_exit-goes (returned e, l) h = ground arith
  and_exit-goes (exited n, l) h = ground arith
  and_exit-goes (panicked t, l) h = ground arith
  and_exit-goes (out_of_range, l) h = ground arith

  and_panic-goes : (t : Text) (x : Ending Bool × Logger Out) → (and_panic io t x).0 ≢ returned tt
  and_panic-goes t (returned e, l) h = ground arith
  and_panic-goes t (exited n, l) h = ground arith
  and_panic-goes t (panicked u, l) h = ground arith
  and_panic-goes t (out_of_range, l) h = ground arith

-- A call that is skipped under a test, and does not return otherwise.
skipped :
    {Out : Type 0} (b c : Bool) (l : Logger Out) (x : Ending (Unit {0}) × Logger Out)
    → b ≡ c
    → x.0 ≢ returned tt
    → ((if b then (returned tt, l) else x).0 ≡ returned tt) ↔ (c ≡ true)
skipped true c l x e goes = (λ _. sym e, λ _. refl)
skipped false c l x e goes = (λ h. absurd (goes h), λ h. absurd (ground arith))

-- Which of the package's calls return, if the level of the standard logger was read from a text:
-- `Fatal`, `Fatalln` and `Fatalf` return to their caller if the text is `off`, `Panic`, `Panicln` and `Panicf`
-- also if it is `fatal`, in small or capital letters; under any other text none of them returns.
pub std-returns :
    {Out Arg : Type 0} (io : Outside Out Arg) (s : String) (v : List Arg) (format : Text)
    (l : Logger Out)
    → l.level ≡ string_to_level s
    → (((fatal io v l).0 ≡ returned tt) ↔ (is_off s ≡ true))
      × (((fatalln io v l).0 ≡ returned tt) ↔ (is_off s ≡ true))
      × (((fatalf io format v l).0 ≡ returned tt) ↔ (is_off s ≡ true))
      × (((panic io v l).0 ≡ returned tt) ↔ ((is_off s || is_fatal s) ≡ true))
      × (((panicln io v l).0 ≡ returned tt) ↔ ((is_off s || is_fatal s) ≡ true))
      × (((panicf io format v l).0 ≡ returned tt) ↔ ((is_off s || is_fatal s) ≡ true))
unfolding fatal fatalln fatalf panic panicln panicf
std-returns io s v format l e =
    let f : int_lt l_fatal l.level ≡ is_off s = rw e (string_to_level-fatal s) in
    let p : int_lt l_panic l.level ≡ (is_off s || is_fatal s) = rw e (string_to_level-panic s) in
    (
      skipped _ _ l _ f (and_exit-goes io _),
      skipped _ _ l _ f (and_exit-goes io _),
      skipped _ _ l _ f (and_exit-goes io _),
      skipped _ _ l _ p (and_panic-goes io _ _),
      skipped _ _ l _ p (and_panic-goes io _ _),
      skipped _ _ l _ p (and_panic-goes io _ _),
    )
