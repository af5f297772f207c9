-- ===== src/Log/Expired.antt =====
-- Which files are deleted after some days.
use Prim.Native.Char.{Char, code}
use Prim.Native.String as Text
use text.Mathlib.TextLemmas.{nil-append, cons-append, append_assoc, append-nil}
use pikamgr.Base.{
  ℕ, ◌*◌, ◌<◌, String, true, false, ◌≡◌, refl, ◌==◌, eq_refl, eqb_iff, arith, sym, subst,
  Bool-cases, inl, inr, eq_iff, ap, ◌∙◌,
}
use pikamgr.Log.{has_prefix, has_suffix, prefix_of, ext_of, rotated_name, is_expired}

has_prefix-append : (p s : String) → has_prefix (Text.◌++◌ p s) p ≡ true
unfolding has_prefix
has_prefix-append String.[] s = refl
has_prefix-append (String.◌∷◌ c p) s =
    rw cons-append (ground (arith, has_prefix-append p s, (eqb_iff (code c) (code c)).1 refl))

has_suffix_self : (e : String) → has_suffix e e ≡ true
unfolding has_suffix
has_suffix_self String.[] = refl
has_suffix_self (String.◌∷◌ c e) = ground (arith, eq_refl (String.◌∷◌ c e))

has_suffix-cons :
    (c : Char) (s e : String) → has_suffix s e ≡ true → has_suffix (String.◌∷◌ c s) e ≡ true
unfolding has_suffix
has_suffix-cons c s e h = ground arith

has_suffix-append : (s e : String) → has_suffix (Text.◌++◌ s e) e ≡ true
has_suffix-append String.[] e = rw nil-append (has_suffix_self e)
has_suffix-append (String.◌∷◌ c s) e =
    rw cons-append (has_suffix-cons c (Text.◌++◌ s e) e (has_suffix-append s e))

-- A file is deleted if its name starts and ends like that of the log.
expired :
    (name path : String) (max_days age : ℕ)
    → (path == name) ≡ false
    → 86400 * max_days < age
    → has_prefix path (prefix_of name) ≡ true
    → has_suffix path (ext_of name) ≡ true
    → is_expired name max_days path false age ≡ true
unfolding is_expired
expired name path max_days age other old p e = ground arith

-- Every file of sufficient age is deleted whose path has anything at all between the beginning and
-- the extension of the log's path, whichever program has written it.
is_expired-between :
    (name more : String) (max_days age : ℕ)
    → (Text.◌++◌ (prefix_of name) (Text.◌++◌ more (ext_of name)) == name) ≡ false
    → 86400 * max_days < age
    → is_expired name max_days (Text.◌++◌ (prefix_of name) (Text.◌++◌ more (ext_of name))) false age
      ≡ true
is_expired-between name more max_days age other old =
    expired name (Text.◌++◌ (prefix_of name) (Text.◌++◌ more (ext_of name))) max_days age other old
      (has_prefix-append (prefix_of name) (Text.◌++◌ more (ext_of name)))
      (subst (λ t. has_suffix t (ext_of name) ≡ true)
        (append_assoc (prefix_of name) more (ext_of name))
        (has_suffix-append (Text.◌++◌ (prefix_of name) more) (ext_of name)))

has_suffix-nil : (s : String) → has_suffix s "" ≡ true
has_suffix-nil s = subst (λ t. has_suffix t "" ≡ true) (append-nil s) (has_suffix-append s "")

rotated-has_suffix : (name date : String) → has_suffix (rotated_name name date) (ext_of name) ≡ true
unfolding rotated_name
rotated-has_suffix name date = elim (Bool-cases (ext_of name == "")) [
  | inl plain ↦
      subst (λ e. has_suffix (rotated_name name date) e ≡ true)
        (sym ((eq_iff (ext_of name) "").0 plain)) (has_suffix-nil (rotated_name name date))
  | inr marked ↦ rw marked (
      subst (λ t. has_suffix t (ext_of name) ≡ true)
        (append_assoc (prefix_of name) (Text.◌++◌ "." date) (ext_of name)
          ∙ ap (λ t. Text.◌++◌ (prefix_of name) t) (append_assoc "." date (ext_of name)))
        (has_suffix-append (Text.◌++◌ (prefix_of name) (Text.◌++◌ "." date)) (ext_of name)))
]

rotated-has_prefix :
    (name date : String) → has_prefix (rotated_name name date) (prefix_of name) ≡ true
unfolding rotated_name
rotated-has_prefix name date = has_prefix-append (prefix_of name) _

-- Every rotated file of a log, with an extension in the log's name or without one, is deleted once
-- it is older than the days to keep.
is_expired-rotated :
    (name date : String) (max_days age : ℕ)
    → (rotated_name name date == name) ≡ false
    → 86400 * max_days < age
    → is_expired name max_days (rotated_name name date) false age ≡ true
is_expired-rotated name date max_days age other old =
    expired name (rotated_name name date) max_days age other old (rotated-has_prefix name date)
      (rotated-has_suffix name date)

-- Once it is older than the days to keep, every rotated file of a log is deleted, with an extension in
-- the log's name or without one, and so is every file whose path has anything at all between the
-- beginning and the extension of the log's path, whichever program has written it.
pub is_expired-named :
    (name date more : String) (max_days age : ℕ)
    → (rotated_name name date == name) ≡ false
    → (Text.◌++◌ (prefix_of name) (Text.◌++◌ more (ext_of name)) == name) ≡ false
    → 86400 * max_days < age
    → (is_expired name max_days (rotated_name name date) false age ≡ true)
      × (is_expired name max_days
            (Text.◌++◌ (prefix_of name) (Text.◌++◌ more (ext_of name)))
            false
            age
          ≡ true)
is_expired-named name date more max_days age rotated other old = (
  is_expired-rotated name date max_days age rotated old,
  is_expired-between name more max_days age other old,
)
