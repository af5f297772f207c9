-- ===== src/World/Keeps.antt =====
-- Invariants of actions, one rule for each way to build an action.
use pikamgr.Base.{Bool, true, false, if◌then◌else◌, Option, none, some, ◌≡◌, refl}
use pikamgr.World.{
  State, Error, Result, ok, err, Action, ◌>>=◌, pure, raise, gets, lift, attempt, or_raise,
  raise_if, when,
}

-- `m` keeps `P`, whether it returns or raises.
pub record Keeps {A : Type 0} (P : State → Type 0) (m : Action A) : Type 0 where
  pub at : (s : State) → P s → P (m s).1

module _ {A : Type 0} {P : State → Type 0} where
  pub Keeps-pure : (a : A) → Keeps P (pure a)
  Keeps-pure a = record { at = λ s h. h }

  pub Keeps-raise : (e : Error) → Keeps P (raise {A = A} e)
  Keeps-raise e = record { at = λ s h. h }

  pub Keeps-gets : (f : State → A) → Keeps P (gets f)
  Keeps-gets f = record { at = λ s h. h }

  pub Keeps-attempt : (m : Action A) → Keeps P m → Keeps P (attempt m)
  Keeps-attempt m km = record { at = km.at }

  pub Keeps-or_raise : (o : Option A) (e : Error) → Keeps P (or_raise o e)
  Keeps-or_raise none e = record { at = λ s h. h }
  Keeps-or_raise (some a) e = record { at = λ s h. h }

  pub Keeps-if : (b : Bool) (m n : Action A) → Keeps P m → Keeps P n → Keeps P (if b then m else n)
  Keeps-if true m n km kn = km
  Keeps-if false m n km kn = kn

pub Keeps-raise_if : {P : State → Type 0} (b : Bool) (e : Error) → Keeps P (raise_if b e)
Keeps-raise_if b e = record { at = λ s h. h }

pub Keeps-when :
    {P : State → Type 0} (b : Bool) (m : Action (Unit {0})) → Keeps P m → Keeps P (when b m)
Keeps-when true m km = km
Keeps-when false m km = record { at = λ s h. h }

module _ {A B : Type 0} {P : State → Type 0} where
  Keeps-elim :
      (r : Result A) (s : State) (f : A → Action B)
      → P s
      → ((a : A) → Keeps P (f a))
      → P ((lift r >>= f) s).1
  Keeps-elim (ok a) s f h kf = (kf a).at s h
  Keeps-elim (err e) s f h kf = h

  pub Keeps-bind :
      (m : Action A) (f : A → Action B) → Keeps P m → ((a : A) → Keeps P (f a)) → Keeps P (m >>= f)
  Keeps-bind m f km kf = record {
    at = λ s h. let (r, s') = m s in Keeps-elim r s' f (km.at s h) kf;
  }

  -- The first action may leave the invariant for a moment, if it ends in it.
  pub Keeps-after :
      (m : Action A) (f : A → Action B) (s : State)
      → P (m s).1
      → ((a : A) → Keeps P (f a))
      → P ((m >>= f) s).1
  Keeps-after m f s h kf = let (r, s') = m s in Keeps-elim r s' f h kf

  -- What is read may be assumed of the rest.
  pub Keeps-read :
      (g : State → A) (f : A → Action B) (Q : A → Type 0)
      → ((s : State) → P s → Q (g s))
      → ((a : A) → Q a → Keeps P (f a))
      → Keeps P (gets g >>= f)
  Keeps-read g f Q h k = record { at = λ s p. (k (g s) (h s p)).at s p }

  pub Keeps-found :
      (o : Option A) (e : Error) (f : A → Action B)
      → ((a : A) → o ≡ some a → Keeps P (f a))
      → Keeps P (or_raise o e >>= f)
  Keeps-found none e f h = record { at = λ s p. p }
  Keeps-found (some a) e f h = h a refl

pub ruleset keeps_rules = (
  Keeps-pure, Keeps-raise, Keeps-gets, Keeps-attempt, Keeps-or_raise, Keeps-if, Keeps-raise_if,
  Keeps-when, Keeps-bind,
)
