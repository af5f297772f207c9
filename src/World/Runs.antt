-- ===== src/World/Runs.antt =====
-- Results, to split on what an action has returned.
use pikamgr.Base.{◌≡◌, refl, ap, ◌⊎◌, inl, inr}
use pikamgr.World.{State, Action, lift, ◌>>=◌, Error, Result, ok, err}

pub Result-cases :
    {A : Type 0} (r : Result A) → ((a : A) × (r ≡ ok a)) ⊎ ((e : Error) × (r ≡ err e))
Result-cases (ok a) = inl (a, refl)
Result-cases (err e) = inr (e, refl)

-- After a result, an action goes on with it.
pub bind-ok :
    {A B : Type 0} (m : Action A) (f : A → Action B) (s : State) {a : A}
    → (m s).0 ≡ ok a
    → (m >>= f) s ≡ f a (m s).1
bind-ok m f s e = ap (λ r. (lift r >>= f) (m s).1) e
