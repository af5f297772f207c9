-- ===== src/Coordinators.antt =====
-- The coordinators: the interface `Client` of topom/dao/mapper/store.go and
-- coordinate/coordinator.go, what it promises to the dashboard, and its two implementations.
pub mod Zk
pub mod Etcd
use pikamgr.Base.{Bool, true, false, ◌||◌, [], ◌∷◌, Option, none, some, ◌≡◌, ◌⊎◌, refl, inl, inr}
use pikamgr.Coordinate.{NodePath, path_eq, parent}

-- A value or an error.
pub data Reply (E A : Type 0) : Type 0 where
  ok : A → Reply E A
  err : E → Reply E A

pub Reply-cases : {E A : Type 0} (r : Reply E A) → ((a : A) × (r ≡ ok a)) ⊎ ((e : E) × (r ≡ err e))
Reply-cases (ok a) = inl (a, refl)
Reply-cases (err e) = inr (e, refl)

-- An operation on a state, which may fail and leaves a state behind in any case.
abbrev pub Operation : Type 0 → Type 0 → Type 0 → Type 0
Operation S E A = S → Reply E A × S

module _ {S E : Type 0} where
  abbrev pub pure : {A : Type 0} → A → Operation S E A
  pure a s = (ok a, s)

  abbrev pub fail : {A : Type 0} → E → Operation S E A
  fail e s = (err e, s)

infixl 5 ◌>>=◌ ◌>>◌
abbrev pub ◌>>=◌ : {S E A B : Type 0} → Operation S E A → (A → Operation S E B) → Operation S E B
◌>>=◌ m f s = let (r, s') = m s in elim r [ ok a ↦ f a s' | err e ↦ (err e, s') ]

abbrev pub ◌>>◌ : {S E A B : Type 0} → Operation S E A → Operation S E B → Operation S E B
m >> k = m >>= λ _. k

-- To take some errors for a success.
abbrev pub forgive : {S E A : Type 0} → (E → Bool) → Operation S E A → Operation S E (Unit {0})
forgive test m s =
    let (r, s') = m s in
    elim r [
      | ok a ↦ (ok tt, s')
      | err e ↦ elim (test e) [ true ↦ (ok tt, s') | false ↦ (err e, s') ]
    ]

-- The operations that the dashboard uses. The data of a node that is not there is nil.
pub record Client (C E D : Type 0) : Type 0 where
  pub create : NodePath → D → Operation C E (Unit {0})
  pub update : NodePath → D → Operation C E (Unit {0})
  pub delete : NodePath → Operation C E (Unit {0})
  pub read : NodePath → Bool → Operation C E (Option D)

-- A node: whether it is ephemeral, so that it goes with the session that made it, and its data.
abbrev pub Held : Type 0 → Type 0
Held D = Bool × D

abbrev pub data_of : {D : Type 0} → Option (Held D) → Option D
data_of none = none
data_of (some (b, d)) = some d

-- A place at which nothing was done: only an ephemeral node may have gone.
abbrev pub IsUnharmed : {D : Type 0} → Option (Held D) → Option (Held D) → Type 0
IsUnharmed {D} before after =
    (after ≡ before) ⊎ ((d : D) × (before ≡ some (true, d)) × (after ≡ none))

-- Whether a place is a node or stands above it; the root is always there.
abbrev pub on_way : NodePath → NodePath → Bool
on_way q [] = false
on_way q (x ∷ p) = path_eq (x ∷ p) q || on_way q p

-- What a client promises, by what the nodes hold. An operation that returns no error has done its
-- work. Whether it fails or not, no lasting node but its own is changed, and a place that is neither
-- its own nor, for a write, above it, is unharmed; so a write that fails may leave new nodes above
-- its own, and an operation that loses the session loses its ephemeral nodes.
pub record IsCoordinator {C E D : Type 0} (view : C → NodePath → Option (Held D)) (k : Client C E D)
    : Type 0 where
  pub create_ok :
      (p : NodePath) (d : D) (c : C)
      → (k.create p d c).0 ≡ ok tt
      → (view c p ≡ none) × (view (k.create p d c).1 p ≡ some (false, d))
  pub create_keeps :
      (p : NodePath) (d : D) (c : C) (q : NodePath) (v : D)
      → view c q ≡ some (false, v)
      → view (k.create p d c).1 q ≡ some (false, v)
  pub create_other :
      (p : NodePath) (d : D) (c : C) (q : NodePath)
      → path_eq p q ≡ false
      → on_way q (parent p) ≡ false
      → IsUnharmed (view c q) (view (k.create p d c).1 q)
  pub update_ok :
      (p : NodePath) (d : D) (c : C)
      → (k.update p d c).0 ≡ ok tt
      → data_of (view (k.update p d c).1 p) ≡ some d
  pub update_keeps :
      (p : NodePath) (d : D) (c : C) (q : NodePath) (v : D)
      → path_eq p q ≡ false
      → view c q ≡ some (false, v)
      → view (k.update p d c).1 q ≡ some (false, v)
  pub update_other :
      (p : NodePath) (d : D) (c : C) (q : NodePath)
      → path_eq p q ≡ false
      → on_way q (parent p) ≡ false
      → IsUnharmed (view c q) (view (k.update p d c).1 q)
  pub delete_ok : (p : NodePath) (c : C) → (k.delete p c).0 ≡ ok tt → view (k.delete p c).1 p ≡ none
  pub delete_other :
      (p : NodePath) (c : C) (q : NodePath)
      → path_eq p q ≡ false
      → IsUnharmed (view c q) (view (k.delete p c).1 q)
  pub read_ok :
      (p : NodePath) (must : Bool) (c : C) (r : Option D)
      → (k.read p must c).0 ≡ ok r
      → r ≡ data_of (view c p)
  pub read_must :
      (p : NodePath) (c : C) (r : Option D) → (k.read p true c).0 ≡ ok r → (d : D) × (r ≡ some d)
  pub read_other :
      (p : NodePath) (must : Bool) (c : C) (q : NodePath)
      → IsUnharmed (view c q) (view (k.read p must c).1 q)
