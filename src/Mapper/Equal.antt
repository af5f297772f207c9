-- ===== src/Mapper/Equal.antt =====
-- `reflect.DeepEqual` on the records of the GSLB mapper. A nil slice is an empty one here, and two
-- maps of backends are compared in the order of their entries: both producers of such maps, and
-- JSON's decoder, enter "Read" before "Write".
use mathlib.Core.List.{List, [], ◌∷◌}
use pikamgr.Base.{String, Bool, true, false, ◌&&◌, Assoc, ◌==◌, ◌≡◌, ◌↔◌, arith, eq_iff}
use pikamgr.Base.Int.{int_eq, int_eq_iff}
use pikamgr.Dao.{GslbBackend, GslbBackendGroup, Gslb}

unfoldable pub strings_eq : List String → List String → Bool
strings_eq [] [] = true
strings_eq [] (y ∷ ys) = false
strings_eq (x ∷ xs) [] = false
strings_eq (x ∷ xs) (y ∷ ys) = x == y && strings_eq xs ys

pub strings_eq_iff : (xs ys : List String) → (strings_eq xs ys ≡ true) ↔ (xs ≡ ys)
unfolding strings_eq
strings_eq_iff [] [] = ground arith
strings_eq_iff [] (y ∷ ys) = ground arith
strings_eq_iff (x ∷ xs) [] = ground arith
strings_eq_iff (x ∷ xs) (y ∷ ys) = ground (arith, eq_iff x y, strings_eq_iff xs ys)

unfoldable pub backend_eq : GslbBackend → GslbBackend → Bool
backend_eq a b = strings_eq a.servers b.servers && int_eq a.port b.port

backend_eq_iff : (a b : GslbBackend) → (backend_eq a b ≡ true) ↔ (a ≡ b)
unfolding backend_eq
backend_eq_iff a b = ground (arith, strings_eq_iff a.servers b.servers, int_eq_iff a.port b.port)

unfoldable pub backends_eq : Assoc GslbBackend → Assoc GslbBackend → Bool
backends_eq [] [] = true
backends_eq [] (y ∷ ys) = false
backends_eq (x ∷ xs) [] = false
backends_eq ((j, x) ∷ xs) ((k, y) ∷ ys) = j == k && backend_eq x y && backends_eq xs ys

pub backends_eq_iff : (xs ys : Assoc GslbBackend) → (backends_eq xs ys ≡ true) ↔ (xs ≡ ys)
unfolding backends_eq
backends_eq_iff [] [] = ground arith
backends_eq_iff [] (y ∷ ys) = ground arith
backends_eq_iff (x ∷ xs) [] = ground arith
backends_eq_iff ((j, x) ∷ xs) ((k, y) ∷ ys) =
    ground (arith, eq_iff j k, backend_eq_iff x y, backends_eq_iff xs ys)

unfoldable pub backend_groups_eq : List GslbBackendGroup → List GslbBackendGroup → Bool
backend_groups_eq [] [] = true
backend_groups_eq [] (y ∷ ys) = false
backend_groups_eq (x ∷ xs) [] = false
backend_groups_eq (x ∷ xs) (y ∷ ys) =
    x.name == y.name && backends_eq x.server_group y.server_group && backend_groups_eq xs ys

pub backend_groups_eq_iff :
    (xs ys : List GslbBackendGroup) → (backend_groups_eq xs ys ≡ true) ↔ (xs ≡ ys)
unfolding backend_groups_eq
backend_groups_eq_iff [] [] = ground arith
backend_groups_eq_iff [] (y ∷ ys) = ground arith
backend_groups_eq_iff (x ∷ xs) [] = ground arith
backend_groups_eq_iff (x ∷ xs) (y ∷ ys) = ground (
  arith,
  eq_iff x.name y.name,
  backends_eq_iff x.server_group y.server_group,
  backend_groups_eq_iff xs ys,
)

unfoldable pub gslb_eq : Gslb → Gslb → Bool
unfolding strings_eq backend_groups_eq
gslb_eq a b =
    a.name == b.name
    && strings_eq a.servers b.servers
    && strings_eq a.monitors b.monitors
    && backend_groups_eq a.backends b.backends

pub gslb_eq_iff : (a b : Gslb) → (gslb_eq a b ≡ true) ↔ (a ≡ b)
unfolding gslb_eq
gslb_eq_iff a b = ground (
  arith,
  eq_iff a.name b.name,
  strings_eq_iff a.servers b.servers,
  strings_eq_iff a.monitors b.monitors,
  backend_groups_eq_iff a.backends b.backends,
)
