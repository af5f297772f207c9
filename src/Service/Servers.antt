-- ===== src/Service/Servers.antt =====
-- The servers of a group as a set of addresses, under the changes that the service makes.
use pikamgr.Base.{
  ℕ, zero, suc, String, true, false, List, [], ◌∷◌, ◌++◌, some, ◌≡◌, refl, arith, get_elem?, set,
  erase_idx, swap_first, eq_iff, eq_refl, ◌||◌, Option-cases, inl, inr,
}
use pikamgr.Dao.{GroupServer, index_of}
use pikamgr.Service.Checks.{has_server}

-- No address stands twice.
abbrev pub AreOnce : List GroupServer → Type 0
AreOnce [] = Unit
AreOnce (v ∷ vs) = (has_server v.addr vs ≡ false) × AreOnce vs

pub has_server-get :
    (xs : List GroupServer) (i : ℕ) {y : GroupServer}
    → get_elem? xs i ≡ some y
    → has_server y.addr xs ≡ true
unfolding has_server
has_server-get [] i h = ground arith
has_server-get (x ∷ xs) zero {y} h = ground (arith, eq_refl y.addr)
has_server-get (x ∷ xs) (suc i) h = ground (arith, has_server-get xs i h)

pub has_server-append :
    (a : String) (xs ys : List GroupServer)
    → has_server a (xs ++ ys) ≡ (has_server a xs || has_server a ys)
unfolding has_server
has_server-append a [] ys = refl
has_server-append a (x ∷ xs) ys = ground (arith, has_server-append a xs ys)

pub AreOnce-append :
    (addr : String) (xs : List GroupServer)
    → AreOnce xs
    → has_server addr xs ≡ false
    → AreOnce (xs ++ record { addr = addr } ∷ [])
unfolding has_server
AreOnce-append addr [] h n = (refl, tt)
AreOnce-append addr (x ∷ xs) h n = ground (
  arith,
  AreOnce-append addr xs h.1,
  has_server-append x.addr xs (record { addr = addr } ∷ []),
  eq_iff addr x.addr,
  eq_iff x.addr addr,
)

pub has_server-erase :
    (a : String) (xs : List GroupServer) (i : ℕ)
    → has_server a (erase_idx xs i) ≡ true
    → has_server a xs ≡ true
unfolding has_server
has_server-erase a [] i h = h
has_server-erase a (x ∷ xs) zero h = ground arith
has_server-erase a (x ∷ xs) (suc i) h = ground (arith, has_server-erase a xs i)

pub AreOnce-erase : (xs : List GroupServer) (i : ℕ) → AreOnce xs → AreOnce (erase_idx xs i)
AreOnce-erase [] i h = tt
AreOnce-erase (x ∷ xs) zero h = h.1
AreOnce-erase (x ∷ xs) (suc i) h =
    ground (arith, AreOnce-erase xs i h.1, has_server-erase x.addr xs i)

pub has_server-set :
    (a : String) (x : GroupServer) (xs : List GroupServer) (i : ℕ) {y : GroupServer}
    → get_elem? xs i ≡ some y
    → has_server a (y ∷ set xs i x) ≡ has_server a (x ∷ xs)
unfolding has_server
has_server-set a x [] i h = ground arith
has_server-set a x (z ∷ zs) zero h = ground arith
has_server-set a x (z ∷ zs) (suc i) h = ground (arith, has_server-set a x zs i h)

pub AreOnce-set :
    (x : GroupServer) (xs : List GroupServer) (i : ℕ) {y : GroupServer}
    → get_elem? xs i ≡ some y
    → AreOnce (x ∷ xs)
    → AreOnce (y ∷ set xs i x)
unfolding has_server
AreOnce-set x [] i h o = ground arith
AreOnce-set x (z ∷ zs) zero h o = ground (arith, eq_iff x.addr z.addr, eq_iff z.addr x.addr)
AreOnce-set x (z ∷ zs) (suc i) {y} h o = ground (
  arith,
  AreOnce-set x zs i h,
  has_server-get zs i h,
  has_server-set z.addr x zs i h,
  eq_iff x.addr z.addr,
  eq_iff z.addr x.addr,
  eq_iff y.addr z.addr,
  eq_iff z.addr y.addr,
)

pub has_server-swap :
    (a : String) (xs : List GroupServer) (i : ℕ) → has_server a (swap_first xs i) ≡ has_server a xs
has_server-swap a [] i = refl
has_server-swap a (x ∷ xs) zero = refl
has_server-swap a (x ∷ xs) (suc i) = elim (Option-cases (get_elem? xs i)) [
  | inl e ↦ ground arith
  | inr (y, e) ↦ ground (arith, has_server-set a x xs i e)
]

pub AreOnce-swap : (xs : List GroupServer) (i : ℕ) → AreOnce xs → AreOnce (swap_first xs i)
AreOnce-swap [] i o = o
AreOnce-swap (x ∷ xs) zero o = o
AreOnce-swap (x ∷ xs) (suc i) o = elim (Option-cases (get_elem? xs i)) [
  | inl e ↦ ground arith
  | inr (y, e) ↦ ground (arith, AreOnce-set x xs i e)
]

-- The position that `GetServerIndex` returns is that of the address.
pub get-index_of :
    (addr : String) (xs : List GroupServer) {i : ℕ}
    → index_of addr xs ≡ some i
    → get_elem? xs i ≡ some (record { addr = addr })
unfolding index_of
get-index_of addr [] h = ground arith
get-index_of addr (x ∷ xs) {i = zero} h = ground (arith, eq_iff x.addr addr)
get-index_of addr (x ∷ xs) {i = suc i} h = elim (Option-cases (index_of addr xs)) [
  | inl e ↦ ground (arith, eq_iff x.addr addr)
  | inr (j, e) ↦ ground (arith, eq_iff x.addr addr, get-index_of addr xs e)
]
