-- ===== src/Redis/Pool/Conserved.antt =====
-- No connection is lost.
use pikamgr.Base.{
  ℕ, ◌+◌, String, Bool, true, List, [], ◌∷◌, ◌++◌, Option, none, some, ◌≡◌, refl, arith, Assoc,
  lookup, insert, eqb, ◌==◌, if◌then◌else◌, Bool-cases, Option-cases, inl, inr, is_empty,
}
use pikamgr.Redis.Pool.{
  Client, Pool, Found, or_nil, take_first, get_client_from_cache, put_client, kept, dropped, sweep,
  swept, cleanup, all_clients, close,
}

-- How often the connection with a number stands in a list, in the pool's lists, and in the pool with
-- what it has closed.
abbrev pub count : ℕ → List Client → ℕ
count n [] = 0
count n (c ∷ cs) = (if eqb c.id n then 1 else 0) + count n cs

abbrev pub count_found : ℕ → Option (Option Client) → ℕ
count_found n none = 0
count_found n (some none) = 0
count_found n (some (some c)) = if eqb c.id n then 1 else 0

abbrev pub count_pool : ℕ → Assoc (List Client) → ℕ
count_pool n [] = 0
count_pool n ((addr, cs) ∷ m) = count n cs + count_pool n m

abbrev pub total : ℕ → Pool → ℕ
total n p = count_pool n p.pool + count n p.gone

count-append : (n : ℕ) (xs ys : List Client) → count n (xs ++ ys) ≡ count n xs + count n ys
count-append n [] ys = omega arith
count-append n (x ∷ xs) ys = omega (arith, count-append n xs ys)

count_pool-insert :
    (n : ℕ) (k : String) (cs : List Client) (m : Assoc (List Client))
    → count_pool n (insert k cs m) + count n (or_nil (lookup k m)) ≡ count_pool n m + count n cs
count_pool-insert n k cs [] = omega arith
count_pool-insert n k cs ((j, ds) ∷ m) = elim (Bool-cases (j == k)) [
  | inl same ↦ rw same (omega arith)
  | inr differ ↦ rw differ (omega (arith, count_pool-insert n k cs m))
]

count-take_first :
    (n : ℕ) (recyclable : Client → Bool) (cs : List Client)
    → let found = take_first recyclable cs in
      count_found n (some found.client) + count n found.rest + count n found.shut ≡ count n cs
unfolding take_first
count-take_first n recyclable [] = omega arith
count-take_first n recyclable (c ∷ cs) = elim (Bool-cases (recyclable c)) [
  | inl usable ↦ rw usable (omega arith)
  | inr stale ↦ rw stale (omega (arith, count-take_first n recyclable cs))
]

count-kept :
    (n : ℕ) (recyclable : Client → Bool) (cs : List Client)
    → count n (kept recyclable cs) + count n (dropped recyclable cs) ≡ count n cs
unfolding kept dropped
count-kept n recyclable [] = omega arith
count-kept n recyclable (c ∷ cs) = elim (Bool-cases (recyclable c)) [
  | inl usable ↦ rw usable (omega (arith, count-kept n recyclable cs))
  | inr stale ↦ rw stale (omega (arith, count-kept n recyclable cs))
]

count-is_empty : (n : ℕ) (cs : List Client) → is_empty cs ≡ true → count n cs ≡ 0
count-is_empty n [] e = refl
count-is_empty n (c ∷ cs) e = absurd (ground arith)

count-sweep :
    (n : ℕ) (recyclable : Client → Bool) (m : Assoc (List Client))
    → count_pool n (sweep recyclable m) + count n (swept recyclable m) ≡ count_pool n m
unfolding sweep swept
count-sweep n recyclable [] = omega arith
count-sweep n recyclable ((addr, cs) ∷ m) = elim (Bool-cases (is_empty (kept recyclable cs))) [
  | inl gone ↦ rw gone (
      omega (
        arith,
        count-append n (dropped recyclable cs) (swept recyclable m),
        count-kept n recyclable cs,
        count-is_empty n (kept recyclable cs) gone,
        count-sweep n recyclable m,
      ))
  | inr more ↦ rw more (
      omega (
        arith,
        count-append n (dropped recyclable cs) (swept recyclable m),
        count-kept n recyclable cs,
        count-sweep n recyclable m,
      ))
]

count-all_clients : (n : ℕ) (m : Assoc (List Client)) → count n (all_clients m) ≡ count_pool n m
unfolding all_clients
count-all_clients n [] = refl
count-all_clients n ((addr, cs) ∷ m) =
    omega (arith, count-append n cs (all_clients m), count-all_clients n m)

-- A connection that is given back is afterwards in the pool or closed, once, and no other is
-- touched.
pub total-put_client :
    (n : ℕ) (recyclable : Client → Bool) (c : Client) (p : Pool)
    → total n (put_client recyclable c p) ≡ total n p + (if eqb c.id n then 1 else 0)
unfolding put_client
total-put_client n recyclable c p =
    ground (arith, count_pool-insert n c.addr (c ∷ or_nil (lookup c.addr p.pool)) p.pool)

-- Every connection that was in the pool or closed before a call of `getClientFromCache` is so
-- afterwards, as often, but for the one that is returned, which is there once less.
pub total-get_client :
    (n : ℕ) (recyclable : Client → Bool) (addr : String) (p : Pool)
    → let (r, p') = get_client_from_cache recyclable addr p in
      total n p' + count_found n r ≡ total n p
unfolding get_client_from_cache
total-get_client n recyclable addr p = elim (Option-cases (lookup addr p.pool)) [
  | inl absent ↦ ground arith
  | inr (cs, there) ↦
      let found : Found = take_first recyclable cs in
      ground (
        arith,
        count_pool-insert n addr found.rest p.pool,
        count-append n found.shut p.gone,
        count-take_first n recyclable cs,
      )
]

-- `Cleanup` and `Close` lose no connection: each is afterwards in the pool or closed, as often as
-- before.
pub total-cleanup :
    (n : ℕ) (recyclable : Client → Bool) (p : Pool)
    → (total n (cleanup recyclable p) ≡ total n p) × (total n (close p) ≡ total n p)
unfolding cleanup close
total-cleanup n recyclable p = (
  ground (arith, count-sweep n recyclable p.pool, count-append n (swept recyclable p.pool) p.gone),
  ground (arith, count-all_clients n p.pool, count-append n (all_clients p.pool) p.gone),
)
