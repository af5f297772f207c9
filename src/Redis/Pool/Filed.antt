-- ===== src/Redis/Pool/Filed.antt =====
-- A connection is kept under its own address.
use pikamgr.Base.{
  String, Bool, true, false, List, [], ◌∷◌, some, ◌≡◌, refl, subst, sym, arith, Assoc, lookup,
  insert, not, ◌||◌, ◌++◌, ◌==◌, eq_iff, Bool-cases, Option-cases, inl, inr, is_empty,
}
use pikamgr.Redis.Pool.{
  Client, Pool, Found, new_pool, or_nil, take_first, get_client_from_cache, put_client, kept, sweep,
  swept, all_clients, cleanup, close,
}

-- The calls that change a pool.
pub data PoolCall : Type 0 where
  put_call : (Client → Bool) → Client → PoolCall
  get_call : (Client → Bool) → String → PoolCall
  cleanup_call : (Client → Bool) → PoolCall
  close_call : PoolCall

unfoldable pub pool_step : PoolCall → Pool → Pool
pool_step (put_call recyclable c) p = put_client recyclable c p
pool_step (get_call recyclable addr) p = (get_client_from_cache recyclable addr p).1
pool_step (cleanup_call recyclable) p = cleanup recyclable p
pool_step close_call p = close p

unfoldable pub run_pool : List PoolCall → Pool → Pool
run_pool [] p = p
run_pool (call ∷ calls) p = run_pool calls (pool_step call p)

abbrev AllAt : String → List Client → Type 0
AllAt addr [] = Unit
AllAt addr (c ∷ cs) = (c.addr ≡ addr) × AllAt addr cs

abbrev AllFiled : Assoc (List Client) → Type 0
AllFiled [] = Unit
AllFiled ((addr, cs) ∷ m) = AllAt addr cs × AllFiled m

record IsFiled (p : Pool) : Type 0 where
  filed : AllFiled p.pool
  emptied : p.closed ≡ true → p.pool ≡ []

insert-AllFiled :
    (k : String) (cs : List Client) (m : Assoc (List Client))
    → AllAt k cs
    → AllFiled m
    → AllFiled (insert k cs m)
insert-AllFiled k cs [] h all = (h, tt)
insert-AllFiled k cs ((j, ds) ∷ m) h (at, all) = elim (Bool-cases (j == k)) [
  | inl same ↦ rw same (subst (λ a. AllAt a cs) (sym ((eq_iff j k).0 same)) h, all)
  | inr differ ↦ rw differ (at, insert-AllFiled k cs m h all)
]

lookup-AllAt : (k : String) (m : Assoc (List Client)) → AllFiled m → AllAt k (or_nil (lookup k m))
lookup-AllAt k [] all = tt
lookup-AllAt k ((j, ds) ∷ m) (at, all) = elim (Bool-cases (j == k)) [
  | inl same ↦ rw same (subst (λ a. AllAt a ds) ((eq_iff j k).0 same) at)
  | inr differ ↦ rw differ (lookup-AllAt k m all)
]

take_first-AllAt :
    (recyclable : Client → Bool) (addr : String) (cs : List Client)
    → AllAt addr cs
    → AllAt addr (take_first recyclable cs).rest
unfolding take_first
take_first-AllAt recyclable addr [] all = tt
take_first-AllAt recyclable addr (c ∷ cs) (here, all) = elim (Bool-cases (recyclable c)) [
  | inl usable ↦ rw usable all
  | inr stale ↦ rw stale (take_first-AllAt recyclable addr cs all)
]

take_first-client :
    (recyclable : Client → Bool) (addr : String) (cs : List Client) (c : Client)
    → AllAt addr cs
    → (take_first recyclable cs).client ≡ some c
    → (c.addr ≡ addr) × (recyclable c ≡ true)
unfolding take_first
take_first-client recyclable addr [] c all e = absurd (ground arith)
take_first-client recyclable addr (d ∷ cs) c (here, all) e = elim (Bool-cases (recyclable d)) [
  | inl usable ↦
      let same : d ≡ c = ground arith in
      subst (λ x. (x.addr ≡ addr) × (recyclable x ≡ true)) same (here, usable)
  | inr stale ↦ take_first-client recyclable addr cs c all (ground arith)
]

kept-AllAt :
    (recyclable : Client → Bool) (addr : String) (cs : List Client)
    → AllAt addr cs
    → AllAt addr (kept recyclable cs)
unfolding kept
kept-AllAt recyclable addr [] all = tt
kept-AllAt recyclable addr (c ∷ cs) (here, all) = elim (Bool-cases (recyclable c)) [
  | inl usable ↦ rw usable (here, kept-AllAt recyclable addr cs all)
  | inr stale ↦ rw stale (kept-AllAt recyclable addr cs all)
]

sweep-AllFiled :
    (recyclable : Client → Bool) (m : Assoc (List Client))
    → AllFiled m
    → AllFiled (sweep recyclable m)
unfolding sweep
sweep-AllFiled recyclable [] all = tt
sweep-AllFiled recyclable ((addr, cs) ∷ m) (at, all) =
    elim (Bool-cases (is_empty (kept recyclable cs))) [
      | inl gone ↦ rw gone (sweep-AllFiled recyclable m all)
      | inr more ↦ rw more (kept-AllAt recyclable addr cs at, sweep-AllFiled recyclable m all)
    ]

gone-IsFiled : (p : Pool) (cs : List Client) → IsFiled p → IsFiled (record p { gone = cs })
gone-IsFiled p cs h = record { filed = h.filed; emptied = h.emptied }

-- Another pool in place of the old one, while it is open.
open-IsFiled :
    (p : Pool) (m : Assoc (List Client)) (cs : List Client)
    → p.closed ≡ false
    → AllFiled m
    → IsFiled (record p { pool = m; gone = cs })
open-IsFiled p m cs open_ all = record { filed = all; emptied = λ e. absurd (ground arith) }

put-IsFiled :
    (recyclable : Client → Bool) (c : Client) (p : Pool)
    → IsFiled p
    → IsFiled (put_client recyclable c p)
unfolding put_client
put-IsFiled recyclable c p h = elim (Bool-cases (not (recyclable c) || p.closed)) [
  | inl away ↦ rw away (gone-IsFiled p (c ∷ p.gone) h)
  | inr in_use ↦ rw in_use (
      open-IsFiled p _ p.gone (ground arith) (
        insert-AllFiled c.addr (c ∷ or_nil (lookup c.addr p.pool)) p.pool
          (refl, lookup-AllAt c.addr p.pool h.filed) h.filed))
]

get-IsFiled :
    (recyclable : Client → Bool) (addr : String) (p : Pool)
    → IsFiled p
    → IsFiled (get_client_from_cache recyclable addr p).1
unfolding get_client_from_cache
get-IsFiled recyclable addr p h = elim (Bool-cases p.closed) [
  | inl shut ↦ subst IsFiled (ground arith) h
  | inr open_ ↦ elim (Option-cases (lookup addr p.pool)) [
    | inl absent ↦ subst IsFiled (ground arith) h
    | inr (cs, there) ↦
        let found : Found = take_first recyclable cs in
        let at : AllAt addr cs = rw there at (lookup-AllAt addr p.pool h.filed) in
        subst IsFiled (ground arith) (
          open-IsFiled p (insert addr found.rest p.pool) (found.shut ++ p.gone) open_ (
            insert-AllFiled addr found.rest p.pool (take_first-AllAt recyclable addr cs at)
              h.filed))
  ]
]

cleanup-IsFiled :
    (recyclable : Client → Bool) (p : Pool) → IsFiled p → IsFiled (cleanup recyclable p)
unfolding cleanup
cleanup-IsFiled recyclable p h = elim (Bool-cases p.closed) [
  | inl shut ↦ subst IsFiled (ground arith) h
  | inr open_ ↦ subst IsFiled (ground arith) (
      open-IsFiled p (sweep recyclable p.pool) (swept recyclable p.pool ++ p.gone) open_
        (sweep-AllFiled recyclable p.pool h.filed))
]

close-IsFiled : (p : Pool) → IsFiled p → IsFiled (close p)
unfolding close
close-IsFiled p h = elim (Bool-cases p.closed) [
  | inl shut ↦ subst IsFiled (ground arith) h
  | inr open_ ↦
      let shut : Pool = record { closed = true; pool = []; gone = all_clients p.pool ++ p.gone } in
      let filed : IsFiled shut = record { filed = tt; emptied = λ e. refl } in
      subst IsFiled (ground arith) filed
]

step-IsFiled : (call : PoolCall) (p : Pool) → IsFiled p → IsFiled (pool_step call p)
unfolding pool_step
step-IsFiled (put_call recyclable c) p h = put-IsFiled recyclable c p h
step-IsFiled (get_call recyclable addr) p h = get-IsFiled recyclable addr p h
step-IsFiled (cleanup_call recyclable) p h = cleanup-IsFiled recyclable p h
step-IsFiled close_call p h = close-IsFiled p h

run-IsFiled : (calls : List PoolCall) (p : Pool) → IsFiled p → IsFiled (run_pool calls p)
unfolding run_pool
run-IsFiled [] p h = h
run-IsFiled (call ∷ calls) p h = run-IsFiled calls (pool_step call p) (step-IsFiled call p h)

new_pool-IsFiled : IsFiled new_pool
new_pool-IsFiled = record { filed = tt; emptied = λ e. refl }

-- After any calls on a new pool, a connection that the pool returns is one to the address asked for
-- and can be used again.
pub get_client-addr :
    (calls : List PoolCall) (recyclable : Client → Bool) (addr : String) (c : Client)
    → (get_client_from_cache recyclable addr (run_pool calls new_pool)).0 ≡ some (some c)
    → (c.addr ≡ addr) × (recyclable c ≡ true)
unfolding get_client_from_cache
get_client-addr calls recyclable addr c e =
    let p : Pool = run_pool calls new_pool in
    let h : IsFiled p = run-IsFiled calls new_pool new_pool-IsFiled in
    elim (Bool-cases p.closed) [
      | inl shut ↦ absurd (ground arith)
      | inr open_ ↦ elim (Option-cases (lookup addr p.pool)) [
        | inl absent ↦ absurd (ground arith)
        | inr (cs, there) ↦
            let at : AllAt addr cs = rw there at (lookup-AllAt addr p.pool h.filed) in
            take_first-client recyclable addr cs c at (ground arith)
      ]
    ]
