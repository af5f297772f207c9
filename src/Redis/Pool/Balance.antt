-- ===== src/Redis/Pool/Balance.antt =====
-- The account of a pool over any calls: what it was given is what it holds, closed or handed out.
use pikamgr.Base.{ℕ, ◌+◌, eqb, true, List, [], ◌∷◌, ◌≡◌, refl, arith, if◌then◌else◌}
use pikamgr.Redis.Pool.{Pool, new_pool, get_client_from_cache}
use pikamgr.Redis.Pool.Conserved.{
  count_found, total, total-put_client, total-get_client, total-cleanup,
}
use pikamgr.Redis.Pool.Filed.{
  PoolCall, put_call, get_call, cleanup_call, close_call, pool_step, run_pool,
}

-- How often a connection is given to the pool by a call, and handed out by it.
abbrev pub given : ℕ → PoolCall → ℕ
given n (put_call recyclable c) = if eqb c.id n then 1 else 0
given n (get_call recyclable addr) = 0
given n (cleanup_call recyclable) = 0
given n close_call = 0

abbrev pub handed_out : ℕ → PoolCall → Pool → ℕ
handed_out n (put_call recyclable c) p = 0
handed_out n (get_call recyclable addr) p =
    count_found n (get_client_from_cache recyclable addr p).0
handed_out n (cleanup_call recyclable) p = 0
handed_out n close_call p = 0

abbrev pub all_given : ℕ → List PoolCall → ℕ
all_given n [] = 0
all_given n (call ∷ calls) = given n call + all_given n calls

abbrev pub all_handed_out : ℕ → List PoolCall → Pool → ℕ
all_handed_out n [] p = 0
all_handed_out n (call ∷ calls) p = handed_out n call p + all_handed_out n calls (pool_step call p)

total-pool_step :
    (n : ℕ) (call : PoolCall) (p : Pool)
    → total n (pool_step call p) + handed_out n call p ≡ total n p + given n call
unfolding pool_step
total-pool_step n (put_call recyclable c) p = omega (arith, total-put_client n recyclable c p)
total-pool_step n (get_call recyclable addr) p = omega (arith, total-get_client n recyclable addr p)
total-pool_step n (cleanup_call recyclable) p = omega (arith, (total-cleanup n recyclable p).0)
total-pool_step n close_call p = omega (arith, (total-cleanup n (λ c. true) p).1)

total-run_pool :
    (n : ℕ) (calls : List PoolCall) (p : Pool)
    → total n (run_pool calls p) + all_handed_out n calls p ≡ total n p + all_given n calls
unfolding run_pool
total-run_pool n [] p = refl
total-run_pool n (call ∷ calls) p =
    omega (arith, total-pool_step n call p, total-run_pool n calls (pool_step call p))

-- Over any calls on a new pool no connection is lost and none is handed out twice: as often as a
-- connection was given back, it is now in the pool, closed by the pool, or was handed out.
pub run_pool-total :
    (n : ℕ) (calls : List PoolCall)
    → total n (run_pool calls new_pool) + all_handed_out n calls new_pool ≡ all_given n calls
run_pool-total n calls = omega (arith, total-run_pool n calls new_pool)
