-- ===== src/Service/Polls.antt =====
-- The polling of topom/stats.go: which servers a round asks, and what it makes of their answers.
-- The connections are not modelled: an answer is what a goroutine's `do` returns, and whether it
-- returned in time.
pub mod Offered
use pikamgr.Base.{
  ℕ, String, Bool, true, false, List, [], ◌∷◌, ◌++◌, Option, none, some, ◌≡◌, ◌==◌, Assoc, lookup,
  length, values, if◌then◌else◌,
}
use pikamgr.Base.Int.{ℤ, pos}
use pikamgr.Dao.{Group, GroupServer, Gslb}
use pikamgr.World.{State, RedisStats, GslbStats, SentinelGroup}

-- What the poll of one address meets: nothing in time, an error, or the fields of INFO with
-- the groups that a sentinel names.
pub data Answer : Type 0 where
  late failed : Answer
  answered : Assoc String → Assoc SentinelGroup → Answer

-- `newRedisStats`: its `select` takes the channel or the timeout.
unfoldable pub new_redis_stats : Answer → RedisStats
new_redis_stats late = record {
  failed = false;
  stats = [];
  sentinel = [];
  unix_time = pos 0;
  timeout = true;
}
new_redis_stats failed = record {
  failed = true;
  stats = [];
  sentinel = [];
  unix_time = pos 0;
  timeout = false;
}
new_redis_stats (answered m groups) = record {
  failed = false;
  stats = m;
  sentinel = groups;
  unix_time = pos 0;
  timeout = false;
}

-- `newGSLBStats`; what a load balancer answers is not kept.
unfoldable pub new_gslb_stats : Answer → GslbStats
new_gslb_stats late = record { failed = false; unix_time = pos 0; timeout = true }
new_gslb_stats failed = record { failed = true; unix_time = pos 0; timeout = false }
new_gslb_stats (answered m groups) = record { failed = false; unix_time = pos 0; timeout = false }

-- The clock, by the answers that are still to come.
abbrev pub Clock : Type 0
Clock = List (String × Answer) → ℤ

-- What the goroutines of `goStats` give to `Done`.
unfoldable pub redis_done : Clock → List (String × Answer) → Answer → RedisStats
unfolding new_redis_stats
redis_done clock rest r = record (new_redis_stats r) { unix_time = clock rest }

unfoldable pub gslb_done : Clock → List (String × Answer) → Answer → GslbStats
unfolding new_gslb_stats
gslb_done clock rest r = record (new_gslb_stats r) { unix_time = clock rest }

abbrev addresses : List GroupServer → List String
addresses [] = []
addresses (x ∷ xs) = x.addr ∷ addresses xs

unfoldable pub group_targets : List Group → List String
group_targets [] = []
group_targets (g ∷ gs) = addresses g.servers ++ group_targets gs

-- The calls of `goStats` in `refreshRedisStats`.
unfoldable pub redis_targets : State → List String
unfolding group_targets
redis_targets s = group_targets (values s.groups) ++ s.sentinel.servers

unfoldable pub gslb_targets_of : List Gslb → List String
gslb_targets_of [] = []
gslb_targets_of (g ∷ gs) = g.servers ++ gslb_targets_of gs

-- The calls of `goStats` in `refreshGSLBStats`.
unfoldable pub gslb_targets : State → List String
unfolding gslb_targets_of
gslb_targets s = gslb_targets_of (values s.gslbs)

-- `sync2.Future` is another project's: what `Wait` returns after a number of calls of `Add` and the
-- given calls of `Done`, `none` if it never returns.
abbrev pub WaitFor : Type 0 → Type 0
WaitFor A = ℕ → List (String × A) → Option (Assoc A)

abbrev pub done_calls :
    {A : Type 0}
    → (List (String × Answer) → Answer → A)
    → List (String × Answer)
    → List (String × A)
done_calls make [] = []
done_calls make ((addr, r) ∷ rest) = (addr, make rest r) ∷ done_calls make rest

-- The map that the goroutine behind the calls stores, from the answers in the order in which they came.
unfoldable pub refresh_redis_stats :
    WaitFor RedisStats → Clock → List String → List (String × Answer) → Option (Assoc RedisStats)
unfolding redis_done
refresh_redis_stats wait clock targets answers =
    wait (length targets) (done_calls (redis_done clock) answers)

unfoldable pub refresh_gslb_stats :
    WaitFor GslbStats → Clock → List String → List (String × Answer) → Option (Assoc GslbStats)
unfolding gslb_done
refresh_gslb_stats wait clock targets answers =
    wait (length targets) (done_calls (gslb_done clock) answers)
