-- ===== src/Service/Api.antt =====
-- The service as a whole: the calls that its handlers and its goroutines make, one after another
-- under the service's mutex.
pub mod Reachable
use pikamgr.Base.{String, Bool, List, [], ◌∷◌, Assoc}
use pikamgr.Base.Int.{ℤ}
use pikamgr.World.{World, State, RedisStats, GslbStats, Action, modify, attempt, pure, ◌>>=◌, ◌>>◌}
use pikamgr.Service.Gslbs.{add_gslb, del_gslb, refresh_gslb_backend_info}
use pikamgr.Service.Sentinels.{add_sentinel, del_sentinel, resync_sentinels, switch_masters}
use pikamgr.Service.Groups.{
  create_group, remove_group, resync_group, add_group_server, del_group_server,
  group_force_full_sync_server,
}
use pikamgr.Service.Promote.{group_promote_server}

pub data Call : Type 0 where
  create_group_call : String → ℤ → ℤ → Call
  remove_group_call resync_group_call : String → Call
  add_group_server_call del_group_server_call : String → String → Call
  promote_call force_full_sync_call : String → String → Call
  add_sentinel_call : String → Call
  del_sentinel_call : String → Bool → Call
  resync_sentinels_call : Call
  switch_masters_call : Assoc String → Call
  add_gslb_call del_gslb_call : String → String → Call
  -- what a round of `doStats` does under the mutex: one goroutine stores what the servers answered,
  -- one what the load balancers answered, and the round itself refreshes the views; nothing
  -- orders the three
  stats_call : Assoc RedisStats → Call
  gslb_stats_call : Assoc GslbStats → Call
  refresh_call : Call

module _ (w : World) where
  unfoldable pub store_stats : Assoc RedisStats → Action (Unit {0})
  store_stats stats = modify (λ s. record s { stats_servers = stats })

  unfoldable pub store_gslb_stats : Assoc GslbStats → Action (Unit {0})
  store_gslb_stats stats = modify (λ s. record s { stats_gslbs = stats })

  -- An error of the refresh is only logged.
  unfoldable pub tell_gslbs : Action (Unit {0})
  tell_gslbs = do attempt (refresh_gslb_backend_info w); pure tt

  unfoldable pub perform : Call → Action (Unit {0})
  perform (create_group_call name r p) = create_group w name r p
  perform (remove_group_call name) = remove_group w name
  perform (resync_group_call name) = resync_group w name
  perform (add_group_server_call name addr) = add_group_server w name addr
  perform (del_group_server_call name addr) = del_group_server w name addr
  perform (promote_call name addr) = group_promote_server w name addr
  perform (force_full_sync_call name addr) = group_force_full_sync_server w name addr
  perform (add_sentinel_call addr) = add_sentinel w addr
  perform (del_sentinel_call addr force) = del_sentinel w addr force
  perform resync_sentinels_call = resync_sentinels w
  perform (switch_masters_call masters) = switch_masters w masters
  perform (add_gslb_call name addr) = add_gslb w name addr
  perform (del_gslb_call name addr) = del_gslb w name addr
  perform (stats_call stats) = store_stats stats
  perform (gslb_stats_call stats) = store_gslb_stats stats
  perform refresh_call = tell_gslbs

  -- The state after the calls, those that failed included.
  unfoldable pub serve : List Call → State → State
  serve [] s = s
  serve (c ∷ cs) s = serve cs (perform c s).1
