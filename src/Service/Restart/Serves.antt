-- ===== src/Service/Restart/Serves.antt =====
-- Any calls keep the cache and the coordinator together.
use pikamgr.Base.{List, [], ◌∷◌, codes}
use pikamgr.Coordinate.Plain.{IsPlain}
use pikamgr.Coordinate.Paths.{IsBaseName}
use pikamgr.Dao.{Sentinel}
use pikamgr.World.{World, State}
use pikamgr.Service.Api.{
  Call, create_group_call, remove_group_call, resync_group_call, add_group_server_call,
  del_group_server_call, promote_call, force_full_sync_call, add_sentinel_call, del_sentinel_call,
  resync_sentinels_call, switch_masters_call, add_gslb_call, del_gslb_call, stats_call,
  gslb_stats_call, refresh_call, perform, serve,
}
use pikamgr.Service.Restart.Backed.{IsBacked}
use pikamgr.Service.Restart.Writes.{IsServing, KeepsBacked}
use pikamgr.Service.Restart.Watches.{
  add_sentinel-Backed, del_sentinel-Backed, resync_sentinels-Backed,
}
use pikamgr.Service.Restart.Balancers.{
  add_gslb-Backed, del_gslb-Backed, store_stats-Backed, store_gslb_stats-Backed, tell_gslbs-Backed,
}
use pikamgr.Service.Restart.Members.{
  create_group-Backed, remove_group-Backed, resync_group-Backed, add_group_server-Backed,
  del_group_server-Backed, force_full_sync-Backed,
}
use pikamgr.Service.Restart.Masters.{switch_masters-Backed, promote-Backed}

-- A call that brings a new name brings one without a slash.
abbrev pub IsPlainCall : Call → Type 0
IsPlainCall (create_group_call name r p) = IsPlain (codes name)
IsPlainCall (add_gslb_call name addr) = IsPlain (codes name)
IsPlainCall (remove_group_call _) = Unit
IsPlainCall (resync_group_call _) = Unit
IsPlainCall (add_group_server_call _ _) = Unit
IsPlainCall (del_group_server_call _ _) = Unit
IsPlainCall (promote_call _ _) = Unit
IsPlainCall (force_full_sync_call _ _) = Unit
IsPlainCall (add_sentinel_call _) = Unit
IsPlainCall (del_sentinel_call _ _) = Unit
IsPlainCall resync_sentinels_call = Unit
IsPlainCall (switch_masters_call _) = Unit
IsPlainCall (del_gslb_call _ _) = Unit
IsPlainCall (stats_call _) = Unit
IsPlainCall (gslb_stats_call _) = Unit
IsPlainCall refresh_call = Unit

abbrev pub ArePlainCalls : List Call → Type 0
ArePlainCalls [] = Unit
ArePlainCalls (c ∷ cs) = IsPlainCall c × ArePlainCalls cs

module _ (w : World) (blank : Sentinel) (serving : IsServing w)
    (base : IsBaseName w.product_name) where
  perform-Backed : (c : Call) → IsPlainCall c → KeepsBacked w blank (perform w c)
  unfolding perform
  perform-Backed (create_group_call name r p) plain =
      create_group-Backed w blank serving base name r p plain
  perform-Backed (remove_group_call name) plain = remove_group-Backed w blank serving base name
  perform-Backed (resync_group_call name) plain = resync_group-Backed w blank serving base name
  perform-Backed (add_group_server_call name addr) plain =
      add_group_server-Backed w blank serving base name addr
  perform-Backed (del_group_server_call name addr) plain =
      del_group_server-Backed w blank serving base name addr
  perform-Backed (promote_call name addr) plain = promote-Backed w blank serving base name addr
  perform-Backed (force_full_sync_call name addr) plain =
      force_full_sync-Backed w blank serving base name addr
  perform-Backed (add_sentinel_call addr) plain = add_sentinel-Backed w blank serving base addr
  perform-Backed (del_sentinel_call addr force) plain =
      del_sentinel-Backed w blank serving base addr force
  perform-Backed resync_sentinels_call plain = resync_sentinels-Backed w blank serving base
  perform-Backed (switch_masters_call masters) plain =
      switch_masters-Backed w blank serving base masters
  perform-Backed (add_gslb_call name addr) plain =
      add_gslb-Backed w blank serving base name addr plain
  perform-Backed (del_gslb_call name addr) plain = del_gslb-Backed w blank serving base name addr
  perform-Backed (stats_call stats) plain = store_stats-Backed w blank serving base stats
  perform-Backed (gslb_stats_call stats) plain = store_gslb_stats-Backed w blank serving base stats
  perform-Backed refresh_call plain = tell_gslbs-Backed w blank serving base

  pub serve-IsBacked :
      (cs : List Call) (s : State)
      → ArePlainCalls cs
      → IsBacked w.product_name blank s
      → IsBacked w.product_name blank (serve w cs s)
  unfolding serve
  serve-IsBacked [] s plain b = b
  serve-IsBacked (c ∷ cs) s plain b =
      serve-IsBacked cs (perform w c s).1 plain.1 ((perform-Backed c plain.0).at s b)
