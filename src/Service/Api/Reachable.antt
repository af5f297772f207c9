-- ===== src/Service/Api/Reachable.antt =====
-- What holds after any calls.
use pikamgr.Base.{
  String, Bool, List, [], ◌∷◌, ◌≡◌, refl, arith, Assoc, lookup, is_empty, erase_idx, ◌==◌, ◌∙◌,
}
use pikamgr.World.{
  World, State, Action, request, client_update, client_delete, gets, when, set_gslb,
  invalid_address, gslb_not_found, gslb_server_not_found, group_not_found, server_not_found, ◌>>◌,
}
use pikamgr.World.Keeps.{
  Keeps, Keeps-bind, Keeps-pure, Keeps-attempt, Keeps-raise_if, Keeps-gets, Keeps-or_raise,
  Keeps-when,
}
use pikamgr.Dao.{Group, Gslb, Sentinel, get_server_index}
use pikamgr.Mapper.{gslb_update, gslb_delete, sentinel_update}
use pikamgr.Service.Gslbs.{find_string, add_gslb, del_gslb, refresh_gslb_backend_info}
use pikamgr.Service.Gslbs.Frame.{refresh-groups}
use pikamgr.Service.Sentinels.{add_sentinel, del_sentinel, resync_sentinels, re_watch_sentinels}
use pikamgr.Service.Sentinels.Switch.{switch_masters-IsValid}
use pikamgr.Service.Groups.{group_force_full_sync_server}
use pikamgr.Service.Groups.Valid.{IsValid}
use pikamgr.Service.Groups.Resync.{groups-IsLocal, force_sync_at-Keeps}
use pikamgr.Service.Groups.Changes.{create_group-IsValid, remove_group-IsValid}
use pikamgr.Service.Groups.Members.{add_group_server-IsValid, del_group_server-IsValid}
use pikamgr.Service.Groups.Tracks.{resync_group-IsValid}
use pikamgr.Service.Promote.Valid.{group_promote_server-IsValid}
use pikamgr.Service.Api.{
  Call, create_group_call, remove_group_call, resync_group_call, add_group_server_call,
  del_group_server_call, promote_call, force_full_sync_call, add_sentinel_call, del_sentinel_call,
  resync_sentinels_call, switch_masters_call, add_gslb_call, del_gslb_call, stats_call,
  gslb_stats_call, refresh_call, store_stats, store_gslb_stats, tell_gslbs, perform, serve,
}

add_sentinel-groups :
    (w : World) (addr : String) (s : State) → (add_sentinel w addr s).1.groups ≡ s.groups
unfolding add_sentinel sentinel_update client_update request
add_sentinel-groups w addr s = ground arith

gslb_update-groups : (w : World) (g : Gslb) (s : State) → (gslb_update w g s).1.groups ≡ s.groups
unfolding gslb_update client_update request
gslb_update-groups w g s = ground arith

gslb_delete-groups : (w : World) (g : Gslb) (s : State) → (gslb_delete w g s).1.groups ≡ s.groups
unfolding gslb_delete client_delete request
gslb_delete-groups w g s = ground arith

sentinel_update-groups :
    (w : World) (x : Sentinel) (s : State) → (sentinel_update w x s).1.groups ≡ s.groups
unfolding sentinel_update client_update request
sentinel_update-groups w x s = ground arith

del_sentinel-groups :
    (w : World) (addr : String) (force : Bool) (s : State)
    → (del_sentinel w addr force s).1.groups ≡ s.groups
unfolding del_sentinel request
del_sentinel-groups w addr force s = grind (arith, sentinel_update-groups)

resync_sentinels-groups : (w : World) (s : State) → (resync_sentinels w s).1.groups ≡ s.groups
unfolding resync_sentinels request re_watch_sentinels
resync_sentinels-groups w s = grind (arith, sentinel_update-groups)

add_gslb-groups :
    (w : World) (name addr : String) (s : State) → (add_gslb w name addr s).1.groups ≡ s.groups
unfolding add_gslb
add_gslb-groups w name addr s = grind (arith, gslb_update-groups, refresh-groups)

module _ (w : World) (groups : Assoc Group) where
  abbrev KeepsGroups : {A : Type 0} → Action A → Type 0
  KeepsGroups m = Keeps (λ s. s.groups ≡ groups) m

  kept : {A : Type 0} (m : Action A) → ((s : State) → (m s).1.groups ≡ s.groups) → KeepsGroups m
  kept m h = record { at = λ s e. h s ∙ e }

  del_gslb-Keeps : (name addr : String) → KeepsGroups (del_gslb w name addr)
  unfolding del_gslb
  del_gslb-Keeps name addr = Keeps-bind _ _ (Keeps-raise_if (addr == "") invalid_address) (λ _.
      Keeps-bind (gets (λ s. lookup name s.gslbs)) _ (Keeps-gets _) (λ found.
        Keeps-bind _ _ (Keeps-or_raise found (gslb_not_found name)) (λ g.
          Keeps-bind _ _
            (Keeps-or_raise (find_string addr g.servers) (gslb_server_not_found name addr))
            (λ i. removed name (record g { servers = erase_idx g.servers i })))))
    where
      removed :
          (name : String) (g : Gslb)
          → KeepsGroups (
              set_gslb name g
              >> (gslb_update w g
                  >> (when (is_empty g.servers) (gslb_delete w g) >> refresh_gslb_backend_info w)))
      removed name g = Keeps-bind _ _ (kept (set_gslb name g) (λ s. refl)) (λ _.
          Keeps-bind _ _ (kept (gslb_update w g) (gslb_update-groups w g)) (λ _.
            Keeps-bind _ _
              (Keeps-when (is_empty g.servers) _ (kept (gslb_delete w g) (gslb_delete-groups w g)))
              (λ _. kept (refresh_gslb_backend_info w) (refresh-groups w))))

  force_full_sync-Keeps :
      (name addr : String) → KeepsGroups (group_force_full_sync_server w name addr)
  unfolding group_force_full_sync_server
  force_full_sync-Keeps name addr =
      Keeps-bind (gets (λ s. lookup name s.groups)) _ (Keeps-gets _) (λ found.
        Keeps-bind _ _ (Keeps-or_raise found (group_not_found name)) (λ g.
          Keeps-bind _ _ (Keeps-or_raise (get_server_index g addr) (server_not_found name addr))
            (λ i. force_sync_at-Keeps w (groups-IsLocal groups) name addr g i)))

  tell_gslbs-Keeps : KeepsGroups (tell_gslbs w)
  unfolding tell_gslbs
  tell_gslbs-Keeps =
      Keeps-bind _ _ (Keeps-attempt _ (kept (refresh_gslb_backend_info w) (refresh-groups w)))
        (λ _. Keeps-pure tt)

-- One call.
pub perform-IsValid :
    (w : World) (c : Call) (s : State) → IsValid s.groups → IsValid (perform w c s).1.groups
unfolding perform store_stats store_gslb_stats
perform-IsValid w (create_group_call name r p) s v = create_group-IsValid w name r p s v
perform-IsValid w (remove_group_call name) s v = remove_group-IsValid w name s v
perform-IsValid w (resync_group_call name) s v = resync_group-IsValid w name s v
perform-IsValid w (add_group_server_call name addr) s v = add_group_server-IsValid w name addr s v
perform-IsValid w (del_group_server_call name addr) s v = del_group_server-IsValid w name addr s v
perform-IsValid w (promote_call name addr) s v = group_promote_server-IsValid w name addr s v
perform-IsValid w (force_full_sync_call name addr) s v =
    rw ((force_full_sync-Keeps w s.groups name addr).at s refl) v
perform-IsValid w (add_sentinel_call addr) s v = rw (add_sentinel-groups w addr s) v
perform-IsValid w (del_sentinel_call addr force) s v = rw (del_sentinel-groups w addr force s) v
perform-IsValid w resync_sentinels_call s v = rw (resync_sentinels-groups w s) v
perform-IsValid w (switch_masters_call masters) s v = switch_masters-IsValid w masters s v
perform-IsValid w (add_gslb_call name addr) s v = rw (add_gslb-groups w name addr s) v
perform-IsValid w (del_gslb_call name addr) s v =
    rw ((del_gslb-Keeps w s.groups name addr).at s refl) v
perform-IsValid w (stats_call stats) s v = v
perform-IsValid w (gslb_stats_call stats) s v = v
perform-IsValid w refresh_call s v = rw ((tell_gslbs-Keeps w s.groups).at s refl) v

-- After any calls, whatever of them failed and whatever the coordinator, the servers and the
-- sentinels answered, each cached group stands under its own name, has two different ports and no
-- server twice, and no two groups share a port or a server, if that was so before.
pub serve-IsValid :
    (w : World) (cs : List Call) (s : State) → IsValid s.groups → IsValid (serve w cs s).groups
unfolding serve
serve-IsValid w [] s v = v
serve-IsValid w (c ∷ cs) s v = serve-IsValid w cs (perform w c s).1 (perform-IsValid w c s v)
