-- ===== src/Service/Groups.antt =====
-- topom/group.go, all but the promotion of a server.
pub mod Valid
pub mod Resync
pub mod Tracks
pub mod Changes
pub mod Members
use pikamgr.Base.{
  ℕ, zero, suc, String, true, false, not, List, [], ◌∷◌, ◌++◌, ◌==◌, ◌&&◌, lookup, contains,
  is_empty, length, ltb,
}
use pikamgr.Base.Int.{ℤ, int_eq}
use pikamgr.Dao.{Group, GroupServer, no_promotion, get_server_index, master_of}
use pikamgr.World.{
  World, Action, invalid_address, invalid_group_name, ports_equal, group_exists, group_not_found,
  group_not_empty, port_conflict, server_exists, server_not_found, master_in_use, is_promoting,
  master_not_allowed, resync_failed, dial, request, gets, pure, raise, attempt, or_raise, raise_if,
  set_group, ◌>>=◌, ◌>>◌,
}
use pikamgr.Mapper.{group_create, group_update, group_remove}
use pikamgr.Redis.{set_master, force_full_sync_from_master}
use pikamgr.Service.Checks.{
  is_bad_name, new_group, find_conflict, raise_some, is_known_server, is_zero, is_active,
  with_server, without_server, sync_target, note_failure, is_failure,
}
use pikamgr.Service.Gslbs.{write_group}
use pikamgr.Service.Sentinels.{out_of_sync_by_sentinel}

module _ (w : World) where
  unfoldable pub create_group : String → ℤ → ℤ → Action (Unit {0})
  create_group name r v = do
    raise_if (is_bad_name name) invalid_group_name
    raise_if (int_eq r v) ports_equal
    groups ← gets (λ s. s.groups)
    raise_if (contains name groups) (group_exists name)
    raise_some (find_conflict r v groups) (port_conflict name)
    create_time ← gets (λ s. w.now s.trace)
    group_create w (new_group name r v create_time)

  unfoldable pub remove_group : String → Action (Unit {0})
  remove_group name = do
    found ← gets (λ s. lookup name s.groups)
    g ← or_raise found (group_not_found name)
    raise_if (not (is_empty g.servers)) (group_not_empty name)
    group_remove w g

  unfoldable pub do_sync_action : String → String → Action (Unit {0})
  do_sync_action addr master = do request w (dial addr); set_master w addr master

  unfoldable pub do_force_full_sync_action : String → String → Action (Unit {0})
  do_force_full_sync_action addr master = do
    request w (dial addr)
    force_full_sync_from_master w addr master

  -- The loop of `resyncGroup` from position `i`: the servers that failed.
  unfoldable pub sync_servers : String → ℕ → List GroupServer → Action (List String)
  sync_servers master i [] = pure []
  sync_servers master i (v ∷ vs) = do
    result ← attempt (do_sync_action v.addr (sync_target i master))
    failed ← sync_servers master (suc i) vs
    pure (note_failure result v.addr failed)

  unfoldable pub mark_out_of_sync : Group → List String → Action (Unit {0})
  mark_out_of_sync g [] = pure tt
  mark_out_of_sync g (a ∷ failed) = do
    let g' : Group = record g { out_of_sync = true }
    set_group g.name g'
    written ← attempt (group_update w g')
    raise (resync_failed (a ∷ failed) (is_failure written))

  -- `resyncGroup`; its early return for no servers is the empty loop.
  unfoldable pub resync_servers : Group → Action (Unit {0})
  resync_servers g = do
    failed ← sync_servers (master_of g.servers) 0 g.servers
    mark_out_of_sync g failed

  -- What `ResyncGroup` and each goroutine of `ResyncGroupAll` do with one group.
  unfoldable pub resync_one : String → Group → Action (Unit {0})
  resync_one name g = do
    let g' : Group = record g { out_of_sync = false }
    set_group name g'
    group_update w g'
    resync_servers g'

  unfoldable pub resync_group : String → Action (Unit {0})
  resync_group name = do
    found ← gets (λ s. lookup name s.groups)
    g ← or_raise found (group_not_found name)
    resync_one name g

  unfoldable pub add_group_server : String → String → Action (Unit {0})
  add_group_server name addr = do
    raise_if (addr == "") invalid_address
    groups ← gets (λ s. s.groups)
    raise_if (is_known_server addr groups) (server_exists addr)
    g ← or_raise (lookup name groups) (group_not_found name)
    out_of_sync_by_sentinel w
    write_group w name (with_server g addr)

  unfoldable pub del_group_server : String → String → Action (Unit {0})
  del_group_server name addr = do
    found ← gets (λ s. lookup name s.groups)
    g ← or_raise found (group_not_found name)
    index ← or_raise (get_server_index g addr) (server_not_found name addr)
    raise_if (is_zero index && ltb 1 (length g.servers)) (master_in_use name addr)
    out_of_sync_by_sentinel w
    write_group w name (without_server g index)

  unfoldable pub force_sync_at : String → String → Group → ℕ → Action (Unit {0})
  force_sync_at name addr g zero = raise (master_not_allowed name)
  force_sync_at name addr g (suc i) = do
    raise_if (is_active g.promoting) (is_promoting name)
    do_force_full_sync_action addr (master_of g.servers)

  unfoldable pub group_force_full_sync_server : String → String → Action (Unit {0})
  group_force_full_sync_server name addr = do
    found ← gets (λ s. lookup name s.groups)
    g ← or_raise found (group_not_found name)
    index ← or_raise (get_server_index g addr) (server_not_found name addr)
    force_sync_at name addr g index
