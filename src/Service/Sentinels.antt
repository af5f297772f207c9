-- ===== src/Service/Sentinels.antt =====
-- topom/sentinel.go: the sentinels that watch the groups, and the switch of a group's master that
-- they ask for. The goroutines that `reWatchSentinels` starts are not modelled: what they do to
-- the service is one `switch_masters` for each answer.
pub mod Frame
pub mod Switch
use pikamgr.Base.{
  ℕ, suc, String, Bool, true, false, not, List, [], ◌∷◌, ◌++◌, Option, none, some, ◌==◌, ◌&&◌,
  Assoc, lookup, is_empty, erase_idx, swap_first, if◌then◌else◌,
}
use pikamgr.Dao.{Group, GroupServer, Sentinel, get_masters, index_of}
use pikamgr.World.{
  World, State, Action, Error, Result, ok, err, closed_topom, invalid_address, group_not_found,
  server_not_found, sentinel_exists, sentinel_not_found, sentinel_remove_failed, sentinel_flush,
  sentinel_remove_all, sentinel_monitor, request, gets, pure, raise, attempt, or_raise, raise_if,
  when, modify, set_group, set_sentinel, ◌>>=◌, ◌>>◌,
}
use pikamgr.Mapper.{sentinel_update}
use pikamgr.Service.Gslbs.{mem_string, find_string, write_group}

-- The cached record with its flag set in place.
abbrev pub marked : Sentinel → Sentinel
marked x = record x { out_of_sync = true }

-- The group with the server at the position in front.
abbrev pub switched : Group → ℕ → Group
switched g index = record g { servers = swap_first g.servers index; out_of_sync = true }

-- `if !force { return … }` behind a failed removal
abbrev pub unless_forced : Bool → String → Result (Unit {0}) → Action (Unit {0})
unless_forced force addr (ok _) = pure tt
unless_forced force addr (err _) = raise_if (not force) (sentinel_remove_failed addr)

-- The position of a server that reports the same run id as the asked master.
unfoldable pub index_of_run_id : (String → String) → String → List GroupServer → Option ℕ
index_of_run_id run_id master [] = none
index_of_run_id run_id master (v ∷ vs) =
    let rest = index_of_run_id run_id master vs in
    if not (run_id master == "") && run_id master == run_id v.addr
    then some 0
    else elim rest [ none ↦ none | some i ↦ some (suc i) ]

-- By address if the group has it, by run id otherwise.
unfoldable pub switch_index : (String → String) → String → List GroupServer → Option ℕ
switch_index run_id master servers = elim (index_of master servers) [
  | some i ↦ some i
  | none ↦ index_of_run_id run_id master servers
]

module _ (w : World) where
  -- An error of the mapper's `Info` does not occur: it reads the cache.
  unfoldable pub out_of_sync_by_sentinel : Action (Unit {0})
  out_of_sync_by_sentinel = do
    x ← gets (λ s. s.sentinel)
    when (not (is_empty x.servers)) (do set_sentinel (marked x); sentinel_update w (marked x))

  unfoldable pub add_sentinel : String → Action (Unit {0})
  add_sentinel addr = do
    raise_if (addr == "") invalid_address
    x ← gets (λ s. s.sentinel)
    raise_if (mem_string addr x.servers) (sentinel_exists addr)
    request w (sentinel_flush addr)
    let x' : Sentinel = record { servers = x.servers ++ addr ∷ []; out_of_sync = true }
    set_sentinel x'
    sentinel_update w x'

  unfoldable pub del_sentinel : String → Bool → Action (Unit {0})
  del_sentinel addr force = do
    raise_if (addr == "") invalid_address
    x ← gets (λ s. s.sentinel)
    index ← or_raise (find_string addr x.servers) (sentinel_not_found addr)
    set_sentinel (marked x)
    sentinel_update w (marked x)
    removed ← attempt (request w (sentinel_remove_all (addr ∷ [])))
    unless_forced force addr removed
    let x' : Sentinel = record { servers = erase_idx x.servers index; out_of_sync = true }
    set_sentinel x'
    sentinel_update w x'

  -- What `reWatchSentinels` does to the service itself.
  unfoldable pub re_watch_sentinels : List String → Action (Unit {0})
  re_watch_sentinels servers = modify λ s.
      if is_empty servers
      then record s { ha_monitor = none; ha_masters = none }
      else record s { ha_monitor = some servers }

  unfoldable pub resync_sentinels : Action (Unit {0})
  resync_sentinels = do
    masters ← gets (λ s. get_masters s.groups)
    x ← gets (λ s. s.sentinel)
    set_sentinel (marked x)
    sentinel_update w (marked x)
    attempt (request w (sentinel_remove_all x.servers))
    request w (sentinel_monitor x.servers masters)
    re_watch_sentinels x.servers
    let x' : Sentinel = record { servers = x.servers; out_of_sync = false }
    set_sentinel x'
    sentinel_update w x'

  unfoldable pub try_switch_group_master : String → String → (String → String) → Action (Unit {0})
  try_switch_group_master name master run_id = do
    found ← gets (λ s. lookup name s.groups)
    g ← or_raise found (group_not_found name)
    index ← or_raise (switch_index run_id master g.servers) (server_not_found name master)
    elim index [ ℕ.zero ↦ pure tt | suc i ↦ write_group w name (switched g (suc i)) ]

  -- The loop of `switchMasters`, which logs the errors.
  unfoldable pub switch_all : (String → String) → Assoc String → Action (Unit {0})
  switch_all run_id [] = pure tt
  switch_all run_id ((name, master) ∷ rest) = do
    attempt (try_switch_group_master name master run_id)
    switch_all run_id rest

  -- The cache of run ids lives as long as one call, so one answer for each server is used.
  unfoldable pub switch_masters : Assoc String → Action (Unit {0})
  switch_masters masters = do
    closed ← gets (λ s. s.closed)
    raise_if closed closed_topom
    modify (λ s. record s { ha_masters = some masters })
    run_id ← gets (λ s. w.run_id s.trace)
    switch_all run_id masters
