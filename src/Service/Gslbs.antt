-- ===== src/Service/Gslbs.antt =====
-- topom/gslb.go: adding and removing load balancers, and refreshing what they are given.
pub mod Frame
pub mod Persist
use pikamgr.Base.{
  String, Bool, true, false, not, List, [], ◌∷◌, ◌++◌, Option, none, some, ◌==◌, ◌||◌, lookup, keys,
  is_empty, erase_idx, if◌then◌else◌, ℕ, suc,
}
use pikamgr.Dao.{Group, GslbBackendGroup, Gslb}
use pikamgr.World.{
  World, State, Action, gslb_not_found, gslb_server_exists, gslb_server_not_found, invalid_address,
  gets, pure, lift, attempt, or_raise, raise_if, when, set_group, set_gslb, ◌>>=◌, ◌>>◌,
}
use pikamgr.Mapper.{group_update, gslb_update, gslb_delete}
use pikamgr.Service.Backends.{get_gslb_backends}

unfoldable pub mem_string : String → List String → Bool
mem_string x [] = false
mem_string x (y ∷ ys) = y == x || mem_string x ys

-- The first position of a text; `none` is -1.
unfoldable pub find_string : String → List String → Option ℕ
find_string x [] = none
find_string x (y ∷ ys) =
    let rest = find_string x ys in
    if y == x then some 0 else elim rest [ none ↦ none | some i ↦ some (suc i) ]

-- The record that a refresh writes.
abbrev pub refreshed : String → Gslb → List GslbBackendGroup × List String → Gslb
refreshed name v (backends, monitors) = record {
  name = name;
  servers = v.servers;
  monitors = monitors;
  backends = backends;
}

abbrev pub or_new : String → Option Gslb → Gslb
or_new name none = record { name = name; servers = []; monitors = []; backends = [] }
or_new name (some g) = g

module _ (w : World) where
  -- One round of the loop of `refreshGSLBBackendInfo`: a failed write is logged only.
  unfoldable pub refresh_one : String → Option Gslb → Action (Unit {0})
  refresh_one name none = pure tt
  refresh_one name (some v) = do
    view ← (λ s. lift (get_gslb_backends name s) s)
    attempt (gslb_update w (refreshed name v view))
    pure tt

  unfoldable pub refresh_names : List String → Action (Unit {0})
  refresh_names [] = pure tt
  refresh_names (name ∷ names) = do
    v ← gets (λ s. lookup name s.gslbs)
    refresh_one name v
    refresh_names names

  unfoldable pub refresh_gslb_backend_info : Action (Unit {0})
  refresh_gslb_backend_info = do
    names ← gets (λ s. w.range_order s.trace (keys s.gslbs))
    refresh_names names

  -- `AddGSLB`. The record is changed in place, in the cache, before it is handed to the mapper.
  unfoldable pub add_gslb : String → String → Action (Unit {0})
  add_gslb gslb_name addr = do
    raise_if (addr == "") invalid_address
    g ← gets (λ s. or_new gslb_name (lookup gslb_name s.gslbs))
    set_gslb gslb_name g
    raise_if (mem_string addr g.servers) (gslb_server_exists gslb_name addr)
    let g' : Gslb = record g { servers = g.servers ++ addr ∷ [] }
    set_gslb gslb_name g'
    gslb_update w g'
    refresh_gslb_backend_info

  unfoldable pub del_gslb : String → String → Action (Unit {0})
  del_gslb gslb_name addr = do
    raise_if (addr == "") invalid_address
    found ← gets (λ s. lookup gslb_name s.gslbs)
    g ← or_raise found (gslb_not_found gslb_name)
    index ← or_raise (find_string addr g.servers) (gslb_server_not_found gslb_name addr)
    let g' : Gslb = record g { servers = erase_idx g.servers index }
    set_gslb gslb_name g'
    gslb_update w g'
    when (is_empty g'.servers) (gslb_delete w g')
    refresh_gslb_backend_info

  -- A group changed in place, handed to its mapper, and the load balancers told: how
  -- `AddGroupServer`, `DelGroupServer` and `trySwitchGroupMaster` end.
  unfoldable pub write_group : String → Group → Action (Unit {0})
  write_group name g = do set_group name g; group_update w g; refresh_gslb_backend_info
