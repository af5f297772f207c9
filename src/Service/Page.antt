-- ===== src/Service/Page.antt =====
-- topom/service.go: the pages `Stats` and `ViewTemplateFile`; their records are those of
-- protocol/overview.go. The errors of the mappers' `Info` are always nil. Of the error of a poll the
-- model only knows whether there is one.
pub mod Shows
use pikamgr.Base.{
  ℕ, String, Bool, List, [], ◌∷◌, Option, none, some, map, Assoc, lookup, insert, values,
}
use pikamgr.Base.Int.{ℤ}
use pikamgr.Dao.{Group, GroupServer, Promoting, Sentinel, Gslb}
use pikamgr.World.{State, RedisStats, GslbStats, SentinelGroup}
use pikamgr.Service.Sort.{sort_groups, sort_template_files}

-- A group as the page shows it: without the time of its creation.
pub record GroupModel : Type 0 where
  pub name : String
  pub servers : List String
  pub promoting : Promoting
  pub out_of_sync : Bool
  pub proxy_read_port : ℤ
  pub proxy_write_port : ℤ

-- The polls as the page shows them; the record of a sentinel's group has the same two fields as that
-- of the service and is shared.
pub record RedisStatsModel : Type 0 where
  pub failed : Bool
  pub stats : Assoc String
  pub sentinel : Assoc SentinelGroup
  pub unix_time : ℤ
  pub timeout : Bool

pub record GslbStatsModel : Type 0 where
  pub failed : Bool
  pub unix_time : ℤ
  pub timeout : Bool

pub record Stats : Type 0 where
  pub closed : Bool
  pub group_models : List GroupModel
  pub group_stats : Assoc RedisStatsModel
  pub ha_model : Sentinel
  pub ha_stats : Assoc RedisStatsModel
  pub ha_masters : Assoc String
  pub gslb_models : Assoc (List String)
  pub gslb_stats : Assoc GslbStatsModel
  pub file_names : List String

abbrev pub addresses : List GroupServer → List String
addresses [] = []
addresses (v ∷ vs) = v.addr ∷ addresses vs

unfoldable pub group_model : Group → GroupModel
group_model g = record {
  name = g.name;
  servers = addresses g.servers;
  promoting = g.promoting;
  out_of_sync = g.out_of_sync;
  proxy_read_port = g.proxy_read_port;
  proxy_write_port = g.proxy_write_port;
}

-- The loop over `vv.Sentinel`.
unfoldable pub groups_shown : Assoc SentinelGroup → Assoc SentinelGroup
groups_shown [] = []
groups_shown ((k, v) ∷ rest) =
    insert k (record { master = v.master; slaves = v.slaves }) (groups_shown rest)

unfoldable pub redis_shown : RedisStats → RedisStatsModel
unfolding groups_shown
redis_shown vv = record {
  failed = vv.failed;
  stats = vv.stats;
  sentinel = groups_shown vv.sentinel;
  unix_time = vv.unix_time;
  timeout = vv.timeout;
}

unfoldable pub gslb_shown : GslbStats → GslbStatsModel
gslb_shown vv = record { failed = vv.failed; unix_time = vv.unix_time; timeout = vv.timeout }

module _ {V W : Type 0} (shown : V → W) where
  -- `if vv := stats[addr]; vv != nil` with its body.
  abbrev pub note : String → Option V → Assoc W → Assoc W
  note addr none page = page
  note addr (some v) page = insert addr (shown v) page

  -- The loop over addresses.
  unfoldable pub note_all : Assoc V → List String → Assoc W → Assoc W
  note_all stats [] page = page
  note_all stats (addr ∷ rest) page = note_all stats rest (note addr (lookup addr stats) page)

-- The loops over the groups and the load balancers.
unfoldable pub note_groups :
    Assoc RedisStats → List Group → Assoc RedisStatsModel → Assoc RedisStatsModel
unfolding note_all redis_shown
note_groups stats [] page = page
note_groups stats (g ∷ gs) page =
    note_groups stats gs (note_all redis_shown stats (addresses g.servers) page)

unfoldable pub note_gslbs :
    Assoc GslbStats → List Gslb → Assoc GslbStatsModel → Assoc GslbStatsModel
unfolding note_all gslb_shown
note_gslbs stats [] page = page
note_gslbs stats (g ∷ gs) page = note_gslbs stats gs (note_all gslb_shown stats g.servers page)

unfoldable pub model_gslbs : List Gslb → Assoc (List String) → Assoc (List String)
model_gslbs [] page = page
model_gslbs (g ∷ gs) page = model_gslbs gs (insert g.name g.servers page)

-- A copy of a map, entry by entry; a nil map has none.
unfoldable pub copied : Assoc String → Assoc String → Assoc String
copied [] page = page
copied ((name, addr) ∷ rest) page = copied rest (insert name addr page)

unfoldable pub masters_shown : Option (Assoc String) → Assoc String
unfolding copied
masters_shown none = []
masters_shown (some masters) = copied masters []

unfoldable pub stats : State → Stats
unfolding redis_shown gslb_shown group_model sort_groups sort_template_files note_all note_groups
    note_gslbs model_gslbs masters_shown
stats s = record {
  closed = s.closed;
  group_models = map group_model (sort_groups s.groups);
  group_stats = note_groups s.stats_servers (values s.groups) [];
  ha_model = s.sentinel;
  ha_stats = note_all redis_shown s.stats_servers s.sentinel.servers [];
  ha_masters = masters_shown s.ha_masters;
  gslb_models = model_gslbs (values s.gslbs) [];
  gslb_stats = note_gslbs s.stats_gslbs (values s.gslbs) [];
  file_names = sort_template_files s.tfs;
}

-- `none` is the error that there is no such file.
unfoldable pub view_template_file : String → State → Option (List ℕ)
view_template_file name s = elim (lookup name s.tfs) [ none ↦ none | some tf ↦ some tf.content ]
