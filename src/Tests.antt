-- ===== src/Tests.antt =====
-- The theorems at concrete states: a product `p` with a group of two servers, a coordinator that
-- takes every write and one that takes none.
pub mod Clients
pub mod Connections
pub mod Coordinators
pub mod Files
pub mod Infos
pub mod Logs
pub mod Parts
pub mod Restarts
pub mod Rounds
use Prim.Native.String as Text
use pikamgr.Base.{
  List, inl, inr, Bool, ◌==◌, ◌↔◌, is_empty, String, true, false, [], ◌∷◌, none, some, ◌≡◌, refl,
  ◌≢◌, arith, lookup, length, ltb, codes, if◌then◌else◌, eq_iff,
}
use pikamgr.Base.Int.{pos, int_lt}
use pikamgr.Coordinate.{group_path, sentinel_path, topom_path}
use pikamgr.Coordinate.Paths.{group_path-injective, group_path-apart, group_path-collision}
use pikamgr.Coordinate.Plain.{IsPlain}
use pikamgr.Mapper.{group_update, is_unchanged}
use pikamgr.Service.Checks.{is_active}
use pikamgr.Service.Sort.{sort_groups}
use pikamgr.Service.Backends.{backends_of}
use pikamgr.Dao.{get_server_index, index_of, Group, Gslb, prepared, group_value}
use pikamgr.World.{
  World, State, Error, Result, ok, err, request_failed, store_update, request, client_update,
}
use pikamgr.Redis.NodeName.{
  is_same_product, node_name, is_same_product-node_name, is_same_product-extended,
}
use pikamgr.Redis.Commands.{Peer, other, null, query, removal, remove_command}
use pikamgr.Redis.Commands.Removal.{Serves, remove_command-Serves}
use pikamgr.Redis.Masters.{
  SentinelMaster, Event, answer, found, majority_of, masters, collect, add_answer, add_master,
  is_newer, finish, conclude,
}
use pikamgr.Redis.Masters.Best.{votes, heard, IsSaid, masters-newest, masters-IsSaid}
use pikamgr.Mapper.Load.{
  Reader, read_group, read_groups, load_groups, read_gslbs, read_all_gslbs, load_gslbs,
}
use mathlib.Core.List.{Perm}
use pikamgr.Base.{Assoc}
use pikamgr.World.{RedisStats}
use pikamgr.Service.Page.{stats}
use pikamgr.Service.Page.Shows.{IsPageOf, stats-IsPageOf}
use pikamgr.Service.Backends.View.{is_fit, fit_servers, behind, collect-View}
use pikamgr.Service.Backends
use pikamgr.Dao.{GslbBackend, master_of}
use pikamgr.Service.Gslbs.{mem_string, add_gslb, write_group}
use pikamgr.Service.Gslbs.Frame.{write_group-lookup}
use pikamgr.Service.Gslbs.Persist.{IsCurrent, add_gslb-unwritten}
use pikamgr.Service.Groups.Valid.{IsValid}
use pikamgr.Service.Promote.{group_promote_server, resync_group_all, resync_each, Wait}
use pikamgr.Service.Groups.{resync_one}
use pikamgr.Service.Promote.Completes.{Holds, after_promotion, group_promote_server-Holds}
use pikamgr.Service.Promote.Resume.{IsStuck, group_promote_server-IsStuck}
use pikamgr.Service.Promote.Blocked.{IsFuture, AllFail, resync_group_all-AllFail}
use pikamgr.Service.Api.{
  serve, create_group_call, add_group_server_call, promote_call, resync_group_call,
}
use pikamgr.Service.Api.Reachable.{serve-IsValid}

-- Everything outside answers; the two worlds differ in whether it serves the requests.
abbrev pub accepting : World
accepting = record {
  product_name = "p";
  product_auth = "";
  reply = λ t e. true;
  now = λ t. "2018-12-27 10:00:00";
  run_id = λ t addr. "";
  range_order = λ t ks. ks;
}

abbrev pub refusing : World
refusing = record accepting { reply = λ t e. false }

abbrev pub start : State
start = record {
  groups = [];
  sentinel = record { servers = []; out_of_sync = false };
  gslbs = [];
  tfs = [];
  stats_servers = [];
  stats_gslbs = [];
  ha_masters = none;
  ha_monitor = none;
  closed = false;
  store = λ q. none;
  trace = [];
}

start-IsValid : IsValid start.groups
start-IsValid = record {
  sound = λ k g e. absurd (ground arith);
  apart = λ j k g h ne p q. absurd (ground arith);
}

serve-IsValid_example :
    IsValid
      (serve accepting
        (create_group_call "a" (pos 9001) (pos 9002)
          ∷ create_group_call "b" (pos 9002) (pos 9003)
          ∷ add_group_server_call "a" "s1:6379"
          ∷ add_group_server_call "a" "s2:6379"
          ∷ promote_call "a" "s2:6379"
          ∷ resync_group_call "a"
          ∷ [])
        start).groups
serve-IsValid_example = serve-IsValid accepting _ start start-IsValid

-- A group whose promotion of the second server was prepared and then interrupted.
abbrev pub interrupted : Group
interrupted = record {
  name = "a";
  servers = record { addr = "s1:6379" } ∷ record { addr = "s2:6379" } ∷ [];
  promoting = record { index = 1; state = prepared };
  out_of_sync = false;
  proxy_read_port = pos 9001;
  proxy_write_port = pos 9002;
  create_time = "2018-12-27 10:00:00";
}

abbrev with_interrupted : State
with_interrupted = record start { groups = ("a", interrupted) ∷ [] }

second-index : get_server_index interrupted "s2:6379" ≡ some 1
unfolding get_server_index index_of
second-index = refl

group_promote_server-Holds_example :
    Holds accepting "a"
      (after_promotion interrupted 1)
      (group_promote_server accepting "a" "s2:6379" with_interrupted)
group_promote_server-Holds_example =
    group_promote_server-Holds accepting "a" "s2:6379" 1 interrupted with_interrupted
      (λ t p v. refl) refl refl second-index refl

-- A group that was created a day later.
abbrev later : Group
later = record interrupted { name = "b"; create_time = "2018-12-28 10:00:00" }

-- The group after the second server was deleted in the middle of its promotion.
abbrev stranded : Group
stranded = record interrupted { servers = record { addr = "s1:6379" } ∷ [] }

stranded-IsStuck : IsStuck stranded
unfolding is_active
stranded-IsStuck = record { active = refl; outside = ground arith }

group_promote_server-IsStuck_example :
    let s = record start { groups = ("a", stranded) ∷ [] } in
    (e : Error) × (group_promote_server accepting "a" "s1:6379" s ≡ (err e, s))
group_promote_server-IsStuck_example =
    group_promote_server-IsStuck accepting "a" "s1:6379" stranded
      (record start { groups = ("a", stranded) ∷ [] }) refl stranded-IsStuck

-- A future that waits for as many calls as were announced.
abbrev counting : Wait
counting n calls = if ltb (length calls) n then none else some calls

counting-IsFuture : IsFuture counting
counting-IsFuture = record {
  returns = λ calls. ground arith;
  blocks = λ n calls less. ground arith;
}

abbrev refused : Result (Unit {0})
refused = err (request_failed (store_update (group_path "p" "a") (group_value interrupted)))

all_refused : (resync_group_all refusing counting with_interrupted).0 ≡ ok (some refused)
unfolding resync_group_all resync_each resync_one group_update is_unchanged client_update request
all_refused = refl

resync_group_all-AllFail_example : AllFail refusing with_interrupted.groups with_interrupted
resync_group_all-AllFail_example =
    resync_group_all-AllFail refusing counting with_interrupted refused counting-IsFuture
      all_refused

abbrev haproxy : Gslb
haproxy = record { name = "haproxy"; servers = "10.0.0.1:80" ∷ []; monitors = []; backends = [] }

abbrev with_haproxy : State
with_haproxy = record start {
  gslbs = ("haproxy", haproxy) ∷ [];
  stats_servers =
      (
        "s1:6379",
        record { failed = true; stats = []; sentinel = []; unix_time = pos 0; timeout = false },
      )
      ∷ [];
}

haproxy-IsCurrent : IsCurrent haproxy with_haproxy
unfolding backends_of sort_groups
haproxy-IsCurrent = record {
  name = refl;
  alone = refl;
  polled = refl;
  monitors = refl;
  backends = refl;
}

second-is_fresh : mem_string "10.0.0.2:80" haproxy.servers ≡ false
unfolding mem_string
second-is_fresh = refl

add_gslb-unwritten_example :
    let (r, s') = add_gslb accepting "haproxy" "10.0.0.2:80" with_haproxy in
    (r ≡ ok tt)
    × (lookup "haproxy" s'.gslbs
        ≡ some (record haproxy { servers = "10.0.0.1:80" ∷ "10.0.0.2:80" ∷ [] }))
    × (s'.trace ≡ [])
    × (s'.store ≡ with_haproxy.store)
add_gslb-unwritten_example =
    add_gslb-unwritten accepting "10.0.0.2:80" haproxy with_haproxy haproxy-IsCurrent refl
      second-is_fresh

stats-IsPageOf_example : IsPageOf with_haproxy (stats with_haproxy)
stats-IsPageOf_example = stats-IsPageOf with_haproxy

-- Both servers are polled, and the second follows the first.
abbrev polled : Assoc RedisStats
polled =
    (
      "s1:6379",
      record { failed = false; stats = []; sentinel = []; unix_time = pos 0; timeout = false },
    )
    ∷ (
      "s2:6379",
      record {
        failed = false;
        stats = ("master_addr", "s1:6379") ∷ ("master_link_status", "up") ∷ [];
        sentinel = [];
        unix_time = pos 0;
        timeout = false;
      },
    )
    ∷ []

abbrev shown : Assoc GslbBackend
shown =
    ("Read", record { servers = "s1:6379" ∷ "s2:6379" ∷ []; port = pos 9001 })
    ∷ ("Write", record { servers = "s1:6379" ∷ []; port = pos 9002 })
    ∷ []

polled-shown : Backends.collect polled interrupted 0 interrupted.servers [] ≡ some shown
unfolding Backends.collect master_of
polled-shown = refl

collect-View_example :
    (lookup "Read" shown
      ≡ behind
          (pos 9001)
          (fit_servers polled (master_of interrupted.servers) 0 interrupted.servers))
    × (lookup "Write" shown ≡ (
        if is_fit polled (master_of interrupted.servers) 0 "s1:6379"
        then some (record { servers = "s1:6379" ∷ []; port = pos 9002 })
        else none))
collect-View_example =
    collect-View polled interrupted (record { addr = "s1:6379" }) (record { addr = "s2:6379" } ∷ [])
      shown polled-shown
