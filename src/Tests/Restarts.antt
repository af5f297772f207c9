-- ===== src/Tests/Restarts.antt =====
-- A restart of the dashboard at concrete calls.
use pikamgr.Base.{
  true, Bool, false, List, [], ◌∷◌, Option, none, some, ◌≡◌, refl, sym, ◌∙◌, arith, lookup,
  if◌then◌else◌, inr,
}
use pikamgr.Base.Int.{pos}
use pikamgr.Coordinate.{NodePath, path_eq, group_dir, group_path, group_node}
use pikamgr.Coordinate.Plain.{path_eq_iff}
use pikamgr.Coordinate.Paths.{group_path-IsPlain}
use pikamgr.Dao.{Group, Sentinel, Value, group_value, sentinel_value, no_promotion}
use pikamgr.World.{World, State, request, client_update}
use pikamgr.Mapper.Load.{Reader}
use pikamgr.Service.Api.{Call, create_group_call, add_group_server_call, serve, perform}
use pikamgr.Mapper.{group_create, group_update}
use pikamgr.Service.Checks.{find_conflict, is_bad_name, is_known_server}
use pikamgr.Service.Gslbs.{write_group, refresh_gslb_backend_info, refresh_names}
use pikamgr.Service.Sentinels.{out_of_sync_by_sentinel}
use pikamgr.Service.Groups.{create_group, add_group_server}
use pikamgr.Service.Restart.Backed.{IsBacked}
use pikamgr.Service.Restart.Writes.{IsServing}
use pikamgr.Service.Restart.Loads.{Reads}
use pikamgr.Service.Restart.Same.{IsRestored, serve-IsRestored}
use pikamgr.Base.{length, ltb, ◌⊎◌, lookup}
use pikamgr.Coordinate.Plain.{path_eq_refl}
use pikamgr.Dao.{get_server_index, index_of}
use pikamgr.Service.Checks.{is_active}
use pikamgr.Service.Restart.Backed.{stored_group}
use pikamgr.Service.Promote.{
  check_index, promote_from, promote_nothing, promote_preparing, promote_prepared, forget_group,
  group_promote_server,
}
use pikamgr.Service.Promote.Completes.{Holds, after_promotion}
use pikamgr.Service.Promote.Crash.{group_promote_server-resumes}
use pikamgr.Config.{validate_product}
use pikamgr.Tests.{accepting, interrupted, start}

abbrev calls : List Call
calls = create_group_call "a" (pos 9001) (pos 9002) ∷ add_group_server_call "a" "s1:6379" ∷ []

abbrev final : Group
final = record {
  name = "a";
  servers = record { addr = "s1:6379" } ∷ [];
  promoting = no_promotion;
  out_of_sync = false;
  proxy_read_port = pos 9001;
  proxy_write_port = pos 9002;
  create_time = "2018-12-27 10:00:00";
}

abbrev held : NodePath → Option Value
held q = if path_eq (group_path "p" "a") q then some (group_value final) else none

final-held : (q : NodePath) → (serve accepting calls start).store q ≡ held q
unfolding serve perform create_group group_create add_group_server out_of_sync_by_sentinel
    write_group group_update refresh_gslb_backend_info refresh_names find_conflict is_bad_name
    is_known_server client_update request
final-held q = ground arith

p-valid : validate_product "p" ≡ true
unfolding validate_product
p-valid = refl

accepting-IsServing : IsServing accepting
accepting-IsServing = record { updates = λ t p v. refl; deletes = λ t p. refl }

start-IsBacked : IsBacked "p" start.sentinel start
start-IsBacked = record {
  named = λ k g e. absurd (ground arith);
  balancers = λ k g e. absurd (ground arith);
  groups = λ k plain. refl;
  children = λ seg v e. absurd (ground arith);
  sentinel = inr (refl, refl);
}

abbrev found : Option Value → Bool → Option (Option Value)
found none must = if must then none else some none
found (some v) must = some (some v)

abbrev group_of : Option Value → Option Group
group_of (some (group_value g)) = some g
group_of _ = none

abbrev sentinel_of : Value → Option Sentinel
sentinel_of (sentinel_value x) = some x
sentinel_of _ = none

abbrev zookeeper : Reader Value
zookeeper = record {
  read = λ p must. found (held p) must;
  children = λ p must. some (group_path "p" "a" ∷ []);
  decode_group = group_of;
  decode_sentinel = sentinel_of;
  decode_gslb = λ v. none;
}

zookeeper-Reads : Reads zookeeper "p" (serve accepting calls start).store
zookeeper-Reads = record {
  read_there = λ p v must e. ground (arith, final-held p);
  read_absent = λ p e. ground (arith, final-held p);
  paths = group_path "p" "a" ∷ [];
  listed = refl;
  sound = λ q e. (
    group_node "a",
    group_value final,
    sym ((path_eq_iff (group_path "p" "a") q).0 (ground arith))
        ∙ group_path-IsPlain "p" "a" (ground arith),
    ground (arith, final-held q),
  );
  complete = λ seg v e. ground (arith, final-held (seg ∷ group_dir "p"));
  decode_group = λ g. refl;
  decode_sentinel = λ x. refl;
}

serve-IsRestored_example : IsRestored zookeeper "p" start.sentinel (serve accepting calls start)
serve-IsRestored_example =
    serve-IsRestored accepting start.sentinel calls start zookeeper accepting-IsServing p-valid
      (ground arith) start-IsBacked zookeeper-Reads

-- The group before its promotion, a coordinator that fails after two writes, and the service
-- that is started after it.
abbrev fresh : Group
fresh = record interrupted { promoting = no_promotion }

abbrev failing : World
failing = record accepting { reply = λ t e. ltb (length t) 2 }

abbrev before : State
before = record start {
  groups = ("a", fresh) ∷ [];
  store = λ q. if path_eq (group_path "p" "a") q then some (group_value fresh) else none;
}

abbrev restarted : State
restarted = record start { groups = ("a", interrupted) ∷ [] }

fresh-held : before.store (group_path "p" "a") ≡ some (group_value fresh)
fresh-held = ground (arith, path_eq_refl (group_path "p" "a"))

fresh-index : get_server_index fresh "s2:6379" ≡ some 1
unfolding get_server_index index_of
fresh-index = refl

left_behind :
    stored_group (lookup "a" restarted.groups)
    ≡ (group_promote_server failing "a" "s2:6379" before).1.store (group_path "p" "a")
unfolding group_promote_server check_index is_active promote_from promote_nothing promote_preparing
    promote_prepared forget_group group_update get_server_index index_of client_update request
left_behind = ground (arith, path_eq_refl (group_path "p" "a"))

group_promote_server-resumes_example :
    (lookup "a" restarted.groups ≡ some (after_promotion fresh 1))
    ⊎ Holds accepting "a"
        (after_promotion fresh 1)
        (group_promote_server accepting "a" "s2:6379" restarted)
group_promote_server-resumes_example =
    group_promote_server-resumes failing accepting "a" "s2:6379" 1 fresh before restarted
      (ground arith) refl refl fresh-index refl fresh-held left_behind (λ t p v. refl)
