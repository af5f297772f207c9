-- ===== src/Tests/Infos.antt =====
-- The theorems on the reports of servers and on the front end at concrete inputs.
use pikamgr.Base.{
  ℕ, eqb, ltb, lookup, true, false, List, [], ◌∷◌, none, some, ◌≡◌, refl, arith, codes,
  if◌then◌else◌, mem_name,
}
use pikamgr.Coordinate.{NodePath, topom_path, path_eq}
use pikamgr.Dao.{Topom}
use pikamgr.Redis.Info.{Text, Fields, field_at, get_run_id}
use pikamgr.Redis.Info.Written.{InfoLine, field, remark, report, AreLines}
use pikamgr.Redis.Info.Full.{answer, refused, malformed, info_full, full_written, info_full-report}
use pikamgr.Base.Int.{ℤ, pos}
use pikamgr.Coordinate.{group_path}
use pikamgr.Dao.{group_value}
use pikamgr.Service.Checks.{new_group}
use pikamgr.Redis.Commands.Answers.{parse_int}
use pikamgr.Handler.{Request, group_route, put_create, ok_status, valid_port, handle}
use pikamgr.Handler.Created.{IsPort, create_request, group_create-ok}
use pikamgr.Tests.{accepting, start}
use pikamgr.Frontend.{
  TopomRead, found, missing, new_reverse_proxy, dynamic_reload, get_names, get_proxy,
}
use pikamgr.Redis.Subscribe.{done, returned, subscribe, majority_calls}
use pikamgr.Redis.Subscribe.Majority.{in_time, any_of, subscribe-in_time}
use pikamgr.Frontend.Routes.{route_of, is_routed, get_names-routes}

-- A headline, an empty line and two fields, of which one has a colon in its value.
abbrev lines : List InfoLine
lines =
    remark (codes "# Replication")
    ∷ field (codes "role") (codes "slave")
    ∷ remark []
    ∷ field (codes "master_host") (codes "s1")
    ∷ field (codes "master_port") (codes "6379")
    ∷ field (codes "slave0") (codes "ip=s2:6379")
    ∷ []

lines-AreLines : AreLines lines
unfolding pikamgr.Redis.Info.trim_left pikamgr.Redis.Info.trim_right pikamgr.Redis.Info.is_space
lines-AreLines = ground arith

info_full-report_example :
    ((v : ℤ)
      → (f : Fields) × (text : Text) × (info_full (some (report lines)) (answer v) ≡ some (text, f))
        × ((k : Text) → field_at k f ≡ full_written k lines v))
    × (info_full (some (report lines)) refused ≡ none)
    × (info_full (some (report lines)) malformed ≡ none)
info_full-report_example = info_full-report lines lines-AreLines

-- A server that cannot be reached at first.
abbrev dashboard : Topom
dashboard = record {
  start_time = "2018-12-27 10:00:00";
  admin_addr = "10.0.0.1:9001";
  product_name = "p";
  pid = 7;
  pwd = "/";
  sys = "Linux";
}

abbrev read_node : NodePath → TopomRead
read_node p = if path_eq p (topom_path "p") then found dashboard else missing

get_names-routes_example :
    let (names, r') =
      get_names 100 (dynamic_reload read_node (some ("p" ∷ "q" ∷ []))) new_reverse_proxy in
    (get_proxy "p" r' ≡ route_of read_node (some ("p" ∷ "q" ∷ [])) "p")
    × (mem_name "p" names ≡ is_routed (route_of read_node (some ("p" ∷ "q" ∷ [])) "p"))
get_names-routes_example =
    get_names-routes read_node (some ("p" ∷ "q" ∷ [])) "p" 100 new_reverse_proxy refl

-- A client that sends any word for `xauth`.
abbrev create_a : Request
create_a = create_request "anything" "a" "10001" "10002"

create_a-ok : (handle accepting create_a start).0 ≡ ok_status
unfolding handle pikamgr.Handler.group_call pikamgr.Handler.create_call pikamgr.Handler.port_of
    pikamgr.Handler.valid_port pikamgr.Service.Api.perform pikamgr.Service.Groups.create_group
    pikamgr.Mapper.group_create pikamgr.World.client_update pikamgr.World.request parse_int
    pikamgr.Service.Checks.is_bad_name pikamgr.Service.Checks.find_conflict
create_a-ok = refl

group_create-ok_example :
    (r p : ℕ) × IsPort "10001" r
    × IsPort "10002" p
    × (eqb r p ≡ false)
    × (lookup "a" start.groups ≡ none)
    × (lookup "a" (handle accepting create_a start).1.groups
        ≡ some (new_group "a" (pos r) (pos p) (accepting.now start.trace)))
    × ((handle accepting create_a start).1.store (group_path "p" "a")
        ≡ some (group_value (new_group "a" (pos r) (pos p) (accepting.now start.trace))))
group_create-ok_example = group_create-ok accepting "anything" "a" "10001" "10002" start create_a-ok

-- One of three sentinels is lost, and then another one reports a switch.
subscribe-in_time_example :
    (subscribe ("s1" ∷ "s2" ∷ "s3" ∷ []) (returned false ∷ returned true ∷ done ∷ [])
      ≡ some (any_of 2 (in_time (returned false ∷ returned true ∷ done ∷ []))))
    × (majority_calls 2 3 ≡ (if ltb 3 2 then 0 else 1))
subscribe-in_time_example =
    subscribe-in_time ("s1" ∷ "s2" ∷ "s3" ∷ []) (returned false ∷ returned true ∷ done ∷ []) 3
      (ground arith)
