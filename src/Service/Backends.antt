-- ===== src/Service/Backends.antt =====
-- The views of the groups that the load balancers are given: the second half of topom/gslb.go, with
-- the two accessors of topom/stats.go that it uses.
pub mod View
use pikamgr.Base.{
  ℕ, zero, suc, String, not, ◌||◌, List, [], ◌∷◌, ◌++◌, Option, none, some, ◌==◌, Assoc, lookup,
  insert, is_empty, if◌then◌else◌,
}
use pikamgr.Base.Int.{ℤ}
use pikamgr.Dao.{
  Group, GroupServer, GslbBackend, GslbBackendGroup, ServeState, read, write, serve_state_string,
  master_of,
}
use pikamgr.World.{State, RedisStats, Result, ok, err, stats_empty, gslb_unsupported}
use pikamgr.Redis.HostPort.{split_host_port, join_host_port, itoa}
use pikamgr.Service.Sort.{sort_groups}

abbrev or_empty : Option String → String
or_empty none = ""
or_empty (some v) = v

-- `RedisStats.MasterAddr` and `RedisStats.MasterLinkStatus`
unfoldable pub master_addr : RedisStats → String
master_addr rs = or_empty (lookup "master_addr" rs.stats)

unfoldable pub master_link_status : RedisStats → String
master_link_status rs = or_empty (lookup "master_link_status" rs.stats)

-- What the loop over the servers of a group does with one of them: `continue`, leave the group out
-- altogether, or offer the server.
pub data Verdict : Type 0 where
  skip broken serve : Verdict

unfoldable pub slave_verdict : String → RedisStats → Verdict
unfolding master_addr master_link_status
slave_verdict master rs =
    if not (master_addr rs == master)
    then broken
    else if not (master_link_status rs == "up")
    then skip
    else serve

unfoldable pub polled_verdict : String → ℕ → RedisStats → Verdict
unfolding slave_verdict
polled_verdict master i rs =
    if rs.failed || rs.timeout
    then skip
    else elim i [ zero ↦ serve | suc _ ↦ slave_verdict master rs ]

unfoldable pub verdict : Assoc RedisStats → String → ℕ → String → Verdict
unfolding polled_verdict
verdict stats master i addr = elim (lookup addr stats) [
  | none ↦ skip
  | some rs ↦ polled_verdict master i rs
]

abbrev with_server : Option GslbBackend → ℤ → String → GslbBackend
with_server none port addr = record { servers = addr ∷ []; port = port }
with_server (some b) port addr = record b { servers = b.servers ++ addr ∷ [] }

-- `doFunc`
unfoldable pub add_server : ServeState → ℤ → String → Assoc GslbBackend → Assoc GslbBackend
unfolding serve_state_string
add_server state port addr sg =
    insert (serve_state_string state) (with_server (lookup (serve_state_string state) sg) port addr)
      sg

unfoldable pub offer : Group → ℕ → String → Assoc GslbBackend → Assoc GslbBackend
unfolding add_server
offer g i addr sg =
    let readable = add_server read g.proxy_read_port addr sg in
    elim i [ zero ↦ add_server write g.proxy_write_port addr readable | suc _ ↦ readable ]

-- The loop over the servers of a group from position `i`; `none` is `bValid == false`.
unfoldable pub collect :
    Assoc RedisStats → Group → ℕ → List GroupServer → Assoc GslbBackend → Option (Assoc GslbBackend)
unfolding verdict offer
collect stats g i [] sg = some sg
collect stats g i (x ∷ xs) sg = elim (verdict stats (master_of g.servers) i x.addr) [
  | skip ↦ collect stats g (suc i) xs sg
  | broken ↦ none
  | serve ↦ collect stats g (suc i) xs (offer g i x.addr sg)
]

abbrev pub add_backend :
    Group → Option (Assoc GslbBackend) → List GslbBackendGroup → List GslbBackendGroup
add_backend g none rest = rest
add_backend g (some sg) rest = record { name = g.name; server_group = sg } ∷ rest

unfoldable pub backends_of : Assoc RedisStats → List Group → List GslbBackendGroup
unfolding collect
backends_of stats [] = []
backends_of stats (g ∷ gs) =
    let rest = backends_of stats gs in
    if is_empty g.servers then rest else add_backend g (collect stats g 0 g.servers []) rest

-- The second component is `GSLBMonitors`.
unfoldable pub haproxy_backends : State → Result (List GslbBackendGroup × List String)
unfolding backends_of sort_groups
haproxy_backends s =
    if is_empty s.stats_servers
    then err stats_empty
    else ok (backends_of s.stats_servers (sort_groups s.groups), [])

abbrev add_target : Option (String × String) → String → List String → List String
add_target none port rest = rest
add_target (some (host, _)) port rest = join_host_port host port ∷ rest

-- The servers with another port; an address that cannot be split is left out.
unfoldable pub with_port : String → List String → List String
unfolding split_host_port join_host_port
with_port port [] = []
with_port port (x ∷ xs) = add_target (split_host_port x) port (with_port port xs)

abbrev port_or : Option GslbBackend → ℤ → ℤ
port_or none port = port
port_or (some b) port = b.port

unfoldable pub lvs_states : List String → Assoc GslbBackend → Assoc GslbBackend → Assoc GslbBackend
unfolding with_port itoa
lvs_states servers [] out = out
lvs_states servers ((state, v) ∷ rest) out = lvs_states servers rest (
    insert state
      (record {
        servers = with_port (itoa v.port) servers;
        port = port_or (lookup state out) v.port;
      })
      out)

unfoldable pub lvs_groups : List String → List GslbBackendGroup → List GslbBackendGroup
unfolding lvs_states
lvs_groups servers [] = []
lvs_groups servers (b ∷ bs) =
    record { name = b.name; server_group = lvs_states servers b.server_group [] }
    ∷ lvs_groups servers bs

unfoldable pub lvs_backends : String → State → Result (List GslbBackendGroup × List String)
unfolding lvs_groups
lvs_backends backend_name s = elim (lookup backend_name s.gslbs) [
  | none ↦ ok ([], [])
  | some g ↦ ok (lvs_groups g.servers g.backends, g.servers)
]

unfoldable pub get_gslb_backends : String → State → Result (List GslbBackendGroup × List String)
unfolding haproxy_backends lvs_backends
get_gslb_backends name s =
    if name == "haproxy"
    then haproxy_backends s
    else if name == "lvs"
    then lvs_backends "haproxy" s
    else err (gslb_unsupported name)
