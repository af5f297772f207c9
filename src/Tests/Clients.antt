-- ===== src/Tests/Clients.antt =====
-- The theorems on the paths, the clients and the loading of the caches at concrete values.
use Prim.Native.String as Text
use pikamgr.Base.{
  List, inl, inr, Bool, ◌==◌, String, false, [], ◌∷◌, none, some, ◌≡◌, refl, ◌≢◌, arith, lookup,
  ltb, codes, if◌then◌else◌, eq_iff, mem_name, Option, not, ◌&&◌,
}
use pikamgr.Redis.{Command}
use pikamgr.Base.Int.{pos, int_lt}
use pikamgr.Coordinate.{group_path, gslb_path, sentinel_path, topom_path}
use pikamgr.Coordinate.Paths.{group_path-collision}
use pikamgr.Config.{
  DashboardConfig, loaded, load_config, load_from_file, validate, validate_product,
}
use pikamgr.Config.Product.{load_config-alone}
use pikamgr.Coordinate.Plain.{IsPlain}
use pikamgr.Redis.NodeName.{
  is_same_product, node_name, is_same_product-node_name, is_same_product-extended,
}
use pikamgr.Redis.Commands.{Peer, other, null, failure, query, removal, remove_command}
use pikamgr.Redis.Commands.Removal.{Serves, remove_command-Serves}
use pikamgr.Base.{Assoc}
use pikamgr.Redis.HostPort.{join_host_port, has}
use pikamgr.Redis.NodeName.{strip_prefix, after_dash}
use pikamgr.Redis.Commands.{masters_of, masters_command, maps}
use pikamgr.Redis.Commands.Answers.{masters_dispatch, entries, master_entry, parse_int}
use pikamgr.Redis.Commands.Answers.Own.{IsNamed, masters_dispatch-IsNamed}
use pikamgr.Redis.Masters.{
  SentinelMaster, Event, answer, found, majority_of, masters, collect, add_answer, add_master,
  is_newer, finish, conclude,
}
use pikamgr.Redis.Masters.Best.{votes, heard, IsSaid, masters-newest, masters-IsSaid}

a-IsPlain : IsPlain (codes "a")
a-IsPlain = (refl, tt)

b-IsPlain : IsPlain (codes "b")
b-IsPlain = (refl, tt)

a-ne-b : ◌≢◌ {A = String} "a" "b"
a-ne-b e = cc ((eq_iff "a" "b").1 e)

-- A file that sets every value.
abbrev configured : DashboardConfig
configured = record {
  coordinator_name = "zookeeper";
  coordinator_addr = "127.0.0.1:2181";
  coordinator_auth = "";
  admin_addr = "0.0.0.0:18080";
  product_name = "codis-demo";
  product_auth = "";
  sentinel_client_timeout = pos 10000000000;
  sentinel_quorum = pos 2;
  sentinel_parallel_syncs = pos 1;
  sentinel_down_after = pos 30000000000;
  sentinel_failover_timeout = pos 300000000000;
  sentinel_notification_script = "";
  sentinel_client_reconfig_script = "";
  template_file_scan_dir = "/tmp/template";
  template_file_scan_interval = pos 30000000000;
  log_print_screen = false;
  log_file_path = "";
  log_max_size = pos 100;
  log_reserve_days = pos 7;
  log_level = "info";
}

configured-loaded :
    load_config (λ c. loaded configured) (λ c. loaded c) configured ≡ some (loaded configured)
unfolding load_config load_from_file validate validate_product
configured-loaded = refl

load_config-alone_example :
    (group_path "codis-demo" "a" ≢ group_path "codis-demo" "b")
    × (group_path "codis-demo" "a" ≢ gslb_path "haproxy" "codis-demo")
    × (group_path "codis-demo" "a" ≢ sentinel_path "codis-demo")
    × (group_path "codis-demo" "a" ≢ topom_path "codis-demo")
load_config-alone_example =
    load_config-alone (λ c. loaded configured) (λ c. loaded c) configured configured "a" "b"
      "haproxy" configured-loaded a-IsPlain b-IsPlain (ground arith) a-ne-b

group_path-collision_example : group_path "p" (Text.◌++◌ "x/../group-" "a") ≡ group_path "p" "a"
group_path-collision_example = group_path-collision "p" "a" a-IsPlain

a-ne-nil : ◌≢◌ {A = String} "a" ""
a-ne-nil e = cc e

is_same_product-node_name_example : is_same_product "p" (node_name "p" "a") ≡ some "a"
is_same_product-node_name_example = is_same_product-node_name "p" "a" a-ne-nil

is_same_product-extended_example :
    is_same_product "p" (node_name (node_name "p" "q") "a") ≡ some (node_name "q" "a")
is_same_product-extended_example = is_same_product-extended "p" "q" "a"

-- A sentinel that watches the group `a` of the product `p` until it is told to forget it.
abbrev is_removal : String → Command → Bool
is_removal name (c ∷ verb ∷ n ∷ []) = verb == "remove" && n == name
is_removal name _ = false

abbrev watches_a : List Command → String → Bool
watches_a [] name = name == "p-a"
watches_a (c ∷ sent) name = not (is_removal name c) && watches_a sent name

abbrev watching_a : Peer
watching_a sent (c ∷ verb ∷ name ∷ []) =
    if watches_a sent name then other else if verb == "remove" then failure else null
watching_a sent _ = other

watching_a-Serves : Serves watching_a watches_a
watching_a-Serves = record {
  answers = λ sent name. ground arith;
  reports = λ sent name. ground arith;
  keeps = λ sent name other. ground arith;
  serves = λ sent name k. ground arith;
  forgets = λ sent name other k. ground arith;
}

remove_command-Serves_example :
    (remove_command watching_a ("p-a" ∷ "p-b" ∷ []) []
      ≡ (some tt, removal "p-a" ∷ query "p-b" ∷ query "p-a" ∷ []))
    × ((other : String)
        → watches_a (remove_command watching_a ("p-a" ∷ "p-b" ∷ []) []).1 other
          ≡ (if mem_name other ("p-a" ∷ "p-b" ∷ []) then false else watches_a [] other))
remove_command-Serves_example =
    remove_command-Serves watching_a watches_a ("p-a" ∷ "p-b" ∷ []) [] watching_a-Serves
      (refl, (refl, tt))

-- Three sentinels, of which two answer, the second with a later epoch.
abbrev three : List String
three = "x" ∷ "y" ∷ "z" ∷ []

abbrev older : SentinelMaster
older = record { addr = "s1:6379"; epoch = pos 3 }

abbrev newer : SentinelMaster
newer = record { addr = "s2:6379"; epoch = pos 4 }

abbrev two_answers : List Event
two_answers =
    answer (some (("a", older) ∷ [])) ∷ answer none ∷ answer (some (("a", newer) ∷ [])) ∷ []

two_answers-found : masters three two_answers ≡ found (("a", "s2:6379") ∷ [])
unfolding masters collect add_answer add_master is_newer finish conclude
two_answers-found = refl

masters-newest_example :
    (ltb (votes 3 two_answers) (majority_of three) ≡ false)
    × (top : SentinelMaster) × IsSaid "a" top (heard 3 two_answers [])
    × (lookup "a" (("a", "s2:6379") ∷ []) ≡ some top.addr)
    × (int_lt top.epoch older.epoch ≡ false)
masters-newest_example =
    masters-newest three two_answers (("a", "s2:6379") ∷ []) "a" older two_answers-found
      (inr (inl (refl, refl)))

masters-IsSaid_example :
    (top : SentinelMaster) × IsSaid "a" top (heard 3 two_answers []) × (top.addr ≡ "s2:6379")
masters-IsSaid_example =
    masters-IsSaid three two_answers (("a", "s2:6379") ∷ []) "a" "s2:6379" two_answers-found refl

-- A sentinel that watches `a` of `p` and `x` of `other`.
abbrev two_products : Peer
two_products sent c = maps (
    some (("name", "p-a") ∷ ("ip", "10.0.0.1") ∷ ("port", "6379") ∷ ("config-epoch", "7") ∷ [])
    ∷ some
        (("name", "other-x") ∷ ("ip", "10.0.0.2") ∷ ("port", "6379") ∷ ("config-epoch", "1") ∷ [])
    ∷ [])

abbrev only_a : Assoc SentinelMaster
only_a = ("a", record { addr = "10.0.0.1:6379"; epoch = pos 7 }) ∷ []

two_products-only_a : (masters_dispatch two_products "p" []).0 ≡ some only_a
unfolding masters_dispatch masters_command masters_of is_same_product strip_prefix after_dash
    entries master_entry parse_int join_host_port has
two_products-only_a = refl

abbrev NamedReply : Type 0
NamedReply =
    (values : List (Option (Assoc String))) × (p : Assoc String) × (two_products []
        ("SENTINEL" ∷ "masters" ∷ [])
      ≡ maps values)
    × IsNamed "p" "a" p values
    × (master_entry p ≡ some (record { addr = "10.0.0.1:6379"; epoch = pos 7 }))

masters_dispatch-IsNamed_example : NamedReply
masters_dispatch-IsNamed_example =
    masters_dispatch-IsNamed two_products "p" [] only_a "a"
      (record { addr = "10.0.0.1:6379"; epoch = pos 7 }) two_products-only_a refl
