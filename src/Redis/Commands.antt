-- ===== src/Redis/Commands.antt =====
-- What a dashboard tells the sentinels: the commands of topom/client/redis/sentinel.go for watching
-- and forgetting groups, and how the results of several sentinels are gathered.
pub mod Removal
pub mod Answers
use pikamgr.Base.{
  ℕ, zero, suc, ◌+◌, ◌/◌, String, Bool, true, false, not, ◌||◌, List, [], ◌∷◌, ◌++◌, Option, none,
  some, ◌==◌, Assoc, lookup, insert, keys, map, if◌then◌else◌,
}
use pikamgr.Base.Int.{ℤ, pos, negsuc, int_eq}
use pikamgr.Redis.{Command}
use pikamgr.Redis.HostPort.{itoa}
use pikamgr.Redis.NodeName.{node_name, is_same_product}

-- What comes back for a command: an error, nil, an array of maps (`none` is an element that
-- `redigo.StringMap` refuses), or anything else.
pub data Reply : Type 0 where
  failure null other : Reply
  maps : List (Option (Assoc String)) → Reply

-- A sentinel behind a connection: its reply to a command after the commands before it, the last of
-- them first.
abbrev pub Peer : Type 0
Peer = List Command → Command → Reply

-- The use of a connection: a result, if there was no error, and the commands sent, the last first.
abbrev pub Session : Type 0 → Type 0
Session A = List Command → Option A × List Command

abbrev pub then_do : {A B : Type 0} → Session A → (A → Session B) → Session B
then_do m f sent = let (r, sent') = m sent in elim r [ none ↦ (none, sent') | some a ↦ f a sent' ]

abbrev pub is_failed : Reply → Bool
is_failed failure = true
is_failed _ = false

-- `r != nil`
abbrev pub is_found : Reply → Bool
is_found null = false
is_found _ = true

abbrev pub query : String → Command
query name = "SENTINEL" ∷ "get-master-addr-by-name" ∷ name ∷ []

abbrev pub removal : String → Command
removal name = "SENTINEL" ∷ "remove" ∷ name ∷ []

-- `client.Do`
abbrev pub do_command : Peer → Command → Session Reply
do_command peer c sent = (if is_failed (peer sent c) then none else some (peer sent c), c ∷ sent)

-- The loop of `existsCommand`; the map is filled from the front.
unfoldable pub exists_command : Peer → List String → Assoc Bool → Session (Assoc Bool)
exists_command peer [] exists sent = (some exists, sent)
exists_command peer (name ∷ names) exists sent =
    then_do (do_command peer (query name))
      (λ r. exists_command peer names (insert name (is_found r) exists)) sent

-- `Send` for each command, one `Flush`, and `Receive` for each: all commands are sent, and the first
-- failure among the replies is the error.
unfoldable pub pipeline : Peer → List Command → Session (Unit {0})
pipeline peer [] sent = (some tt, sent)
pipeline peer (c ∷ cs) sent =
    let (r, sent') = pipeline peer cs (c ∷ sent) in
    (if is_failed (peer sent c) then none else r, sent')

abbrev pub is_there : Option Bool → Bool
is_there none = false
is_there (some b) = b

unfoldable pub removals : Assoc Bool → List String → List Command
removals exists [] = []
removals exists (name ∷ names) =
    let rest = removals exists names in
    if is_there (lookup name exists) then removal name ∷ rest else rest

unfoldable pub remove_command : Peer → List String → Session (Unit {0})
remove_command peer names =
    then_do (exists_command peer names []) (λ exists. pipeline peer (removals exists names))

-- The elements of the reply to `SENTINEL masters` by group, those of other products left out.
unfoldable pub masters_of :
    String → List (Option (Assoc String)) → Assoc (Assoc String) → Option (Assoc (Assoc String))
masters_of product [] masters = some masters
masters_of product (none ∷ values) masters = none
masters_of product (some p ∷ values) masters =
    elim (is_same_product product (elim (lookup "name" p) [ none ↦ "" | some n ↦ n ])) [
      | none ↦ masters_of product values masters
      | some group ↦ masters_of product values (insert group p masters)
    ]

-- `redigo.Values` refuses what is not an array.
abbrev masters_reply : String → Reply → Option (Assoc (Assoc String))
masters_reply product (maps values) = masters_of product values []
masters_reply product _ = none

unfoldable pub masters_command : Peer → String → Session (Assoc (Assoc String))
masters_command peer product =
    then_do (do_command peer ("SENTINEL" ∷ "masters" ∷ []))
      (λ r sent. (masters_reply product r, sent))

-- What `removeGroupsDispatch` and `removeGroupsAllDispatch` do on the connection.
unfoldable pub remove_groups : Peer → String → List String → Session (Unit {0})
remove_groups peer product groups = remove_command peer (map (node_name product) groups)

unfoldable pub remove_groups_all : Peer → String → Session (Unit {0})
remove_groups_all peer product =
    then_do (masters_command peer product) (λ masters. remove_groups peer product (keys masters))

-- Durations are in nanoseconds.
pub record MonitorConfig : Type 0 where
  pub quorum : ℤ
  pub parallel_syncs : ℤ
  pub down_after : ℤ
  pub failover_timeout : ℤ
  pub notification_script : String
  pub client_reconfig_script : String

-- `int(d / time.Millisecond)`, which is cut off towards zero
abbrev pub milliseconds : ℤ → ℤ
milliseconds (pos n) = pos (n / 1000000)
milliseconds (negsuc n) = elim ((n + 1) / 1000000) [ zero ↦ pos 0 | suc m ↦ negsuc m ]

abbrev number_option : String → ℤ → ℤ → List String
number_option key tested n = if int_eq tested (pos 0) then [] else key ∷ itoa n ∷ []

abbrev text_option : String → String → List String
text_option key x = if x == "" then [] else key ∷ x ∷ []

-- A resolved address: `tcpAddr.IP.String()` and the port.
abbrev pub Address : Type 0
Address = String × ℤ

abbrev pub monitor_of : String → MonitorConfig → String × Address → Command
monitor_of product config (group, (ip, port)) =
    "SENTINEL" ∷ "monitor" ∷ node_name product group ∷ ip ∷ itoa port ∷ itoa config.quorum ∷ []

abbrev pub set_of : String → String → MonitorConfig → String × Address → Command
set_of product auth config (group, _) =
    ("SENTINEL" ∷ "set" ∷ node_name product group ∷ [])
    ++ (number_option "parallel-syncs" config.parallel_syncs config.parallel_syncs
        ++ (number_option "down-after-milliseconds" config.down_after
              (milliseconds config.down_after)
            ++ (number_option "failover-timeout" config.failover_timeout
                  (milliseconds config.failover_timeout)
                ++ (text_option "auth-pass" auth
                    ++ (text_option "notification-script" config.notification_script
                        ++ text_option "client-reconfig-script" config.client_reconfig_script)))))

-- `monitorGroupsCommand`; each of its ranges over the map takes the groups in the order of the list.
unfoldable pub monitor_groups_command :
    Peer → String → String → MonitorConfig → Assoc Address → Session (Unit {0})
monitor_groups_command peer product auth config groups =
    then_do (remove_command peer (map (node_name product) (keys groups))) (λ _.
      then_do (pipeline peer (map (monitor_of product config) groups))
        (λ _. pipeline peer (map (set_of product auth config) groups)))

-- `net.ResolveTCPAddr` for every group, up to the first that fails.
unfoldable pub resolve_all : (String → Option Address) → Assoc String → Option (Assoc Address)
resolve_all resolve [] = some []
resolve_all resolve ((group, addr) ∷ rest) =
    let others = resolve_all resolve rest in
    elim (resolve addr) [
      | none ↦ none
      | some a ↦ elim others [ none ↦ none | some found ↦ some ((group, a) ∷ found) ]
    ]

-- How `dispatch` ends: without an error, with `context.Canceled` as the cause of its error, or with
-- another error.
pub data Dispatched : Type 0 where
  served canceled refused : Dispatched

-- The `switch` behind `dispatch`: whether nil is returned.
abbrev pub is_nil : Dispatched → Bool
is_nil served = true
is_nil canceled = true
is_nil refused = false

-- What the loop over the sentinels can receive next: the result of one of them, or the end of its
-- context.
pub data Arrival : Type 0 where
  result : Dispatched → Arrival
  context_done : Arrival

-- The loop that ends `MonitorGroups`, `RemoveGroups` and `RemoveGroupsAll`, with the number of
-- sentinels that it still waits for and whether `last` is set; the result is whether nil is
-- returned. Where the list of arrivals ends, the context's deadline passes.
unfoldable pub gather : ℕ → List Arrival → Bool → Bool
gather zero arrivals failed = not failed
gather (suc n) [] failed = false
gather (suc n) (context_done ∷ arrivals) failed = false
gather (suc n) (result r ∷ arrivals) failed = gather n arrivals (failed || not (is_nil r))
