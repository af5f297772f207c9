-- ===== src/World.antt =====
-- What the dashboard's service keeps, what it does to the outside, and the shape of its methods.
-- The mutex of the service serialises the methods, so a method is one action on the state.
pub mod Keeps
pub mod Runs
use pikamgr.Base.{
  ℕ, String, Bool, true, false, List, [], ◌∷◌, Option, none, some, Assoc, insert, erase,
  if◌then◌else◌,
}
use pikamgr.Base.Int.{ℤ}
use pikamgr.Dao.{TemplateFile, Group, Sentinel, Gslb, Value}
use pikamgr.Coordinate.{NodePath, path_eq}

-- A request to something outside of the process.
pub data Effect : Type 0 where
  -- the coordinator: `Client.Update` and `Client.Delete`
  store_update : NodePath → Value → Effect
  store_delete : NodePath → Effect
  -- a redis server: a connection, and a command with its arguments
  dial : String → Effect
  redis_do : String → List String → Effect
  -- the sentinels: `FlushConfig`, `RemoveGroups`, `RemoveGroupsAll` and `MonitorGroups`
  sentinel_flush : String → Effect
  sentinel_remove : List String → List String → Effect
  sentinel_remove_all : List String → Effect
  sentinel_monitor : List String → Assoc String → Effect
  -- the directory of the template files, and a file in it
  make_dir : Effect
  file_write : String → List ℕ → Effect

-- What the service cannot decide: the configuration, and the answers of the outside, each of which
-- may depend on all that was requested before (the last request first).
pub record World : Type 0 where
  pub product_name : String
  pub product_auth : String
  -- whether a request succeeds
  pub reply : List Effect → Effect → Bool
  -- the text of the current time
  pub now : List Effect → String
  -- the `run_id` that a server reports, "" if it reports none
  pub run_id : List Effect → String → String
  -- the order in which a range over a map takes its keys
  pub range_order : List Effect → List String → List String

-- What a sentinel says of one group: its master, and its slaves.
pub record SentinelGroup : Type 0 where
  pub master : Assoc String
  pub slaves : List (Assoc String)

-- What the last poll found of one server: `Error != nil`, the fields of INFO, the groups if it is a
-- sentinel, the time in seconds, `Timeout`.
pub record RedisStats : Type 0 where
  pub failed : Bool
  pub stats : Assoc String
  pub sentinel : Assoc SentinelGroup
  pub unix_time : ℤ
  pub timeout : Bool

-- What the last poll found of one load balancer.
pub record GslbStats : Type 0 where
  pub failed : Bool
  pub unix_time : ℤ
  pub timeout : Bool

-- The caches of the mappers, the service's own fields, what the coordinator holds and the requests
-- made so far. A map of pointers is a map of the objects: a method that changes an object in
-- place changes the cache.
pub record State : Type 0 where
  pub groups : Assoc Group
  pub sentinel : Sentinel
  pub gslbs : Assoc Gslb
  pub tfs : Assoc TemplateFile
  pub stats_servers : Assoc RedisStats
  pub stats_gslbs : Assoc GslbStats
  -- `ha.masters`, nil or a map
  pub ha_masters : Option (Assoc String)
  -- the servers that `ha.monitor` watches, if there is a monitor
  pub ha_monitor : Option (List String)
  pub closed : Bool
  pub store : NodePath → Option Value
  pub trace : List Effect

pub data Error : Type 0 where
  closed_topom : Error
  invalid_group_name invalid_address ports_equal : Error
  group_exists group_not_found group_not_empty server_exists : String → Error
  port_conflict server_not_found master_in_use : String → String → Error
  promoting_index : String → ℕ → Error
  cannot_promote_master is_promoting invalid_action_state master_not_allowed : String → Error
  sentinel_exists sentinel_not_found sentinel_remove_failed : String → Error
  gslb_not_found gslb_unsupported : String → Error
  gslb_server_exists gslb_server_not_found : String → String → Error
  stats_empty : Error
  -- the template files could not be listed or read
  files_unreadable : Error
  -- a request was not served
  request_failed : Effect → Error
  -- `net.SplitHostPort` refused an address
  invalid_host_port : String → Error
  -- a `MultiError`: the servers that could not be synchronised, and whether the write of the
  -- group failed on top
  resync_failed : List String → Bool → Error

pub data Result (A : Type 0) : Type 0 where
  ok : A → Result A
  err : Error → Result A

-- A method: an error and the state that it leaves behind; what was changed stays changed.
abbrev pub Action : Type 0 → Type 0
Action A = State → Result A × State

module _ {A : Type 0} where
  abbrev pub pure : A → Action A
  pure a s = (ok a, s)

  abbrev pub raise : Error → Action A
  raise e s = (err e, s)

  abbrev pub gets : (State → A) → Action A
  gets f s = (ok (f s), s)

  abbrev pub or_raise : Option A → Error → Action A
  or_raise none e = raise e
  or_raise (some a) e = pure a

  -- To go on after an error: the result as a value.
  abbrev pub attempt : Action A → Action (Result A)
  attempt m s = let (r, s') = m s in (ok r, s')

  -- A pure computation that may fail.
  abbrev pub lift : Result A → Action A
  lift r s = (r, s)

infixl 5 ◌>>=◌ ◌>>◌
abbrev pub ◌>>=◌ : {A B : Type 0} → Action A → (A → Action B) → Action B
◌>>=◌ m f s = let (r, s') = m s in elim r [ ok a ↦ f a s' | err e ↦ raise e s' ]

abbrev pub ◌>>◌ : {A B : Type 0} → Action A → Action B → Action B
m >> k = m >>= λ _. k

abbrev pub raise_if : Bool → Error → Action (Unit {0})
raise_if c e s = (if c then err e else ok tt, s)

abbrev pub modify : (State → State) → Action (Unit {0})
modify f s = (ok tt, f s)

abbrev pub when : Bool → Action (Unit {0}) → Action (Unit {0})
when c m = if c then m else pure tt

-- A write into a cached object, and its replacement.
abbrev pub set_group : String → Group → Action (Unit {0})
set_group k g = modify (λ s. record s { groups = insert k g s.groups })

abbrev pub set_sentinel : Sentinel → Action (Unit {0})
set_sentinel x = modify (λ s. record s { sentinel = x })

abbrev pub set_gslb : String → Gslb → Action (Unit {0})
set_gslb k g = modify (λ s. record s { gslbs = insert k g s.gslbs })

module _ (w : World) where
  -- A request to the outside.
  unfoldable pub request : Effect → Action (Unit {0})
  request e s =
      let s' = record s { trace = e ∷ s.trace } in
      (if w.reply s.trace e then ok tt else err (request_failed e), s')

  unfoldable pub client_update : NodePath → Value → Action (Unit {0})
  client_update p v = do
    request (store_update p v)
    modify λ s. record s { store = λ q. if path_eq p q then some v else s.store q }

  unfoldable pub client_delete : NodePath → Action (Unit {0})
  client_delete p = do
    request (store_delete p)
    modify λ s. record s { store = λ q. if path_eq p q then none else s.store q }
