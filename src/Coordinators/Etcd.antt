-- ===== src/Coordinators/Etcd.antt =====
-- coordinate/etcd/client.go. The etcd library is a parameter.
pub mod Refines
use pikamgr.Base.{
  ℕ, zero, suc, Bool, true, false, List, [], Option, none, some, ◌&&◌, not, if◌then◌else◌,
}
use pikamgr.Coordinate.{NodePath}
use pikamgr.Coordinators.{Reply, ok, err, Operation, pure, fail, forgive, Client, ◌>>=◌, ◌>>◌}

pub data EtcdError : Type 0 where
  closed_client key_not_found node_exist not_file not_dir failed : EtcdError

-- `isErrNoNode` and `isErrNodeExists`
abbrev pub is_no_node : EtcdError → Bool
is_no_node key_not_found = true
is_no_node _ = false

abbrev pub is_node_exists : EtcdError → Bool
is_node_exists node_exist = true
is_node_exists _ = false

-- What `Get` finds: a value, or a directory with the keys of its nodes.
pub data Node (D : Type 0) : Type 0 where
  file : D → Node D
  dir : List NodePath → Node D

-- `PrevExist` of `client.SetOptions`
pub data Prev : Type 0 where
  prev_ignore prev_exist prev_no_exist : Prev

-- `client.SetOptions`; of `TTL` only whether it is set.
pub record SetOptions : Type 0 where
  pub dir : Bool
  pub prev : Prev
  pub refresh : Bool
  pub ttl : Bool

-- The zero value of `client.SetOptions`.
abbrev pub no_options : SetOptions
no_options = record { dir = false; prev = prev_ignore; refresh = false; ttl = false }

-- `client.KeysAPI` on a state `S` of all behind it: `Set` of a value, `none` for the text "", which goes
-- with a directory and with a refresh, `Delete`, `Get` with its option `Quorum`, and
-- `CreateInOrder` with a time to live.
pub record Keys (S D : Type 0) : Type 0 where
  pub set : SetOptions → NodePath → Option D → Operation S EtcdError (Unit {0})
  pub delete : NodePath → Operation S EtcdError (Unit {0})
  pub get : Bool → NodePath → Operation S EtcdError (Node D)
  pub create_in_order : NodePath → D → Operation S EtcdError NodePath

pub record Conn (S : Type 0) : Type 0 where
  pub kapi : S
  pub closed : Bool

module _ {S D : Type 0} (keys : Keys S D) where
  -- How every exported method starts.
  unfoldable pub guarded : {A : Type 0} → Operation S EtcdError A → Operation (Conn S) EtcdError A
  guarded fn c =
      if c.closed
      then (err closed_client, c)
      else let (r, s') = fn c.kapi in (r, record c { kapi = s' })

  unfoldable pub read_at : NodePath → Bool → Operation S EtcdError (Option D)
  read_at p must s =
      let (r, s') = keys.get true p s in
      elim r [
        | ok node ↦ elim node [ file d ↦ (ok (some d), s') | dir nodes ↦ (err not_file, s') ]
        | err e ↦ if is_no_node e && not must then (ok none, s') else (err e, s')
      ]

  unfoldable pub list_at : NodePath → Bool → Operation S EtcdError (List NodePath)
  list_at p must s =
      let (r, s') = keys.get true p s in
      elim r [
        | ok node ↦ elim node [ file d ↦ (err not_dir, s') | dir nodes ↦ (ok nodes, s') ]
        | err e ↦ if is_no_node e && not must then (ok [], s') else (err e, s')
      ]

  unfoldable pub mkdir : NodePath → Operation (Conn S) EtcdError (Unit {0})
  mkdir p = guarded (
      forgive is_node_exists
        (keys.set (record no_options { dir = true; prev = prev_no_exist }) p none))

  unfoldable pub list : NodePath → Bool → Operation (Conn S) EtcdError (List NodePath)
  list p must = guarded (list_at p must)

  unfoldable pub refresh_ephemeral : NodePath → Operation (Conn S) EtcdError (Unit {0})
  refresh_ephemeral p =
      guarded
        (keys.set (record no_options { prev = prev_exist; refresh = true; ttl = true }) p none)

  -- The rounds of `runRefreshEphemeral`, at most so many: whether it has ended, and its signal is
  -- closed.
  unfoldable pub run_refresh_ephemeral : ℕ → NodePath → Conn S → Bool × Conn S
  run_refresh_ephemeral zero p c = (false, c)
  run_refresh_ephemeral (suc n) p c =
      let (r, c') = refresh_ephemeral p c in
      elim r [ err e ↦ (true, c') | ok _ ↦ run_refresh_ephemeral n p c' ]

  unfoldable pub create_ephemeral : NodePath → D → Operation (Conn S) EtcdError (Unit {0})
  create_ephemeral p d =
      guarded (keys.set (record no_options { prev = prev_no_exist; ttl = true }) p (some d))

  unfoldable pub create_ephemeral_in_order : NodePath → D → Operation (Conn S) EtcdError NodePath
  create_ephemeral_in_order p d = guarded (keys.create_in_order p d)

  -- `WatchInOrder` up to the watch itself; the library sorts the keys.
  unfoldable pub watch_in_order : NodePath → Operation (Conn S) EtcdError (List NodePath)
  watch_in_order p = do mkdir p; guarded (list_at p true)

  unfoldable pub close : Conn S → Conn S
  close c = record c { closed = true }

  unfoldable pub create : NodePath → D → Operation (Conn S) EtcdError (Unit {0})
  create p d = guarded (keys.set (record no_options { prev = prev_no_exist }) p (some d))

  unfoldable pub update : NodePath → D → Operation (Conn S) EtcdError (Unit {0})
  update p d = guarded (keys.set (record no_options { prev = prev_ignore }) p (some d))

  unfoldable pub delete : NodePath → Operation (Conn S) EtcdError (Unit {0})
  delete p = guarded (forgive is_no_node (keys.delete p))

  unfoldable pub read : NodePath → Bool → Operation (Conn S) EtcdError (Option D)
  read p must = guarded (read_at p must)

  abbrev pub client : Client (Conn S) EtcdError D
  client = record { create = create; update = update; delete = delete; read = read }
