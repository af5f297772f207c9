-- ===== src/Coordinators/Zk.antt =====
-- coordinate/zk/client.go. The zookeeper library is a parameter; watches are left out, as what
-- they do is to wait for its events.
pub mod Refines
pub mod Completes
use pikamgr.Base.{
  ℕ, Bool, true, false, List, [], ◌∷◌, Option, none, some, ◌&&◌, not, map, codes_lt, if◌then◌else◌,
}
use pikamgr.Coordinate.{NodePath, Segment, parent}
use pikamgr.Coordinators.{Reply, ok, err, Operation, pure, fail, forgive, Client, ◌>>=◌, ◌>>◌}

pub data ZkError : Type 0 where
  closed_client no_node node_exists not_empty failed : ZkError

abbrev pub is_no_node : ZkError → Bool
is_no_node no_node = true
is_no_node _ = false

abbrev pub is_node_exists : ZkError → Bool
is_node_exists node_exists = true
is_node_exists _ = false

-- The errors after which `shell` keeps the connection.
abbrev pub is_benign : ZkError → Bool
is_benign no_node = true
is_benign node_exists = true
is_benign not_empty = true
is_benign _ = false

-- The library, on a state `S` of the connection and all behind it: `Exists`, `Create` without and
-- with the flag for sequences, `Set`, `Delete`, `Get` and `Children`, those with a watch
-- included, whether the last dial is older than a second, `Connect` with the time of the dial, which
-- leaves the connection before it open, and `Close` of that one and of the connection in use. With a
-- connection its session ends.
pub record Zk (S D : Type 0) : Type 0 where
  pub exists : NodePath → Operation S ZkError Bool
  pub create : Bool → NodePath → D → Operation S ZkError (Unit {0})
  pub create_in_order : NodePath → D → Operation S ZkError NodePath
  pub set : NodePath → D → Operation S ZkError (Unit {0})
  pub delete : NodePath → Operation S ZkError (Unit {0})
  pub get : NodePath → Operation S ZkError D
  pub children : NodePath → Operation S ZkError (List Segment)
  pub is_old : S → Bool
  pub connect : Operation S ZkError (Unit {0})
  pub close_old : S → S
  pub close : S → S
  -- the data of a node that `mkdir` makes
  pub empty : D

pub record Conn (S : Type 0) : Type 0 where
  pub conn : S
  pub closed : Bool

-- Names in the order of `sort.Strings`.
insert_name : Segment → List Segment → List Segment
insert_name x [] = x ∷ []
insert_name x (y ∷ ys) = if codes_lt y x then y ∷ insert_name x ys else x ∷ y ∷ ys

unfoldable pub sort_names : List Segment → List Segment
unfolding insert_name
sort_names [] = []
sort_names (x ∷ xs) = insert_name x (sort_names xs)

module _ {S D : Type 0} (zk : Zk S D) where
  -- `reset` behind an error: a connection that cannot be made leaves the old one, otherwise the old
  -- one is closed.
  abbrev pub reset : S → S
  reset s = let (r, s') = zk.connect s in elim r [ err _ ↦ s' | ok _ ↦ zk.close_old s' ]

  abbrev pub after_error : ZkError → S → S
  after_error e s = if is_benign e then s else if zk.is_old s then reset s else s

  -- `Do`, and how every exported method starts, with `shell`.
  unfoldable pub shell : {A : Type 0} → Operation S ZkError A → Operation (Conn S) ZkError A
  shell fn c =
      if c.closed
      then (err closed_client, c)
      else let (r, s') = fn c.conn in
        elim r [
          | ok a ↦ (ok a, record c { conn = s' })
          | err e ↦ (err e, record c { conn = after_error e s' })
        ]

  -- `mkdir` on the connection; the root is there.
  unfoldable pub mkdir_at : NodePath → Operation S ZkError (Unit {0})
  mkdir_at [] = pure tt
  mkdir_at (x ∷ p) = do
    there ← zk.exists (x ∷ p)
    elim there [
      | true ↦ pure tt
      | false ↦ mkdir_at p >> forgive is_node_exists (zk.create false (x ∷ p) zk.empty)
    ]

  -- `create`; the flag says whether the node is ephemeral.
  unfoldable pub create_at : Bool → NodePath → D → Operation S ZkError (Unit {0})
  create_at ephemeral p d = do mkdir_at (parent p); zk.create ephemeral p d

  unfoldable pub update_at : NodePath → D → Operation S ZkError (Unit {0})
  update_at p d = do
    there ← zk.exists p
    elim there [ true ↦ pure tt | false ↦ forgive is_node_exists (create_at false p d) ]
    zk.set p d

  unfoldable pub read_at : NodePath → Bool → Operation S ZkError (Option D)
  read_at p must s =
      let (r, s') = zk.get p s in
      elim r [
        | ok d ↦ (ok (some d), s')
        | err e ↦ if is_no_node e && not must then (ok none, s') else (err e, s')
      ]

  unfoldable pub list_at : NodePath → Bool → Operation S ZkError (List NodePath)
  list_at p must s =
      let (r, s') = zk.children p s in
      elim r [
        | ok names ↦ (ok (map (λ x. x ∷ p) names), s')
        | err e ↦ if is_no_node e && not must then (ok [], s') else (err e, s')
      ]

  -- `Mkdir`, `List`, `CreateEphemeral`, `CreateEphemeralInOrder` and `WatchInOrder`
  unfoldable pub mkdir : NodePath → Operation (Conn S) ZkError (Unit {0})
  mkdir p = shell (mkdir_at p)

  unfoldable pub list : NodePath → Bool → Operation (Conn S) ZkError (List NodePath)
  list p must = shell (list_at p must)

  unfoldable pub create_ephemeral : NodePath → D → Operation (Conn S) ZkError (Unit {0})
  create_ephemeral p d = shell (do create_at true p d; zk.get p; pure tt)

  unfoldable pub create_ephemeral_in_order : NodePath → D → Operation (Conn S) ZkError NodePath
  create_ephemeral_in_order p d =
      shell (do mkdir_at p; node ← zk.create_in_order p d; zk.get node; pure node)

  unfoldable pub watch_in_order : NodePath → Operation (Conn S) ZkError (List NodePath)
  watch_in_order p = do
    mkdir p
    shell (do names ← zk.children p; pure (map (λ x. x ∷ p) (sort_names names)))

  unfoldable pub close : Conn S → Conn S
  close c = if c.closed then c else record c { conn = zk.close c.conn; closed = true }

  -- The client that the dashboard is given.
  unfoldable pub create : NodePath → D → Operation (Conn S) ZkError (Unit {0})
  create p d = shell (create_at false p d)

  unfoldable pub update : NodePath → D → Operation (Conn S) ZkError (Unit {0})
  update p d = shell (update_at p d)

  unfoldable pub delete : NodePath → Operation (Conn S) ZkError (Unit {0})
  delete p = shell (forgive is_no_node (zk.delete p))

  unfoldable pub read : NodePath → Bool → Operation (Conn S) ZkError (Option D)
  read p must = shell (read_at p must)

  abbrev pub client : Client (Conn S) ZkError D
  client = record { create = create; update = update; delete = delete; read = read }
