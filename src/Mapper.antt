-- ===== src/Mapper.antt =====
-- The mappers, topom/dao/mapper: each keeps a cache of the records of one kind and writes every
-- change through to the coordinator.
pub mod Equal
pub mod Templates
pub mod Load
use pikamgr.Base.{Bool, false, Option, none, some, insert, erase, lookup, if◌then◌else◌}
use pikamgr.Dao.{Group, Sentinel, Gslb, group_value, sentinel_value, gslb_value}
use pikamgr.Coordinate.{group_path, sentinel_path, gslb_path}
use pikamgr.World.{
  World, State, Action, client_update, client_delete, modify, set_group, set_sentinel, set_gslb,
  pure, ◌>>=◌, ◌>>◌,
}
use pikamgr.Mapper.Equal.{gslb_eq}

-- `reflect.DeepEqual(old, g)`, if there is an old record.
unfoldable pub is_unchanged : Option Gslb → Gslb → Bool
is_unchanged none g = false
is_unchanged (some old) g = gslb_eq old g

module _ (w : World) where
  unfoldable pub group_create : Group → Action (Unit {0})
  group_create g = do
    client_update w (group_path w.product_name g.name) (group_value g)
    set_group g.name g

  unfoldable pub group_update : Group → Action (Unit {0})
  group_update g = do
    client_update w (group_path w.product_name g.name) (group_value g)
    set_group g.name g

  unfoldable pub group_remove : Group → Action (Unit {0})
  group_remove g = do
    client_delete w (group_path w.product_name g.name)
    modify λ s. record s { groups = erase g.name s.groups }

  unfoldable pub sentinel_update : Sentinel → Action (Unit {0})
  sentinel_update x = do
    client_update w (sentinel_path w.product_name) (sentinel_value x)
    set_sentinel x

  -- A record that is equal to the cached one is not written.
  unfoldable pub gslb_update : Gslb → Action (Unit {0})
  gslb_update g s =
      (if is_unchanged (lookup g.name s.gslbs) g then pure tt else do
        client_update w (gslb_path g.name w.product_name) (gslb_value g)
        set_gslb g.name g)
        s

  unfoldable pub gslb_delete : Gslb → Action (Unit {0})
  gslb_delete g = do
    client_delete w (gslb_path g.name w.product_name)
    modify λ s. record s { gslbs = erase g.name s.gslbs }
