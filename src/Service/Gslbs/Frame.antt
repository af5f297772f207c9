-- ===== src/Service/Gslbs/Frame.antt =====
-- What the refresh of the load balancers leaves alone.
use pikamgr.Base.{
  String, List, [], ◌∷◌, Option, none, some, ◌≡◌, refl, sym, subst, lookup-insert_self, ◌∙◌, arith,
  Assoc, lookup, insert, lookup-insert, keys, ◌==◌, eq_iff, if◌then◌else◌,
}
use pikamgr.Dao.{Group, Gslb, Sentinel}
use pikamgr.World.{World, State, client_update, request, lift, gets, ◌>>◌}
use pikamgr.World.Keeps.{Keeps, Keeps-bind, Keeps-gets, Keeps-pure, Keeps-attempt}
use pikamgr.Mapper.{group_update, gslb_update}
use pikamgr.Service.Backends.{get_gslb_backends}
use pikamgr.Service.Gslbs.{
  refreshed, refresh_one, refresh_names, refresh_gslb_backend_info, write_group,
}

-- The parts of the state that belong to others.
pub record Others : Type 0 where
  pub groups : Assoc Group
  pub sentinel : Sentinel
  pub ha_masters : Option (Assoc String)

abbrev pub Has : Others → State → Type 0
Has o s = (s.groups ≡ o.groups) × (s.sentinel ≡ o.sentinel) × (s.ha_masters ≡ o.ha_masters)

module _ (w : World) (o : Others) where
  gslb_update-Has : (g : Gslb) → Keeps (Has o) (gslb_update w g)
  unfolding gslb_update client_update request
  gslb_update-Has g = record { at = λ s h. ground arith }

  refresh_one-Has : (name : String) (v : Option Gslb) → Keeps (Has o) (refresh_one w name v)
  unfolding refresh_one
  refresh_one-Has name none = Keeps-pure tt
  refresh_one-Has name (some v) =
      Keeps-bind (λ s. lift (get_gslb_backends name s) s) _ (record { at = λ s h. h })
        (λ view.
          Keeps-bind _ _ (Keeps-attempt _ (gslb_update-Has (refreshed name v view)))
            (λ _. Keeps-pure tt))

  refresh_names-Has : (names : List String) → Keeps (Has o) (refresh_names w names)
  unfolding refresh_names
  refresh_names-Has [] = Keeps-pure tt
  refresh_names-Has (name ∷ names) =
      Keeps-bind (gets (λ s. lookup name s.gslbs)) _ (Keeps-gets _) (λ v.
        Keeps-bind (refresh_one w name v) _ (refresh_one-Has name v) (λ _. refresh_names-Has names))

  pub refresh-Has : Keeps (Has o) (refresh_gslb_backend_info w)
  unfolding refresh_gslb_backend_info
  refresh-Has =
      Keeps-bind (gets (λ s. w.range_order s.trace (keys s.gslbs))) _ (Keeps-gets _)
        (λ names. refresh_names-Has names)

pub refresh-groups : (w : World) (s : State) → (refresh_gslb_backend_info w s).1.groups ≡ s.groups
refresh-groups w s =
    ((refresh-Has w
        (record { groups = s.groups; sentinel = s.sentinel; ha_masters = s.ha_masters })).at
      s (refl, refl, refl)).0

-- A group handed to its mapper from the cache: the view of the cache stays.
pub group_update-lookup :
    (w : World) (j : String) (g : Group) (s : State)
    → lookup g.name s.groups ≡ some g
    → lookup j (group_update w g s).1.groups ≡ lookup j s.groups
unfolding group_update client_update request
group_update-lookup w j g s e = ground (arith, lookup-insert g.name j g s.groups, eq_iff g.name j)

-- The tail of `write_group` after the record is changed in place.
write_rest-lookup :
    (w : World) (j : String) (g : Group) (s : State)
    → lookup g.name s.groups ≡ some g
    → lookup j ((group_update w g >> refresh_gslb_backend_info w) s).1.groups ≡ lookup j s.groups
write_rest-lookup w j g s e =
    ground (arith, group_update-lookup w j g s e, refresh-groups w (group_update w g s).1)

-- Whatever the coordinator answers, the cache shows the written group at its name and every other
-- group as it was.
pub write_group-lookup :
    (w : World) (name j : String) (g : Group) (s : State)
    → g.name ≡ name
    → lookup j (write_group w name g s).1.groups ≡ (if name == j then some g else lookup j s.groups)
unfolding write_group
write_group-lookup w name j g s e =
    write_rest-lookup w j g (record s { groups = insert name g s.groups })
      (subst (λ k. lookup k (insert name g s.groups) ≡ some g) (sym e)
        (lookup-insert_self name g s.groups))
    ∙ lookup-insert name j g s.groups
