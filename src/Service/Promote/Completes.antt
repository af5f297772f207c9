-- ===== src/Service/Promote/Completes.antt =====
-- A promotion that meets no failed write of the coordinator runs to its end, from whatever stage an
-- earlier attempt has reached.
use pikamgr.Base.{
  ℕ, String, true, false, List, some, ◌≡◌, refl, sym, subst, arith, lookup, lookup-insert_self,
  swap_first,
}
use pikamgr.Coordinate.{NodePath, group_path, sentinel_path}
use pikamgr.Coordinate.Plain.{path_eq_refl}
use pikamgr.Dao.{
  Group, GroupServer, Value, group_value, sentinel_value, ActionState, nothing, preparing, prepared,
  finished, other, no_promotion, get_server_index,
}
use pikamgr.World.{
  World, State, Action, Result, Effect, ok, err, store_update, request, client_update, set_group,
  attempt, ◌>>=◌, ◌>>◌,
}
use pikamgr.Mapper.{group_update, sentinel_update}
use pikamgr.Service.Checks.{is_active, is_zero}
use pikamgr.Service.Sentinels.{marked}
use pikamgr.Service.Groups.{resync_servers}
use pikamgr.Service.Promote.{
  settled, with_state, exchanged, check_index, promote_finished, forget_group, promote_prepared,
  promote_preparing, promote_nothing, promote_from, group_promote_server,
}

-- Every write of the coordinator succeeds. The redis servers and the sentinels may fail.
abbrev pub IsAccepting : World → Type 0
IsAccepting w = (t : List Effect) (p : NodePath) (v : Value) → w.reply t (store_update p v) ≡ true

-- The servers once a promotion that stands at a stage is over.
abbrev pub promoted : ActionState → List GroupServer → ℕ → List GroupServer
promoted finished servers i = servers
promoted _ servers i = swap_first servers i

-- What the guard of `GroupPromoteServer` lets through.
abbrev pub CanPromote : Group → ℕ → Type 0
CanPromote g i = elim g.promoting.state [
  | nothing ↦ is_zero i ≡ false
  | preparing ↦ i ≡ g.promoting.index
  | prepared ↦ i ≡ g.promoting.index
  | finished ↦ i ≡ g.promoting.index
  | other _ ↦ ⊥
]

-- The group as the last stage writes it.
abbrev pub after_promotion : Group → ℕ → Group
after_promotion g i = record g {
  servers = promoted g.promoting.state g.servers i;
  promoting = no_promotion;
  out_of_sync = false;
}

-- The cache and the coordinator hold a group.
abbrev pub Holds : World → String → Group → Result (Unit {0}) × State → Type 0
Holds w name g (r, s) =
    (r ≡ ok tt)
    × (lookup name s.groups ≡ some g)
    × (s.store (group_path w.product_name name) ≡ some (group_value g))

-- An action that succeeds from every state.
abbrev Succeeds : {A : Type 0} → Action A → Type 0
Succeeds {A} m = (s : State) → (a : A) × ((m s).0 ≡ ok a)

-- An action after which the cache and the coordinator hold a group, from every state.
record Reaches (w : World) (name : String) (g : Group) (m : Action (Unit {0})) : Type 0 where
  at : (s : State) → Holds w name g (m s)

abbrev continue :
    {A : Type 0} → Result A → (A → Action (Unit {0})) → State → Result (Unit {0}) × State
continue r f s = elim r [ ok a ↦ f a s | err e ↦ (err e, s) ]

Reaches-after :
    {A : Type 0} {w : World} {name : String} {g : Group} (m : Action A) (f : A → Action (Unit {0}))
    → Succeeds m
    → ((a : A) → Reaches w name g (f a))
    → Reaches w name g (m >>= f)
Reaches-after {w} {name} {g} m f good rest = record {
  at = λ s.
      let (a, e) = good s in
      subst (λ r. Holds w name g (continue r f (m s).1)) (sym e) ((rest a).at (m s).1);
}

module _ (w : World) (accepts : IsAccepting w) where
  group_update-ok : (g : Group) → Succeeds (group_update w g)
  unfolding group_update client_update request
  group_update-ok g s =
      (tt, ground (arith, accepts s.trace (group_path w.product_name g.name) (group_value g)))

  group_update-Reaches : (g : Group) → Reaches w g.name g (group_update w g)
  unfolding group_update client_update request
  group_update-Reaches g = record {
    at = λ s. ground (
      arith,
      accepts s.trace (group_path w.product_name g.name) (group_value g),
      lookup-insert_self g.name g s.groups,
      path_eq_refl (group_path w.product_name g.name),
    );
  }

  forget_group-ok : (g : Group) → Succeeds (forget_group w g)
  unfolding forget_group sentinel_update client_update request
  forget_group-ok g s = (
    tt,
    ground (
      arith,
      accepts s.trace (sentinel_path w.product_name) (sentinel_value (marked s.sentinel)),
    ),
  )

  promote_finished-Reaches : (g : Group) → Reaches w g.name (settled g) (promote_finished w g)
  unfolding promote_finished
  promote_finished-Reaches g = group_update-Reaches (settled g)

  promote_prepared-Reaches :
      (name : String) (g : Group)
      → Reaches w g.name (settled (exchanged g)) (promote_prepared w name g)
  unfolding promote_prepared
  promote_prepared-Reaches name g = Reaches-after (forget_group w g) _ (forget_group-ok g) (λ _.
      Reaches-after (set_group name (exchanged g)) _ (λ s. (tt, refl))
        (λ _. Reaches-after (group_update w (exchanged g)) _ (group_update-ok (exchanged g)) (λ _.
          Reaches-after (attempt (resync_servers w (exchanged g))) _ (λ s. (_, refl))
            (λ _. promote_finished-Reaches (exchanged g)))))

  promote_preparing-Reaches :
      (name : String) (g : Group)
      → Reaches w g.name (settled (exchanged g)) (promote_preparing w name g)
  unfolding promote_preparing
  promote_preparing-Reaches name g =
      let h : Group = with_state g g.promoting.index prepared in
      Reaches-after (set_group name h) _ (λ s. (tt, refl))
        (λ _.
          Reaches-after (group_update w h) _ (group_update-ok h)
            (λ _. promote_prepared-Reaches name h))

  promote_nothing-Reaches :
      (name : String) (g : Group) (i : ℕ)
      → Reaches w g.name
          (settled (exchanged (with_state g i preparing)))
          (promote_nothing w name g i)
  unfolding promote_nothing
  promote_nothing-Reaches name g i =
      let h : Group = with_state g i preparing in
      Reaches-after (set_group name h) _ (λ s. (tt, refl))
        (λ _.
          Reaches-after (group_update w h) _ (group_update-ok h)
            (λ _. promote_preparing-Reaches name h))

  promote_from-Reaches :
      (name : String) (g : Group) (i : ℕ) (st : ActionState)
      → g.promoting.state ≡ st
      → CanPromote g i
      → Reaches w g.name (after_promotion g i) (promote_from w st name g i)
  unfolding promote_from
  promote_from-Reaches name g i nothing e c =
      subst (λ h. Reaches w g.name h (promote_nothing w name g i)) (ground arith)
        (promote_nothing-Reaches name g i)
  promote_from-Reaches name g i preparing e c =
      subst (λ h. Reaches w g.name h (promote_preparing w name g)) (ground arith)
        (promote_preparing-Reaches name g)
  promote_from-Reaches name g i prepared e c =
      subst (λ h. Reaches w g.name h (promote_prepared w name g)) (ground arith)
        (promote_prepared-Reaches name g)
  promote_from-Reaches name g i finished e c =
      subst (λ h. Reaches w g.name h (promote_finished w g)) (ground arith)
        (promote_finished-Reaches g)
  promote_from-Reaches name g i (other x) e c = absurd (ground arith)

  check_index-ok : (g : Group) (i : ℕ) → CanPromote g i → Succeeds (check_index g i)
  unfolding check_index is_active
  check_index-ok g i c s = (tt, ground arith)

-- If the coordinator takes every write, a promotion that the guard lets through returns no error,
-- whatever stage an earlier attempt has reached and whatever the sentinels and the redis servers
-- answer. The cache and the coordinator then hold the group with the chosen server first, unless
-- the exchange was made before; no promotion is left, and the group is not marked as out of
-- sync, also when the servers could not be synchronised.
pub group_promote_server-Holds :
    (w : World) (name addr : String) (i : ℕ) (g : Group) (s : State)
    → IsAccepting w
    → lookup name s.groups ≡ some g
    → g.name ≡ name
    → get_server_index g addr ≡ some i
    → CanPromote g i
    → Holds w name (after_promotion g i) (group_promote_server w name addr s)
unfolding group_promote_server
group_promote_server-Holds w name addr i g s accepts e named at c =
    let done : Reaches w g.name (after_promotion g i)
        (check_index g i >> promote_from w g.promoting.state name g i) =
      Reaches-after (check_index g i) _ (check_index-ok w accepts g i c)
        (λ _. promote_from-Reaches w accepts name g i g.promoting.state refl c) in
    rw e (
      rw at (
        subst
          (λ n.
            Holds w n (after_promotion g i)
              ((check_index g i >> promote_from w g.promoting.state name g i) s))
          named (done.at s)))
