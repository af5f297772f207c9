-- ===== src/Service/Restart/Masters.antt =====
-- The calls that change the master of a group keep the cache and the coordinator together.
use pikamgr.Base.{ℕ, zero, suc, String, not, [], ◌∷◌, some, ◌≡◌, refl, Assoc, codes, is_empty}
use pikamgr.Coordinate.Plain.{IsPlain}
use pikamgr.Coordinate.Paths.{IsBaseName}
use pikamgr.Dao.{
  Group, Sentinel, ActionState, nothing, preparing, prepared, finished, other, get_server_index,
}
use pikamgr.World.{
  World, server_not_found, sentinel_remove, invalid_action_state, closed_topom, gets, pure, modify,
}
use pikamgr.World.Keeps.{
  Keeps-bind, Keeps-pure, Keeps-raise, Keeps-attempt, Keeps-raise_if, Keeps-gets, Keeps-if,
  Keeps-or_raise, Keeps-when,
}
use pikamgr.Service.Checks.{is_active}
use pikamgr.Service.Gslbs.{write_group}
use pikamgr.Service.Sentinels.{
  marked, switched, switch_index, try_switch_group_master, switch_all, switch_masters,
}
use pikamgr.Service.Promote.{
  settled, with_state, exchanged, erase_master, check_index, promote_finished, forget_group,
  promote_prepared, promote_preparing, promote_nothing, promote_from, group_promote_server,
}
use pikamgr.Service.Restart.Backed.{IsBacked-same}
use pikamgr.Service.Restart.Writes.{
  IsServing, KeepsBacked, IsBacked-IsLocal, group_update-Backed, write-Backed, sentinel-Backed,
}
use pikamgr.Service.Restart.Members.{find-Backed, write_group-Backed, resync_servers-Backed}

module _ (w : World) (blank : Sentinel) (serving : IsServing w)
    (base : IsBaseName w.product_name) where
  switch_at-Backed :
      (name : String) (g : Group) (index : ℕ)
      → g.name ≡ name
      → IsPlain (codes name)
      → KeepsBacked w blank
          (elim index [ ℕ.zero ↦ pure tt | suc i ↦ write_group w name (switched g (suc i)) ])
  switch_at-Backed name g zero n plain = Keeps-pure tt
  switch_at-Backed name g (suc i) n plain =
      write_group-Backed w blank serving base name (switched g (suc i)) n plain

  try_switch-Backed :
      (name master : String) (run_id : String → String)
      → KeepsBacked w blank (try_switch_group_master w name master run_id)
  unfolding try_switch_group_master
  try_switch-Backed name master run_id = find-Backed w blank serving base name _ (λ g n plain.
      Keeps-bind _ _
        (Keeps-or_raise (switch_index run_id master g.servers) (server_not_found name master))
        (λ index. switch_at-Backed name g index n plain))

  switch_all-Backed :
      (run_id : String → String) (masters : Assoc String)
      → KeepsBacked w blank (switch_all w run_id masters)
  unfolding switch_all
  switch_all-Backed run_id [] = Keeps-pure tt
  switch_all-Backed run_id ((name, master) ∷ rest) =
      Keeps-bind _ _ (Keeps-attempt _ (try_switch-Backed name master run_id))
        (λ _. switch_all-Backed run_id rest)

  pub switch_masters-Backed :
      (masters : Assoc String) → KeepsBacked w blank (switch_masters w masters)
  unfolding switch_masters
  switch_masters-Backed masters = Keeps-bind (gets (λ s. s.closed)) _ (Keeps-gets _) (λ closed.
      Keeps-bind _ _ (Keeps-raise_if closed closed_topom) (λ _.
        Keeps-bind (modify (λ s. record s { ha_masters = some masters })) _
          (record { at = λ s b. IsBacked-same w.product_name blank s _ refl refl refl refl b })
          (λ _.
            Keeps-bind (gets (λ s. w.run_id s.trace)) _ (Keeps-gets _)
              (λ run_id. switch_all-Backed run_id masters))))

  erase_master-Backed :
      (name : String)
      → KeepsBacked w blank (modify (λ s. record s { ha_masters = erase_master name s.ha_masters }))
  erase_master-Backed name = record {
    at = λ s b.
        IsBacked-same w.product_name blank s
          (record s { ha_masters = erase_master name s.ha_masters }) refl refl refl refl b;
  }

  forget_group-Backed : (g : Group) → KeepsBacked w blank (forget_group w g)
  unfolding forget_group
  forget_group-Backed g = Keeps-bind (gets (λ s. s.sentinel)) _ (Keeps-gets _) (λ x.
      Keeps-when (not (is_empty x.servers)) _ (
        sentinel-Backed w blank serving base (marked x) _ (λ _.
          Keeps-bind _ _
            (Keeps-attempt _
              ((IsBacked-IsLocal w blank).at_request w (sentinel_remove x.servers (g.name ∷ []))))
            (λ _. erase_master-Backed g.name))))

  promote_finished-Backed :
      (g : Group) → IsPlain (codes g.name) → KeepsBacked w blank (promote_finished w g)
  unfolding promote_finished
  promote_finished-Backed g plain = group_update-Backed w blank serving base (settled g) plain

  promote_prepared-Backed :
      (name : String) (g : Group)
      → g.name ≡ name
      → IsPlain (codes name)
      → KeepsBacked w blank (promote_prepared w name g)
  unfolding promote_prepared
  promote_prepared-Backed name g n plain = Keeps-bind _ _ (forget_group-Backed g) (λ _.
      write-Backed w blank serving base name (exchanged g) _ n plain (λ _.
        Keeps-bind _ _
          (Keeps-attempt _ (resync_servers-Backed w blank serving base (exchanged g) (rw n plain)))
          (λ _. promote_finished-Backed (exchanged g) (rw n plain))))

  promote_preparing-Backed :
      (name : String) (g : Group)
      → g.name ≡ name
      → IsPlain (codes name)
      → KeepsBacked w blank (promote_preparing w name g)
  unfolding promote_preparing
  promote_preparing-Backed name g n plain =
      let g' : Group = with_state g g.promoting.index prepared in
      write-Backed w blank serving base name g' _ n plain
        (λ _. promote_prepared-Backed name g' n plain)

  promote_nothing-Backed :
      (name : String) (g : Group) (i : ℕ)
      → g.name ≡ name
      → IsPlain (codes name)
      → KeepsBacked w blank (promote_nothing w name g i)
  unfolding promote_nothing
  promote_nothing-Backed name g i n plain =
      let g' : Group = with_state g i preparing in
      write-Backed w blank serving base name g' _ n plain
        (λ _. promote_preparing-Backed name g' n plain)

  promote_from-Backed :
      (st : ActionState) (name : String) (g : Group) (i : ℕ)
      → g.name ≡ name
      → IsPlain (codes name)
      → KeepsBacked w blank (promote_from w st name g i)
  unfolding promote_from
  promote_from-Backed nothing name g i n plain = promote_nothing-Backed name g i n plain
  promote_from-Backed preparing name g i n plain = promote_preparing-Backed name g n plain
  promote_from-Backed prepared name g i n plain = promote_prepared-Backed name g n plain
  promote_from-Backed finished name g i n plain = promote_finished-Backed g (rw n plain)
  promote_from-Backed (other x) name g i n plain = Keeps-raise (invalid_action_state g.name)

  check_index-Backed : (g : Group) (i : ℕ) → KeepsBacked w blank (check_index g i)
  unfolding check_index
  check_index-Backed g i =
      Keeps-if (is_active g.promoting) _ _ (Keeps-raise_if _ _) (Keeps-raise_if _ _)

  pub promote-Backed : (name addr : String) → KeepsBacked w blank (group_promote_server w name addr)
  unfolding group_promote_server
  promote-Backed name addr = find-Backed w blank serving base name _ (λ g n plain.
      Keeps-bind _ _ (Keeps-or_raise (get_server_index g addr) (server_not_found name addr)) (λ i.
        Keeps-bind _ _ (check_index-Backed g i)
          (λ _. promote_from-Backed g.promoting.state name g i n plain)))
