-- ===== src/Service/Promote/Held.antt =====
-- What the coordinator holds of a group while a promotion is under way.
use pikamgr.Base.{
  ℕ, String, true, not, List, [], ◌∷◌, some, ◌≡◌, refl, sym, ◌⊎◌, inl, inr, arith, codes, is_empty,
  Bool-cases,
}
use pikamgr.Coordinate.{group_path, sentinel_path}
use pikamgr.Coordinate.Plain.{IsPlain, path_eq_refl}
use pikamgr.Coordinate.Paths.{group_path-apart}
use pikamgr.Dao.{Group, Sentinel, get_server_index, group_value, master_of}
use pikamgr.World.{
  World, State, Action, store_update, sentinel_remove, resync_failed, request, client_update,
  set_group, set_sentinel, modify, gets,
}
use pikamgr.World.Keeps.{
  Keeps, Keeps-bind, Keeps-pure, Keeps-raise, Keeps-attempt, Keeps-gets, Keeps-when,
}
use pikamgr.Mapper.{group_update, sentinel_update}
use pikamgr.Service.Checks.{is_failure}
use pikamgr.Service.Sentinels.{marked}
use pikamgr.Service.Groups.{mark_out_of_sync, resync_servers}
use pikamgr.Service.Groups.Resync.{IsLocal, sync_servers-Keeps}
use pikamgr.Service.Promote.{erase_master, forget_group}
use pikamgr.Service.Promote.Completes.{CanPromote, after_promotion}
use pikamgr.Service.Restart.Backed.{path_eq-false}

-- A record from which the same call can still reach the end of the promotion of a group.
pub record IsPending (addr : String) (goal h : Group) : Type 0 where
  pub position : ℕ
  pub found : get_server_index h addr ≡ some position
  pub passes : CanPromote h position
  pub reaches : after_promotion h position ≡ goal

-- A record on the way to the end, or at it.
pub record IsOnWay (name addr : String) (goal h : Group) : Type 0 where
  pub named : h.name ≡ name
  pub stage : (h ≡ goal) ⊎ IsPending addr goal h

-- The coordinator holds such a record.
pub record IsHeld (product name addr : String) (goal : Group) (s : State) : Type 0 where
  pub record_ : Group
  pub held : s.store (group_path product name) ≡ some (group_value record_)
  pub on_way : IsOnWay name addr goal record_

module _ (w : World) (name addr : String) (goal : Group) (plain : IsPlain (codes name)) where
  abbrev pub KeepsHeld : {A : Type 0} → Action A → Type 0
  KeepsHeld m = Keeps (IsHeld w.product_name name addr goal) m

  IsHeld-IsLocal : IsLocal (IsHeld w.product_name name addr goal)
  unfolding request
  IsHeld-IsLocal = record {
    at_request = λ w' e. record {
      at = λ s k. record { record_ = k.record_; held = k.held; on_way = k.on_way };
    };
  }

  -- An action that leaves the coordinator alone.
  plainly : {A : Type 0} (m : Action A) → ((s : State) → (m s).1.store ≡ s.store) → KeepsHeld m
  plainly m same = record {
    at = λ s b. record { record_ = b.record_; held = rw (same s) b.held; on_way = b.on_way };
  }

  pub set_group-Held : (k : String) (h : Group) → KeepsHeld (set_group k h)
  set_group-Held k h = plainly (set_group k h) (λ s. refl)

  pub group_update-Held : (h : Group) → IsOnWay name addr goal h → KeepsHeld (group_update w h)
  unfolding group_update client_update request
  group_update-Held h on = record {
    at = λ s b.
        elim (Bool-cases
          (w.reply s.trace (store_update (group_path w.product_name h.name) (group_value h)))) [
            | inl served ↦ record {
              record_ = h;
              held = ground (arith, on.named, path_eq_refl (group_path w.product_name name));
              on_way = on;
            }
            | inr refused ↦ record {
              record_ = b.record_;
              held = ground (arith, b.held);
              on_way = b.on_way;
            }
          ];
  }

  sentinel_update-Held : (x : Sentinel) → KeepsHeld (sentinel_update w x)
  unfolding sentinel_update client_update request
  sentinel_update-Held x = record {
    at = λ s b. record {
      record_ = b.record_;
      held = ground (
        arith,
        b.held,
        path_eq-false (sentinel_path w.product_name) (group_path w.product_name name)
            (λ e. (group_path-apart w.product_name name plain).0 (sym e)),
      );
      on_way = b.on_way;
    };
  }

  pub forget_group-Held : (h : Group) → KeepsHeld (forget_group w h)
  unfolding forget_group
  forget_group-Held h = Keeps-bind (gets (λ s. s.sentinel)) _ (Keeps-gets _) (λ x.
      Keeps-when (not (is_empty x.servers)) _ (
        Keeps-bind _ _ (plainly (set_sentinel (marked x)) (λ s. refl)) (λ _.
          Keeps-bind _ _ (sentinel_update-Held (marked x)) (λ _.
            Keeps-bind _ _
              (Keeps-attempt _
                (IsHeld-IsLocal.at_request w (sentinel_remove x.servers (h.name ∷ []))))
              (λ _.
                plainly (modify (λ s. record s { ha_masters = erase_master h.name s.ha_masters }))
                  (λ s. refl))))))

  pub resync_servers-Held :
      (h : Group)
      → IsOnWay name addr goal (record h { out_of_sync = true })
      → KeepsHeld (resync_servers w h)
  unfolding resync_servers mark_out_of_sync
  resync_servers-Held h on =
      Keeps-bind _ _ (sync_servers-Keeps w IsHeld-IsLocal (master_of h.servers) 0 h.servers)
        (λ failed. mark-Held failed)
    where
      mark-Held : (failed : List String) → KeepsHeld (mark_out_of_sync w h failed)
      mark-Held [] = Keeps-pure tt
      mark-Held (a ∷ failed) =
          Keeps-bind _ _ (set_group-Held h.name (record h { out_of_sync = true })) (λ _.
            Keeps-bind _ _
              (Keeps-attempt _ (group_update-Held (record h { out_of_sync = true }) on))
              (λ written. Keeps-raise (resync_failed (a ∷ failed) (is_failure written))))
