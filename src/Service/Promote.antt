-- ===== src/Service/Promote.antt =====
-- `GroupPromoteServer`, the state machine that makes a slave the master of its group, and
-- `ResyncGroupAll`: topom/group.go.
pub mod Valid
pub mod Completes
pub mod Resume
pub mod Blocked
pub mod Held
pub mod Crash
use pikamgr.Base.{
  ℕ, zero, suc, String, Bool, true, false, not, List, [], ◌∷◌, Option, none, some, Assoc, lookup,
  erase, is_empty, eqb, swap_first, length, if◌then◌else◌,
}
use pikamgr.Dao.{
  Group, ActionState, nothing, preparing, prepared, finished, other, no_promotion, get_server_index,
}
use pikamgr.World.{
  World, State, Action, Error, Result, ok, err, group_not_found, server_not_found, promoting_index,
  cannot_promote_master, invalid_action_state, sentinel_remove, request, gets, pure, raise, attempt,
  or_raise, raise_if, when, modify, set_group, set_sentinel, ◌>>=◌, ◌>>◌,
}
use pikamgr.Mapper.{group_update, sentinel_update}
use pikamgr.Service.Checks.{is_zero, is_active}
use pikamgr.Service.Sentinels.{marked}
use pikamgr.Service.Groups.{resync_servers, resync_one}

-- `delete(s.ha.masters, name)`, if the map is there
abbrev pub erase_master : String → Option (Assoc String) → Option (Assoc String)
erase_master name none = none
erase_master name (some m) = some (erase name m)

-- The struct literal of the last stage: what it does not name is zero.
abbrev pub settled : Group → Group
settled g = record g { promoting = no_promotion; out_of_sync = false }

abbrev pub with_state : Group → ℕ → ActionState → Group
with_state g index st = record g { promoting = record { index = index; state = st } }

-- The group after the exchange of the master.
abbrev pub exchanged : Group → Group
exchanged g = record g {
  servers = swap_first g.servers g.promoting.index;
  promoting = record { index = 0; state = finished };
}

-- The guard in front of the switch.
unfoldable pub check_index : Group → ℕ → Action (Unit {0})
check_index g index =
    if is_active g.promoting
    then raise_if (not (eqb index g.promoting.index)) (promoting_index g.name g.promoting.index)
    else raise_if (is_zero index) (cannot_promote_master g.name)

module _ (w : World) where
  -- `case dao.ActionFinished`
  unfoldable pub promote_finished : Group → Action (Unit {0})
  promote_finished g = group_update w (settled g)

  -- The sentinels forget the group before its master changes.
  unfoldable pub forget_group : Group → Action (Unit {0})
  forget_group g = do
    x ← gets (λ s. s.sentinel)
    when (not (is_empty x.servers)) (do
      set_sentinel (marked x)
      sentinel_update w (marked x)
      attempt (request w (sentinel_remove x.servers (g.name ∷ [])))
      modify (λ s. record s { ha_masters = erase_master g.name s.ha_masters }))

  -- `case dao.ActionPrepared`
  unfoldable pub promote_prepared : String → Group → Action (Unit {0})
  promote_prepared name g = do
    forget_group g
    set_group name (exchanged g)
    group_update w (exchanged g)
    attempt (resync_servers w (exchanged g))
    promote_finished (exchanged g)

  -- `case dao.ActionPreparing`
  unfoldable pub promote_preparing : String → Group → Action (Unit {0})
  promote_preparing name g = do
    let g' : Group = with_state g g.promoting.index prepared
    set_group name g'
    group_update w g'
    promote_prepared name g'

  -- `case dao.ActionNothing`
  unfoldable pub promote_nothing : String → Group → ℕ → Action (Unit {0})
  promote_nothing name g index = do
    let g' : Group = with_state g index preparing
    set_group name g'
    group_update w g'
    promote_preparing name g'

  -- The `switch`, which falls through from each case to the next.
  unfoldable pub promote_from : ActionState → String → Group → ℕ → Action (Unit {0})
  promote_from nothing name g index = promote_nothing name g index
  promote_from preparing name g index = promote_preparing name g
  promote_from prepared name g index = promote_prepared name g
  promote_from finished name g index = promote_finished g
  promote_from (other _) name g index = raise (invalid_action_state g.name)

  unfoldable pub group_promote_server : String → String → Action (Unit {0})
  group_promote_server name addr = do
    found ← gets (λ s. lookup name s.groups)
    g ← or_raise found (group_not_found name)
    index ← or_raise (get_server_index g addr) (server_not_found name addr)
    check_index g index
    promote_from g.promoting.state name g index

-- The calls of `Future.Done` that a goroutine of `ResyncGroupAll` makes.
abbrev pub done_calls : String → Result (Unit {0}) → List (String × Error)
done_calls name (ok _) = []
done_calls name (err e) = (name, e) ∷ []

abbrev pub first_error : List (String × Error) → Result (Unit {0})
first_error [] = ok tt
first_error ((name, e) ∷ rest) = err e

-- `sync2.Future` is another project's: `wait n calls` is what its `Wait` returns after `n` calls of
-- `Add` and the given calls of `Done`, `none` if it never returns.
abbrev pub Wait : Type 0
Wait = ℕ → List (String × Error) → Option (List (String × Error))

abbrev pub conclude : Option (List (String × Error)) → Option (Result (Unit {0}))
conclude none = none
conclude (some results) = some (first_error results)

module _ (w : World) (wait : Wait) where
  -- The goroutines, one after another.
  unfoldable pub resync_each : Assoc Group → Action (List (String × Error))
  resync_each [] = pure []
  resync_each ((name, g) ∷ groups) = do
    result ← attempt (resync_one w name g)
    rest ← resync_each groups
    pure (mathlib.Core.List.◌++◌ (done_calls g.name result) rest)

  -- `ResyncGroupAll`; `none` is a call that never returns, and keeps the mutex.
  unfoldable pub resync_group_all : Action (Option (Result (Unit {0})))
  resync_group_all = do
    groups ← gets (λ s. s.groups)
    calls ← resync_each groups
    pure (conclude (wait (length groups) calls))
