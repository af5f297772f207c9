-- ===== src/Service/Groups/Resync.antt =====
-- Synchronising the servers of a group: what it leaves alone.
use pikamgr.Base.{ℕ, zero, suc, String, List, [], ◌∷◌, Option, none, some, ◌≡◌, Assoc}
use pikamgr.Dao.{Group, GroupServer, master_of}
use pikamgr.World.{
  World, State, Effect, request, dial, redis_do, invalid_host_port, master_not_allowed,
  is_promoting,
}
use pikamgr.World.Keeps.{Keeps, Keeps-bind, Keeps-attempt, Keeps-pure, Keeps-raise, Keeps-raise_if}
use pikamgr.Redis.{
  Command, run_commands, set_master_at, set_master, force_full_sync_at, force_full_sync_from_master,
}
use pikamgr.Redis.HostPort.{split_host_port}
use pikamgr.Service.Checks.{is_active, sync_target, note_failure}
use pikamgr.Service.Groups.{do_sync_action, do_force_full_sync_action, force_sync_at, sync_servers}

-- A fact that no request to a server can change.
pub record IsLocal (P : State → Type 0) : Type 0 where
  pub at_request : (w : World) (e : Effect) → Keeps P (request w e)

pub groups-IsLocal : (groups : Assoc Group) → IsLocal (λ s. s.groups ≡ groups)
unfolding request
groups-IsLocal groups = record { at_request = λ w e. record { at = λ s h. h } }

module _ (w : World) {P : State → Type 0} (local : IsLocal P) where
  pub run_commands-Keeps : (addr : String) (cs : List Command) → Keeps P (run_commands w addr cs)
  unfolding run_commands
  run_commands-Keeps addr [] = Keeps-pure tt
  run_commands-Keeps addr (c ∷ cs) =
      Keeps-bind _ _ (local.at_request w (redis_do addr c)) (λ _. run_commands-Keeps addr cs)

  set_master_at-Keeps :
      (addr master : String) (hp : Option (String × String))
      → Keeps P (set_master_at w addr master hp)
  unfolding set_master_at
  set_master_at-Keeps addr master none = Keeps-raise (invalid_host_port master)
  set_master_at-Keeps addr master (some (host, port)) = run_commands-Keeps addr _

  do_sync_action-Keeps : (addr master : String) → Keeps P (do_sync_action w addr master)
  unfolding do_sync_action set_master
  do_sync_action-Keeps addr master =
      Keeps-bind _ _ (local.at_request w (dial addr))
        (λ _. set_master_at-Keeps addr master (split_host_port master))

  pub sync_servers-Keeps :
      (master : String) (i : ℕ) (vs : List GroupServer) → Keeps P (sync_servers w master i vs)
  unfolding sync_servers
  sync_servers-Keeps master i [] = Keeps-pure []
  sync_servers-Keeps master i (v ∷ vs) =
      Keeps-bind _ _ (Keeps-attempt _ (do_sync_action-Keeps v.addr (sync_target i master)))
        (λ result.
          Keeps-bind _ _ (sync_servers-Keeps master (suc i) vs)
            (λ failed. Keeps-pure (note_failure result v.addr failed)))

  force_full_sync_at-Keeps :
      (addr master : String) (hp : Option (String × String))
      → Keeps P (force_full_sync_at w addr master hp)
  unfolding force_full_sync_at
  force_full_sync_at-Keeps addr master none = Keeps-raise (invalid_host_port master)
  force_full_sync_at-Keeps addr master (some (host, port)) = run_commands-Keeps addr _

  pub force_sync_at-Keeps :
      (name addr : String) (g : Group) (i : ℕ) → Keeps P (force_sync_at w name addr g i)
  unfolding force_sync_at do_force_full_sync_action force_full_sync_from_master
  force_sync_at-Keeps name addr g zero = Keeps-raise (master_not_allowed name)
  force_sync_at-Keeps name addr g (suc i) =
      Keeps-bind _ _ (Keeps-raise_if (is_active g.promoting) (is_promoting name)) (λ _.
        Keeps-bind _ _ (local.at_request w (dial addr)) (λ _.
          force_full_sync_at-Keeps addr (master_of g.servers)
            (split_host_port (master_of g.servers))))
