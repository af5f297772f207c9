-- ===== src/Service/Restart/Members.antt =====
-- The calls that change one group keep the cache and the coordinator together.
use pikamgr.Base.{
  String, true, false, not, List, [], ◌∷◌, Option, none, some, ◌≡◌, refl, lookup, contains, codes,
  is_empty, length, ltb, ◌==◌, ◌&&◌,
}
use pikamgr.Base.Int.{ℤ, int_eq}
use pikamgr.Coordinate.Plain.{IsPlain}
use pikamgr.Coordinate.Paths.{IsBaseName}
use pikamgr.Dao.{Group, Sentinel, master_of, get_server_index}
use pikamgr.World.{
  World, State, Error, Action, invalid_group_name, ports_equal, group_exists, group_not_found,
  group_not_empty, port_conflict, server_exists, server_not_found, master_in_use, invalid_address,
  resync_failed, gets, or_raise, ◌>>=◌,
}
use pikamgr.World.Keeps.{
  Keeps, Keeps-bind, Keeps-pure, Keeps-raise, Keeps-raise_if, Keeps-gets, Keeps-or_raise,
  Keeps-read, Keeps-found,
}
use pikamgr.Service.Checks.{
  is_bad_name, new_group, find_conflict, raise_some, is_known_server, is_zero, with_server,
  without_server, is_failure,
}
use pikamgr.Service.Gslbs.{write_group}
use pikamgr.Service.Groups.{
  create_group, remove_group, mark_out_of_sync, resync_servers, resync_one, resync_group,
  add_group_server, del_group_server, group_force_full_sync_server,
}
use pikamgr.Service.Groups.Resync.{sync_servers-Keeps, force_sync_at-Keeps}
use pikamgr.Service.Restart.Writes.{
  IsServing, KeepsBacked, IsBacked-IsLocal, group_create-Backed, group_remove-Backed, write-Backed,
  attempt_write-Backed,
}
use pikamgr.Service.Restart.Watches.{out_of_sync-Backed}
use pikamgr.Service.Restart.Balancers.{refresh-Backed}

-- What the invariant says of the group that is found at a name.
abbrev pub IsOwnGroup : String → Option Group → Type 0
IsOwnGroup name found = (g : Group) → found ≡ some g → (g.name ≡ name) × IsPlain (codes name)

raise_some-Keeps :
    {P : State → Type 0} (o : Option String) (f : String → Error) → Keeps P (raise_some o f)
raise_some-Keeps none f = Keeps-pure tt
raise_some-Keeps (some a) f = Keeps-raise (f a)

module _ (w : World) (blank : Sentinel) (serving : IsServing w)
    (base : IsBaseName w.product_name) where
  -- A method that begins with the look-up of a group.
  pub find-Backed :
      {B : Type 0} (name : String) (f : Group → Action B)
      → ((g : Group) → g.name ≡ name → IsPlain (codes name) → KeepsBacked w blank (f g))
      → KeepsBacked w blank (
          gets (λ s. lookup name s.groups) >>= λ found. or_raise found (group_not_found name) >>= f)
  find-Backed name f k =
      Keeps-read (λ s. lookup name s.groups) _ (IsOwnGroup name) (λ s b. b.named name)
        (λ found own.
          Keeps-found found (group_not_found name) f (λ g here. k g (own g here).0 (own g here).1))

  pub create_group-Backed :
      (name : String) (r v : ℤ)
      → IsPlain (codes name)
      → KeepsBacked w blank (create_group w name r v)
  unfolding create_group
  create_group-Backed name r v plain =
      Keeps-bind _ _ (Keeps-raise_if (is_bad_name name) invalid_group_name) (λ _.
        Keeps-bind _ _ (Keeps-raise_if (int_eq r v) ports_equal) (λ _.
          Keeps-bind (gets (λ s. s.groups)) _ (Keeps-gets _) (λ groups.
            Keeps-bind _ _ (Keeps-raise_if (contains name groups) (group_exists name)) (λ _.
              Keeps-bind _ _ (raise_some-Keeps (find_conflict r v groups) (port_conflict name))
                (λ _. Keeps-bind (gets (λ s. w.now s.trace)) _ (Keeps-gets _) (λ create_time.
                  group_create-Backed w blank serving base (new_group name r v create_time)
                    plain))))))

  pub remove_group-Backed : (name : String) → KeepsBacked w blank (remove_group w name)
  unfolding remove_group
  remove_group-Backed name = find-Backed name _ (λ g n plain.
      Keeps-bind _ _ (Keeps-raise_if (not (is_empty g.servers)) (group_not_empty name))
        (λ _. group_remove-Backed w blank serving base g (rw n plain)))

  mark_out_of_sync-Backed :
      (g : Group) (failed : List String)
      → IsPlain (codes g.name)
      → KeepsBacked w blank (mark_out_of_sync w g failed)
  unfolding mark_out_of_sync
  mark_out_of_sync-Backed g [] plain = Keeps-pure tt
  mark_out_of_sync-Backed g (a ∷ failed) plain =
      attempt_write-Backed w blank serving base g.name (record g { out_of_sync = true }) _ refl
        plain (λ written. Keeps-raise (resync_failed (a ∷ failed) (is_failure written)))

  pub resync_servers-Backed :
      (g : Group) → IsPlain (codes g.name) → KeepsBacked w blank (resync_servers w g)
  unfolding resync_servers
  resync_servers-Backed g plain =
      Keeps-bind _ _
        (sync_servers-Keeps w (IsBacked-IsLocal w blank) (master_of g.servers) 0 g.servers)
        (λ failed. mark_out_of_sync-Backed g failed plain)

  pub resync_group-Backed : (name : String) → KeepsBacked w blank (resync_group w name)
  unfolding resync_group resync_one
  resync_group-Backed name = find-Backed name _ (λ g n plain.
      write-Backed w blank serving base name (record g { out_of_sync = false }) _ n plain
        (λ _. resync_servers-Backed (record g { out_of_sync = false }) (rw n plain)))

  pub write_group-Backed :
      (name : String) (g : Group)
      → g.name ≡ name
      → IsPlain (codes name)
      → KeepsBacked w blank (write_group w name g)
  unfolding write_group
  write_group-Backed name g n plain =
      write-Backed w blank serving base name g _ n plain (λ _. refresh-Backed w blank serving base)

  pub del_group_server-Backed :
      (name addr : String) → KeepsBacked w blank (del_group_server w name addr)
  unfolding del_group_server without_server
  del_group_server-Backed name addr = find-Backed name _ (λ g n plain.
      Keeps-bind _ _ (Keeps-or_raise (get_server_index g addr) (server_not_found name addr)) (λ i.
        Keeps-bind _ _
          (Keeps-raise_if (is_zero i && ltb 1 (length g.servers)) (master_in_use name addr))
          (λ _.
            Keeps-bind _ _ (out_of_sync-Backed w blank serving base)
              (λ _. write_group-Backed name (without_server g i) n plain))))

  pub add_group_server-Backed :
      (name addr : String) → KeepsBacked w blank (add_group_server w name addr)
  unfolding add_group_server
  add_group_server-Backed name addr =
      Keeps-bind _ _ (Keeps-raise_if (addr == "") invalid_address) (λ _.
        Keeps-read (λ s. s.groups) _ (λ groups. IsOwnGroup name (lookup name groups))
          (λ s b. b.named name)
          (λ groups own.
            Keeps-bind _ _ (Keeps-raise_if (is_known_server addr groups) (server_exists addr)) (λ _.
              Keeps-found (lookup name groups) (group_not_found name) _ (λ g here.
                Keeps-bind _ _ (out_of_sync-Backed w blank serving base) (λ _.
                  write_group-Backed name (with_server g addr) (own g here).0 (own g here).1)))))

  pub force_full_sync-Backed :
      (name addr : String) → KeepsBacked w blank (group_force_full_sync_server w name addr)
  unfolding group_force_full_sync_server
  force_full_sync-Backed name addr = find-Backed name _ (λ g n plain.
      Keeps-bind _ _ (Keeps-or_raise (get_server_index g addr) (server_not_found name addr))
        (λ i. force_sync_at-Keeps w (IsBacked-IsLocal w blank) name addr g i))
