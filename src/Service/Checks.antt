-- ===== src/Service/Checks.antt =====
-- The tests and the pure steps of topom/group.go.
use Prim.Native.String.{count}
use pikamgr.Base.{
  ℕ, zero, suc, String, Bool, true, false, List, [], ◌∷◌, ◌++◌, Option, none, some, ◌==◌, ◌||◌,
  Assoc, is_empty, erase_idx, ltb, if◌then◌else◌,
}
use pikamgr.Base.Int.{ℤ, int_eq}
use pikamgr.Dao.{
  Group, GroupServer, nothing, preparing, prepared, finished, other, Promoting, no_promotion,
  max_group_name_length,
}
use pikamgr.World.{Action, Error, Result, ok, err, pure, raise}

-- `groupName == "" || utf8.RuneCountInString(groupName) > dao.MAXGroupNameBytesLength`
unfoldable pub is_bad_name : String → Bool
is_bad_name name = name == "" || ltb max_group_name_length (count name)

unfoldable pub ports_conflict : ℤ → ℤ → Group → Bool
ports_conflict r v g =
    (int_eq r g.proxy_read_port || int_eq r g.proxy_write_port)
    || (int_eq v g.proxy_read_port || int_eq v g.proxy_write_port)

-- The first group of the range that uses one of the ports.
unfoldable pub find_conflict : ℤ → ℤ → Assoc Group → Option String
unfolding ports_conflict
find_conflict r v [] = none
find_conflict r v ((k, g) ∷ groups) =
    let rest = find_conflict r v groups in if ports_conflict r v g then some g.name else rest

abbrev pub raise_some : Option String → (String → Error) → Action (Unit {0})
raise_some none e = pure tt
raise_some (some x) e = raise (e x)

unfoldable pub has_server : String → List GroupServer → Bool
has_server addr [] = false
has_server addr (v ∷ vs) = v.addr == addr || has_server addr vs

unfoldable pub is_known_server : String → Assoc Group → Bool
unfolding has_server
is_known_server addr [] = false
is_known_server addr ((k, g) ∷ groups) = has_server addr g.servers || is_known_server addr groups

abbrev pub is_zero : ℕ → Bool
is_zero zero = true
is_zero (suc n) = false

-- `g.Promoting.State != dao.ActionNothing`
unfoldable pub is_active : Promoting → Bool
is_active p = elim p.state [
  | nothing ↦ false
  | preparing ↦ true
  | prepared ↦ true
  | finished ↦ true
  | other _ ↦ true
]

-- The struct literal of `CreateGroup`.
abbrev pub new_group : String → ℤ → ℤ → String → Group
new_group name r v create_time = record {
  name = name;
  servers = [];
  promoting = no_promotion;
  out_of_sync = false;
  proxy_read_port = r;
  proxy_write_port = v;
  create_time = create_time;
}

-- The group that `AddGroupServer` leaves.
abbrev pub with_server : Group → String → Group
with_server g addr = record g { servers = g.servers ++ record { addr = addr } ∷ [] }

-- The group that `DelGroupServer` leaves.
unfoldable pub without_server : Group → ℕ → Group
without_server g index =
    let servers = erase_idx g.servers index in
    let marked = if is_zero index then g.out_of_sync else true in
    record g { servers = servers; out_of_sync = if is_empty servers then false else marked }

-- The master that a server is given: the first of a group gets none.
abbrev pub sync_target : ℕ → String → String
sync_target zero master = "NO:ONE"
sync_target (suc i) master = master

abbrev pub note_failure : Result (Unit {0}) → String → List String → List String
note_failure (ok _) addr failed = failed
note_failure (err _) addr failed = addr ∷ failed

-- Whether the second write failed too.
abbrev pub is_failure : Result (Unit {0}) → Bool
is_failure (ok _) = false
is_failure (err _) = true
