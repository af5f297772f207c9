-- ===== src/Service/Groups/Members.antt =====
-- Adding a server to a group and deleting one keeps the invariant, whatever the coordinator answers,
-- and whether it returns an error or not.
use pikamgr.Base.{
  ℕ, String, false, [], ◌∷◌, some, ◌==◌, ◌≡◌, refl, ◌⊎◌, arith, Assoc, lookup, eq_iff, ◌&&◌, ltb,
  length, Bool-cases, Option-cases, inl, inr, ◌∙◌,
}
use pikamgr.Dao.{Group, get_server_index}
use pikamgr.World.{World, State}
use pikamgr.World.Runs.{Result-cases}
use pikamgr.Service.Checks.{has_server, is_known_server, is_zero, with_server, without_server}
use pikamgr.Service.Servers.{
  AreOnce, has_server-append, AreOnce-append, has_server-erase, AreOnce-erase,
}
use pikamgr.Service.Gslbs.{write_group}
use pikamgr.Service.Gslbs.Frame.{write_group-lookup}
use pikamgr.Service.Sentinels.{out_of_sync_by_sentinel}
use pikamgr.Service.Sentinels.Frame.{groups-out_of_sync_by_sentinel}
use pikamgr.Service.Groups.{add_group_server, del_group_server}
use pikamgr.Service.Groups.Valid.{
  IsSound, AreApart, IsValid, IsSetAt, IsValid-set, Shrinks, IsValid-shrink,
}

-- The check of `AddGroupServer` sees every server.
pub is_known_server-false :
    (a : String) (groups : Assoc Group) (k : String) (g : Group)
    → is_known_server a groups ≡ false
    → lookup k groups ≡ some g
    → has_server a g.servers ≡ false
unfolding is_known_server
is_known_server-false a [] k g e h = ground arith
is_known_server-false a ((j, x) ∷ groups) k g e h =
    ground (arith, is_known_server-false a groups k g)

-- One more server that no group has.
with_server-Sound :
    (k : String) (g : Group) (addr : String)
    → has_server addr g.servers ≡ false
    → IsSound k g
    → IsSound k (with_server g addr)
with_server-Sound k g addr n h = record {
  named = h.named;
  two_ports = h.two_ports;
  once = AreOnce-append addr g.servers h.once n;
}

with_server-Apart :
    (g h : Group) (addr : String)
    → has_server addr h.servers ≡ false
    → AreApart g h
    → AreApart (with_server g addr) h
unfolding has_server
with_server-Apart g h addr n p = record {
  ports = p.ports;
  servers = λ a e. ground (
    arith,
    has_server-append a g.servers (record { addr = addr } ∷ []),
    p.servers a,
    eq_iff addr a,
  );
}

write_group-IsSetAt :
    (w : World) (name : String) (g : Group) (s : State)
    → g.name ≡ name
    → IsSetAt name g s.groups (write_group w name g s).1.groups
write_group-IsSetAt w name g s e = λ j. write_group-lookup w name j g s e

-- What `AddGroupServer` leaves in the cache: nothing new, or a server that no group had.
add_group_server-view :
    (w : World) (name addr : String) (s : State)
    → IsValid s.groups
    → ((add_group_server w name addr s).1.groups ≡ s.groups)
      ⊎ ((g : Group) × (is_known_server addr s.groups ≡ false)
          × (lookup name s.groups ≡ some g)
          × IsSetAt name (with_server g addr) s.groups (add_group_server w name addr s).1.groups)
unfolding add_group_server
add_group_server-view w name addr s v = elim (Option-cases (lookup name s.groups)) [
  | inl e ↦ inl (ground (arith, groups-out_of_sync_by_sentinel w s))
  | inr (g, e) ↦ elim (Bool-cases (is_known_server addr s.groups)) [
    | inl known ↦ inl (ground arith)
    | inr fresh ↦ elim (Bool-cases (addr == "")) [
      | inl blank ↦ inl (ground arith)
      | inr text ↦ elim (Result-cases (out_of_sync_by_sentinel w s).0) [
        | inl (_, done) ↦ inr (
          g,
          fresh,
          e,
          λ j. ground (
            arith,
            groups-out_of_sync_by_sentinel w s,
            write_group-lookup w name j (with_server g addr) (out_of_sync_by_sentinel w s).1
                (v.sound name g e).named,
          ),
        )
        | inr (x, failed) ↦ inl (ground (arith, groups-out_of_sync_by_sentinel w s))
      ]
    ]
  ]
]

-- Adding a server keeps the invariant.
pub add_group_server-IsValid :
    (w : World) (name addr : String) (s : State)
    → IsValid s.groups
    → IsValid (add_group_server w name addr s).1.groups
add_group_server-IsValid w name addr s v = elim (add_group_server-view w name addr s v) [
  | inl same ↦ rw same v
  | inr (g, fresh, e, view) ↦
      IsValid-set name (with_server g addr) s.groups _ v view
        (with_server-Sound name g addr (is_known_server-false addr s.groups name g fresh e)
          (v.sound name g e))
        (λ j h ne q.
          with_server-Apart g h addr (is_known_server-false addr s.groups j h fresh q)
            (v.apart name j g h ne e q))
]

name-without_server : (g : Group) (i : ℕ) → (without_server g i).name ≡ g.name
unfolding without_server
name-without_server g i = refl

without_server-Shrinks : (g : Group) (i : ℕ) → AreOnce g.servers → Shrinks g (without_server g i)
unfolding without_server
without_server-Shrinks g i o = record {
  name = refl;
  read = refl;
  write = refl;
  fewer = λ a e. has_server-erase a g.servers i e;
  once = AreOnce-erase g.servers i o;
}

-- What `DelGroupServer` leaves in the cache: nothing new, or the group without the server.
del_group_server-view :
    (w : World) (name addr : String) (s : State)
    → IsValid s.groups
    → ((del_group_server w name addr s).1.groups ≡ s.groups)
      ⊎ ((g : Group) × (i : ℕ) × (lookup name s.groups ≡ some g)
          × IsSetAt name (without_server g i) s.groups (del_group_server w name addr s).1.groups)
unfolding del_group_server
del_group_server-view w name addr s v = elim (Option-cases (lookup name s.groups)) [
  | inl e ↦ inl (ground arith)
  | inr (g, e) ↦ elim (Option-cases (get_server_index g addr)) [
    | inl absent ↦ inl (ground arith)
    | inr (i, at) ↦ elim (Bool-cases (is_zero i && ltb 1 (length g.servers))) [
      | inl used ↦ inl (ground arith)
      | inr free ↦ elim (Result-cases (out_of_sync_by_sentinel w s).0) [
        | inl (_, done) ↦ inr (
          g,
          i,
          e,
          λ j. ground (
            arith,
            groups-out_of_sync_by_sentinel w s,
            write_group-lookup w name j (without_server g i) (out_of_sync_by_sentinel w s).1
                (name-without_server g i ∙ (v.sound name g e).named),
          ),
        )
        | inr (x, failed) ↦ inl (ground (arith, groups-out_of_sync_by_sentinel w s))
      ]
    ]
  ]
]

pub del_group_server-IsValid :
    (w : World) (name addr : String) (s : State)
    → IsValid s.groups
    → IsValid (del_group_server w name addr s).1.groups
del_group_server-IsValid w name addr s v = elim (del_group_server-view w name addr s v) [
  | inl same ↦ rw same v
  | inr (g, i, e, view) ↦
      IsValid-shrink name g (without_server g i) s.groups _ v e view
        (without_server-Shrinks g i (v.sound name g e).once)
]
