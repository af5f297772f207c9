-- ===== src/Service/Groups/Tracks.antt =====
-- An operation that writes one group several times: all its writes are rearrangements of the group
-- that it read.
use pikamgr.Base.{
  String, true, false, List, [], ◌∷◌, some, ◌≡◌, refl, sym, ◌∙◌, subst, ap, ◌⊎◌, inl, inr,
  Bool-cases, Option-cases, arith, lookup, insert, lookup-insert, eq_refl, ◌==◌, if◌then◌else◌,
}
use pikamgr.Coordinate.{group_path}
use pikamgr.Dao.{Group, group_value, master_of}
use pikamgr.World.{World, State, request, client_update, store_update, set_group, resync_failed}
use pikamgr.World.Keeps.{Keeps, Keeps-bind, Keeps-attempt, Keeps-pure, Keeps-raise}
use pikamgr.Mapper.{group_update}
use pikamgr.Service.Checks.{has_server, is_failure}
use pikamgr.Service.Servers.{AreOnce}
use pikamgr.Service.Groups.{mark_out_of_sync, resync_servers, resync_one, resync_group}
use pikamgr.Service.Groups.Valid.{IsSound, IsValid, IsSetAt, Shrinks, IsValid-shrink}
use pikamgr.Service.Groups.Resync.{IsLocal, sync_servers-Keeps}

-- The same name and ports, and the same servers in some order, each once.
pub record Similar (g h : Group) : Type 0 where
  pub name : h.name ≡ g.name
  pub read : h.proxy_read_port ≡ g.proxy_read_port
  pub write : h.proxy_write_port ≡ g.proxy_write_port
  pub members : (a : String) → has_server a h.servers ≡ has_server a g.servers
  pub once : AreOnce h.servers

-- The cache is valid, and what stands at a name is similar to the group that was read there.
pub record Tracks (name : String) (g : Group) (s : State) : Type 0 where
  pub valid : IsValid s.groups
  pub named : g.name ≡ name
  pub current : Group
  pub found : lookup name s.groups ≡ some current
  pub similar : Similar g current

Similar-Shrinks : (g c h : Group) → Similar g c → Similar g h → Shrinks c h
Similar-Shrinks g c h p q = record {
  name = q.name ∙ sym p.name;
  read = q.read ∙ sym p.read;
  write = q.write ∙ sym p.write;
  fewer = λ a e. p.members a ∙ sym (q.members a) ∙ e;
  once = q.once;
}

-- A valid cache tracks what is read from it.
pub Tracks-read :
    (name : String) (g : Group) (s : State)
    → IsValid s.groups
    → lookup name s.groups ≡ some g
    → Tracks name g s
Tracks-read name g s v e =
    let here : IsSound name g = v.sound name g e in
    record {
      valid = v;
      named = here.named;
      current = g;
      found = e;
      similar = record {
        name = refl;
        read = refl;
        write = refl;
        members = λ a. refl;
        once = here.once;
      };
    }

group_update-groups :
    (w : World) (h : Group) (s : State)
    → ((group_update w h s).1.groups ≡ s.groups)
      ⊎ ((group_update w h s).1.groups ≡ insert h.name h s.groups)
unfolding group_update client_update request
group_update-groups w h s =
    elim (Bool-cases
      (w.reply s.trace (store_update (group_path w.product_name h.name) (group_value h)))) [
        | inl served ↦ inr (ground arith)
        | inr refused ↦ inl (ground arith)
      ]

module _ (name : String) (g : Group) where
  pub Tracks-IsLocal : IsLocal (Tracks name g)
  unfolding request
  Tracks-IsLocal = record {
    at_request = λ w e. record {
      at = λ s t. record {
        valid = t.valid;
        named = t.named;
        current = t.current;
        found = t.found;
        similar = t.similar;
      };
    };
  }

  -- A view of the cache in which a similar group is set.
  Tracks-view :
      (h : Group) (s t : State)
      → Similar g h
      → Tracks name g s
      → IsSetAt name h s.groups t.groups
      → Tracks name g t
  Tracks-view h s t q k view = record {
    valid =
        IsValid-shrink name k.current h s.groups t.groups k.valid k.found view
          (Similar-Shrinks g k.current h k.similar q);
    named = k.named;
    current = h;
    found = view name ∙ ground (arith, eq_refl name);
    similar = q;
  }

  pub set_group-Tracks : (h : Group) → Similar g h → Keeps (Tracks name g) (set_group name h)
  set_group-Tracks h q = record {
    at = λ s k. Tracks-view h s _ q k (λ j. lookup-insert name j h s.groups);
  }

  pub Tracks-cong : (s t : State) → Tracks name g s → t.groups ≡ s.groups → Tracks name g t
  Tracks-cong s t k e = record {
    valid = subst IsValid (sym e) k.valid;
    named = k.named;
    current = k.current;
    found = ap (lookup name) e ∙ k.found;
    similar = k.similar;
  }

  pub group_update-Tracks :
      (w : World) (h : Group) → Similar g h → Keeps (Tracks name g) (group_update w h)
  group_update-Tracks w h q = record {
    at = λ s k. elim (group_update-groups w h s) [
      | inl same ↦ Tracks-cong s _ k same
      | inr new ↦ Tracks-view h s _ q k (λ j.
          ap (lookup j) new
          ∙ lookup-insert h.name j h s.groups
          ∙ ap (λ n. if n == j then some h else lookup j s.groups) (q.name ∙ k.named))
    ];
  }

  mark_out_of_sync-Tracks :
      (w : World) (h : Group) (failed : List String)
      → Similar g h
      → g.name ≡ name
      → Keeps (Tracks name g) (mark_out_of_sync w h failed)
  unfolding mark_out_of_sync
  mark_out_of_sync-Tracks w h [] q n = Keeps-pure tt
  mark_out_of_sync-Tracks w h (a ∷ failed) q n =
      let h' : Group = record h { out_of_sync = true } in
      let q' : Similar g h' = record {
        name = q.name;
        read = q.read;
        write = q.write;
        members = q.members;
        once = q.once;
      } in
      Keeps-bind _ _
        (subst (λ k. Keeps (Tracks name g) (set_group k h')) (sym (q.name ∙ n))
          (set_group-Tracks h' q'))
        (λ _.
          Keeps-bind _ _ (Keeps-attempt _ (group_update-Tracks w h' q'))
            (λ written. Keeps-raise (resync_failed (a ∷ failed) (is_failure written))))

  pub resync_servers-Tracks :
      (w : World) (h : Group)
      → Similar g h
      → g.name ≡ name
      → Keeps (Tracks name g) (resync_servers w h)
  unfolding resync_servers
  resync_servers-Tracks w h q n =
      Keeps-bind _ _ (sync_servers-Keeps w Tracks-IsLocal (master_of h.servers) 0 h.servers)
        (λ failed. mark_out_of_sync-Tracks w h failed q n)

  pub resync_one-Tracks :
      (w : World) → AreOnce g.servers → g.name ≡ name → Keeps (Tracks name g) (resync_one w name g)
  unfolding resync_one
  resync_one-Tracks w o n =
      let h : Group = record g { out_of_sync = false } in
      let q : Similar g h = record {
        name = refl;
        read = refl;
        write = refl;
        members = λ a. refl;
        once = o;
      } in
      Keeps-bind _ _ (set_group-Tracks h q)
        (λ _. Keeps-bind _ _ (group_update-Tracks w h q) (λ _. resync_servers-Tracks w h q n))

-- Synchronising a group keeps the invariant.
pub resync_group-IsValid :
    (w : World) (name : String) (s : State)
    → IsValid s.groups
    → IsValid (resync_group w name s).1.groups
unfolding resync_group
resync_group-IsValid w name s v = elim (Option-cases (lookup name s.groups)) [
  | inl e ↦ rw e v
  | inr (g, e) ↦
      rw e
        ((resync_one-Tracks name g w (v.sound name g e).once (v.sound name g e).named).at s
          (Tracks-read name g s v e)).valid
]
