-- ===== src/Service/Sentinels/Switch.antt =====
-- The switch of a master that the sentinels ask for.
use pikamgr.Base.{
  ℕ, zero, suc, String, some, ◌≡◌, ◌∙◌, refl, sym, inl, inr, lookup, Option-cases, Bool-cases, [],
  ◌∷◌, Assoc,
}
use pikamgr.Dao.{Group}
use pikamgr.World.{World, State}
use pikamgr.Service.Servers.{has_server-swap, AreOnce-swap}
use pikamgr.Service.Gslbs.{write_group}
use pikamgr.Service.Gslbs.Frame.{write_group-lookup}
use pikamgr.Service.Sentinels.{
  switched, switch_index, try_switch_group_master, switch_all, switch_masters,
}
use pikamgr.Service.Groups.Valid.{IsSound, IsValid, Shrinks, IsValid-shrink}

switched-Shrinks : (g : Group) (k : String) (i : ℕ) → IsSound k g → Shrinks g (switched g i)
switched-Shrinks g k i h = record {
  name = refl;
  read = refl;
  write = refl;
  fewer = λ a e. sym (has_server-swap a g.servers i) ∙ e;
  once = AreOnce-swap g.servers i h.once;
}

-- The group that stands at a name is written with another order of its servers.
write_switched-IsValid :
    (w : World) (name : String) (g : Group) (i : ℕ) (s : State)
    → IsValid s.groups
    → lookup name s.groups ≡ some g
    → IsValid (write_group w name (switched g i) s).1.groups
write_switched-IsValid w name g i s v e =
    IsValid-shrink name g (switched g i) s.groups _ v e
      (λ j. write_group-lookup w name j (switched g i) s (v.sound name g e).named)
      (switched-Shrinks g name i (v.sound name g e))

-- A switch of a group's master keeps the invariant.
pub try_switch_group_master-IsValid :
    (w : World) (name master : String) (run_id : String → String) (s : State)
    → IsValid s.groups
    → IsValid (try_switch_group_master w name master run_id s).1.groups
unfolding try_switch_group_master
try_switch_group_master-IsValid w name master run_id s v =
    elim (Option-cases (lookup name s.groups)) [
      | inl e ↦ rw e v
      | inr (g, e) ↦ elim (Option-cases (switch_index run_id master g.servers)) [
        | inl absent ↦ rw e (rw absent v)
        | inr (zero, at) ↦ rw e (rw at v)
        | inr (suc i, at) ↦ rw e (rw at (write_switched-IsValid w name g (suc i) s v e))
      ]
    ]

switch_all-IsValid :
    (w : World) (run_id : String → String) (masters : Assoc String) (s : State)
    → IsValid s.groups
    → IsValid (switch_all w run_id masters s).1.groups
unfolding switch_all
switch_all-IsValid w run_id [] s v = v
switch_all-IsValid w run_id ((name, master) ∷ rest) s v =
    switch_all-IsValid w run_id rest (try_switch_group_master w name master run_id s).1
      (try_switch_group_master-IsValid w name master run_id s v)

-- The answer of the sentinels keeps the invariant, whatever masters it names.
pub switch_masters-IsValid :
    (w : World) (masters : Assoc String) (s : State)
    → IsValid s.groups
    → IsValid (switch_masters w masters s).1.groups
unfolding switch_masters
switch_masters-IsValid w masters s v = elim (Bool-cases s.closed) [
  | inl closed ↦ rw closed v
  | inr open_ ↦ rw open_ (switch_all-IsValid w _ masters _ v)
]
