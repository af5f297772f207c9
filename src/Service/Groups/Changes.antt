-- ===== src/Service/Groups/Changes.antt =====
-- Creating and removing a group keeps the invariant, whatever the coordinator answers, and whether it
-- returns an error or not.
use pikamgr.Base.{
  String, Bool, false, ◌||◌, [], ◌∷◌, none, some, ◌==◌, ◌≡◌, refl, ◌⊎◌, erase, arith, Assoc, lookup,
  lookup-insert, lookup-erase, if◌then◌else◌, is_empty, Bool-cases, Option-cases, inl, inr,
}
use pikamgr.Base.Int.{ℤ, int_eq}
use pikamgr.Dao.{group_value, Group}
use pikamgr.Coordinate.{group_path}
use pikamgr.World.{World, State, client_update, client_delete, request, store_delete, store_update}
use pikamgr.Mapper.{group_create, group_remove}
use pikamgr.Service.Checks.{is_bad_name, ports_conflict, find_conflict, new_group, has_server}
use pikamgr.Service.Groups.{create_group, remove_group}
use pikamgr.Service.Groups.Valid.{AreApart, IsValid, IsSetAt, IsValid-set}

-- The check of `CreateGroup` sees every group.
pub find_conflict-none :
    (r v : ℤ) (groups : Assoc Group) (k : String) (g : Group)
    → find_conflict r v groups ≡ none
    → lookup k groups ≡ some g
    → ports_conflict r v g ≡ false
unfolding find_conflict
find_conflict-none r v [] k g e h = ground arith
find_conflict-none r v ((j, x) ∷ groups) k g e h = ground (arith, find_conflict-none r v groups k g)

abbrev GroupsAreValid : State → Type 0
GroupsAreValid s = IsValid s.groups

-- A group that is removed.
IsValid-erase :
    (k : String) (groups after : Assoc Group)
    → IsValid groups
    → ((j : String) → lookup j after ≡ (if k == j then none else lookup j groups))
    → IsValid after
IsValid-erase k groups after v view = record {
  sound = λ j h e. v.sound j h (ground (arith, view j));
  apart = λ i j h l ne p q. v.apart i j h l ne (ground (arith, view i)) (ground (arith, view j));
}

-- What `RemoveGroup` leaves in the cache.
remove_group-groups :
    (w : World) (name : String) (s : State)
    → ((remove_group w name s).1.groups ≡ s.groups)
      ⊎ ((g : Group) × ((remove_group w name s).1.groups ≡ erase g.name s.groups))
unfolding remove_group group_remove client_delete request
remove_group-groups w name s = elim (Option-cases (lookup name s.groups)) [
  | inl e ↦ inl (ground arith)
  | inr (g, e) ↦ elim (Bool-cases (is_empty g.servers)) [
    | inl empty ↦
        elim (Bool-cases (w.reply s.trace (store_delete (group_path w.product_name g.name)))) [
          | inl served ↦ inr (g, ground arith)
          | inr failed ↦ inl (ground arith)
        ]
    | inr full ↦ inl (ground arith)
  ]
]

pub remove_group-IsValid :
    (w : World) (name : String) (s : State)
    → IsValid s.groups
    → IsValid (remove_group w name s).1.groups
remove_group-IsValid w name s v = elim (remove_group-groups w name s) [
  | inl e ↦ rw e v
  | inr (g, e) ↦ rw e (IsValid-erase g.name s.groups _ v (λ j. lookup-erase g.name j s.groups))
]

-- Whether the coordinator takes the new group.
abbrev pub stored : World → String → ℤ → ℤ → State → Bool
stored w name r p s =
    let g : Group = new_group name r p (w.now s.trace) in
    w.reply s.trace (store_update (group_path w.product_name name) (group_value g))

-- What `CreateGroup` leaves in the cache: nothing new, or an empty group with ports of its own.
create_group-view :
    (w : World) (name : String) (r p : ℤ) (s : State)
    → ((create_group w name r p s).1.groups ≡ s.groups)
      ⊎ ((int_eq r p ≡ false)
          × (find_conflict r p s.groups ≡ none)
          × (lookup name s.groups ≡ none)
          × IsSetAt name
              (new_group name r p (w.now s.trace))
              s.groups
              (create_group w name r p s).1.groups)
unfolding create_group group_create client_update request
create_group-view w name r p s = elim (Option-cases (lookup name s.groups)) [
  | inr (g, e) ↦ inl (ground arith)
  | inl fresh ↦ elim (Option-cases (find_conflict r p s.groups)) [
    | inr (k, clash) ↦ inl (ground arith)
    | inl clear ↦ elim (Bool-cases (int_eq r p || is_bad_name name)) [
      | inl bad ↦ inl (ground arith)
      | inr good ↦ elim (Bool-cases (stored w name r p s)) [
        | inl served ↦ inr (
          ground arith,
          clear,
          fresh,
          λ j. ground (arith, lookup-insert name j (new_group name r p (w.now s.trace)) s.groups),
        )
        | inr failed ↦ inl (ground arith)
      ]
    ]
  ]
]

new_group-Apart :
    (name t : String) (r p : ℤ) (h : Group)
    → ports_conflict r p h ≡ false
    → AreApart (new_group name r p t) h
unfolding has_server
new_group-Apart name t r p h clear = record { ports = clear; servers = λ a e. cc }

pub create_group-IsValid :
    (w : World) (name : String) (r p : ℤ) (s : State)
    → IsValid s.groups
    → IsValid (create_group w name r p s).1.groups
create_group-IsValid w name r p s v = elim (create_group-view w name r p s) [
  | inl same ↦ rw same v
  | inr (two, clear, fresh, view) ↦
      IsValid-set name (new_group name r p (w.now s.trace)) s.groups _ v view
        (record { named = refl; two_ports = two; once = tt })
        (λ j h ne q.
          new_group-Apart name (w.now s.trace) r p h (find_conflict-none r p s.groups j h clear q))
]
