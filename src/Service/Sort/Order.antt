-- ===== src/Service/Sort/Order.antt =====
-- The order of the sorted groups.
use mathlib.Core.List.{Perm}
use mathlib.Core.List.Perm
use pikamgr.Base.{
  false, List, [], ◌∷◌, ◌≡◌, str_lt, str_lt-asym, Assoc, values, Bool-cases, inl, inr,
}
use pikamgr.Dao.{Group}
use pikamgr.Service.Sort.{insert_group, sort_list, sort_groups}

-- The group was not created before the first of the others.
abbrev IsNotBefore : Group → List Group → Type 0
IsNotBefore g [] = Unit
IsNotBefore g (h ∷ hs) = str_lt g.create_time h.create_time ≡ false

-- No group was created before its successor.
abbrev pub IsLatestFirst : List Group → Type 0
IsLatestFirst [] = Unit
IsLatestFirst (g ∷ gs) = IsNotBefore g gs × IsLatestFirst gs

insert_group-IsNotBefore :
    (h g : Group) (gs : List Group)
    → IsNotBefore h gs
    → str_lt h.create_time g.create_time ≡ false
    → IsNotBefore h (insert_group g gs)
unfolding insert_group
insert_group-IsNotBefore h g [] p q = q
insert_group-IsNotBefore h g (x ∷ xs) p q = elim (Bool-cases (str_lt g.create_time x.create_time)) [
  | inl before ↦ rw before p
  | inr after ↦ rw after q
]

insert_group-IsLatestFirst :
    (g : Group) (gs : List Group) → IsLatestFirst gs → IsLatestFirst (insert_group g gs)
unfolding insert_group
insert_group-IsLatestFirst g [] sorted = (tt, tt)
insert_group-IsLatestFirst g (h ∷ hs) (here, sorted) =
    elim (Bool-cases (str_lt g.create_time h.create_time)) [
      | inl before ↦ rw before (
        insert_group-IsNotBefore h g hs here (str_lt-asym g.create_time h.create_time before),
        insert_group-IsLatestFirst g hs sorted,
      )
      | inr after ↦ rw after (after, (here, sorted))
    ]

insert_group-perm : (g : Group) (gs : List Group) → Perm (insert_group g gs) (g ∷ gs)
unfolding insert_group
insert_group-perm g [] = Perm.refl (g ∷ [])
insert_group-perm g (h ∷ hs) = elim (Bool-cases (str_lt g.create_time h.create_time)) [
  | inl before ↦ rw before (Perm.trans (Perm.cons h (insert_group-perm g hs)) (Perm.swap g h hs))
  | inr after ↦ rw after (Perm.refl (g ∷ h ∷ hs))
]

sort_list-IsLatestFirst : (gs : List Group) → Perm (sort_list gs) gs × IsLatestFirst (sort_list gs)
unfolding sort_list
sort_list-IsLatestFirst [] = (Perm.refl [], tt)
sort_list-IsLatestFirst (g ∷ gs) =
    let (same, sorted) = sort_list-IsLatestFirst gs in
    (
      Perm.trans (insert_group-perm g (sort_list gs)) (Perm.cons g same),
      insert_group-IsLatestFirst g (sort_list gs) sorted,
    )

-- The sorted groups are those of the map, each once, and none stands before one that was created
-- later, by the text of the times.
pub sort_groups-IsLatestFirst :
    (groups : Assoc Group)
    → Perm (sort_groups groups) (values groups) × IsLatestFirst (sort_groups groups)
unfolding sort_groups
sort_groups-IsLatestFirst groups = sort_list-IsLatestFirst (values groups)
