-- ===== src/Mapper/Load/Named.antt =====
-- What holds of the caches as they are loaded.
use pikamgr.Base.{
  and_then, String, true, false, List, [], ◌∷◌, some, ◌≡◌, refl, subst, arith, Assoc, lookup,
  insert, lookup-insert, is_empty, eq_iff, ◌==◌, codes, Bool-cases, Option-cases, inl, inr,
}
use pikamgr.Coordinate.{NodePath, group_dir, gslb_dir}
use pikamgr.Dao.{Group, Gslb}
use pikamgr.Mapper.Load.{
  Reader, is_base, keep_gslb, read_group, read_groups, load_groups, read_gslbs, read_all_gslbs,
  load_gslbs,
}

-- A predicate on the entries of a map.
abbrev AllEntries : {A : Type 0} → (String → A → Type 0) → Assoc A → Type 0
AllEntries {A} P m = (k : String) (a : A) → lookup k m ≡ some a → P k a

AllEntries-insert :
    {A : Type 0} (P : String → A → Type 0) (k : String) (a : A) (m : Assoc A)
    → P k a
    → AllEntries P m
    → AllEntries P (insert k a m)
AllEntries-insert P k a m p all j b e = elim (Bool-cases (k == j)) [
  | inl same ↦
      let found : some b ≡ some a = ground (arith, lookup-insert k j a m) in
      subst (λ x. P x b) ((eq_iff k j).0 same) (subst (λ x. P k x) (ground arith) p)
  | inr differ ↦ all j b (ground (arith, lookup-insert k j a m))
]

-- A group under its own name.
abbrev pub IsNamed : String → Group → Type 0
IsNamed k g = g.name ≡ k

-- A load balancer under its own name, with an address.
record IsServed (k : String) (g : Gslb) : Type 0 where
  pub named : g.name ≡ k
  pub served : is_empty g.servers ≡ false

module _ {Data : Type 0} (c : Reader Data) where
  read_groups-IsNamed :
      (paths : List NodePath) (before groups : Assoc Group)
      → AllEntries IsNamed before
      → read_groups c paths before ≡ some groups
      → AllEntries IsNamed groups
  unfolding read_groups
  read_groups-IsNamed [] before groups all e = subst (λ m. AllEntries IsNamed m) (ground arith) all
  read_groups-IsNamed (path ∷ paths) before groups all e = elim (Option-cases (read_group c path)) [
    | inl absent ↦ absurd (ground arith)
    | inr (g, found) ↦
        read_groups-IsNamed paths (insert g.name g before) groups
          (AllEntries-insert IsNamed g.name g before refl all) (ground arith)
  ]

  keep_gslb-IsServed :
      (g : Gslb) (m : Assoc Gslb) → AllEntries IsServed m → AllEntries IsServed (keep_gslb g m)
  keep_gslb-IsServed g m all = elim (Bool-cases (is_empty g.servers)) [
    | inl gone ↦ rw gone all
    | inr there ↦
        rw there
          (AllEntries-insert IsServed g.name g m (record { named = refl; served = there }) all)
  ]

  read_gslbs-IsServed :
      (product : String) (paths : List NodePath) (before after : Assoc Gslb)
      → AllEntries IsServed before
      → read_gslbs c product paths before ≡ some after
      → AllEntries IsServed after
  unfolding read_gslbs
  read_gslbs-IsServed product [] before after all e =
      subst (λ m. AllEntries IsServed m) (ground arith) all
  read_gslbs-IsServed product (path ∷ paths) before after all e =
      elim (Bool-cases (is_base path (codes product))) [
        | inr other ↦ read_gslbs-IsServed product paths before after all (ground arith)
        | inl ours ↦ elim (Option-cases (and_then (c.read path true) c.decode_gslb)) [
          | inl absent ↦ absurd (ground arith)
          | inr (g, found) ↦
              read_gslbs-IsServed product paths (keep_gslb g before) after
                (keep_gslb-IsServed g before all) (ground arith)
        ]
      ]

  read_all_gslbs-IsServed :
      (product : String) (paths : List NodePath) (before after : Assoc Gslb)
      → AllEntries IsServed before
      → read_all_gslbs c product paths before ≡ some after
      → AllEntries IsServed after
  unfolding read_all_gslbs
  read_all_gslbs-IsServed product [] before after all e =
      subst (λ m. AllEntries IsServed m) (ground arith) all
  read_all_gslbs-IsServed product (path ∷ paths) before after all e =
      elim (Option-cases (c.children path false)) [
        | inl absent ↦ absurd (ground arith)
        | inr (below, listed) ↦ elim (Option-cases (read_gslbs c product below before)) [
          | inl failed ↦ absurd (ground arith)
          | inr (more, found) ↦
              read_all_gslbs-IsServed product paths more after
                (read_gslbs-IsServed product below before more all found) (ground arith)
        ]
      ]

load_groups-IsNamed :
    {Data : Type 0} (c : Reader Data) (product k : String) (groups : Assoc Group) (g : Group)
    → load_groups c product ≡ some groups
    → lookup k groups ≡ some g
    → g.name ≡ k
unfolding load_groups
load_groups-IsNamed c product k groups g e found =
    elim (Option-cases (c.children (group_dir product) false)) [
      | inl absent ↦ absurd (ground arith)
      | inr (paths, listed) ↦
          read_groups-IsNamed c paths [] groups (λ j a q. absurd (ground arith)) (ground arith) k g
            found
    ]

load_gslbs-IsServed :
    {Data : Type 0} (c : Reader Data) (product k : String) (gslbs : Assoc Gslb) (g : Gslb)
    → load_gslbs c product ≡ some gslbs
    → lookup k gslbs ≡ some g
    → (g.name ≡ k) × (is_empty g.servers ≡ false)
unfolding load_gslbs
load_gslbs-IsServed c product k gslbs g e found = elim (Option-cases (c.children gslb_dir false)) [
  | inl absent ↦ absurd (ground arith)
  | inr (paths, listed) ↦
      let h : IsServed k g =
        read_all_gslbs-IsServed c product paths [] gslbs (λ j a q. absurd (ground arith))
          (ground arith) k g found in
      (h.named, h.served)
]

-- Whatever the coordinator holds, if a start loads the groups and the load balancers, then each of
-- them stands under its own name, and each load balancer has an address.
load-IsServed :
    {Data : Type 0} (c : Reader Data) (product : String) (groups : Assoc Group) (gslbs : Assoc Gslb)
    → load_groups c product ≡ some groups
    → load_gslbs c product ≡ some gslbs
    → ((k : String) (g : Group) → lookup k groups ≡ some g → g.name ≡ k)
      × ((k : String) (g : Gslb)
          → lookup k gslbs ≡ some g
          → (g.name ≡ k) × (is_empty g.servers ≡ false))
load-IsServed c product groups gslbs e d = (
  λ k g found. load_groups-IsNamed c product k groups g e found,
  λ k g found. load_gslbs-IsServed c product k gslbs g d found,
)
