-- ===== src/Service/Restart/Backed.antt =====
-- The invariant of a service whose writes succeed: what is cached stands in the coordinator.
use pikamgr.Base.{
  String, false, ◌∷◌, Option, none, some, ◌≡◌, ◌≢◌, sym, ◌∙◌, ap, subst, ◌⊎◌, inl, inr, arith,
  lookup, codes, ◌==◌, eq_iff, Bool-cases, if◌then◌else◌,
}
use pikamgr.Coordinate.{
  Segment, NodePath, path_eq, group_dir, group_path, group_node, sentinel_path, gslb_path,
}
use pikamgr.Coordinate.Plain.{IsPlain, path_eq_iff, path_eq_refl}
use pikamgr.Coordinate.Paths.{
  IsBaseName, group_path-IsPlain, group_path-injective, group_path-apart,
}
use pikamgr.Dao.{Group, Sentinel, Gslb, Value, group_value, sentinel_value}
use pikamgr.World.{State}
use pikamgr.Coordinate.Apart.{gslb_path-group, gslb_path-sentinel, sentinel_path-group}

-- What the node of a group holds.
abbrev pub stored_group : Option Group → Option Value
stored_group none = none
stored_group (some g) = some (group_value g)

-- What the node of the sentinels holds: the cached record, or nothing as long as that is `blank`,
-- the record that the mapper starts with.
abbrev pub IsStored : Sentinel → Option Value → Sentinel → Type 0
IsStored blank found x = (found ≡ some (sentinel_value x)) ⊎ ((found ≡ none) × (x ≡ blank))

pub record IsBacked (product : String) (blank : Sentinel) (s : State) : Type 0 where
  -- each cached group and each load balancer stands under its own name, which has no slash
  pub named :
      (k : String) (g : Group) → lookup k s.groups ≡ some g → (g.name ≡ k) × IsPlain (codes k)
  pub balancers :
      (k : String) (g : Gslb) → lookup k s.gslbs ≡ some g → (g.name ≡ k) × IsPlain (codes k)
  -- the node of a group holds the cached group, and nothing if none is cached
  pub groups :
      (k : String)
      → IsPlain (codes k)
      → s.store (group_path product k) ≡ stored_group (lookup k s.groups)
  -- the groups' directory has no other children
  pub children :
      (seg : Segment) (v : Value)
      → s.store (seg ∷ group_dir product) ≡ some v
      → (k : String) × (seg ≡ group_node k) × IsPlain (codes k)
  pub sentinel : IsStored blank (s.store (sentinel_path product)) s.sentinel

pub path_eq-false : (p q : NodePath) → p ≢ q → path_eq p q ≡ false
path_eq-false p q n = elim (Bool-cases (path_eq p q)) [
  | inl same ↦ absurd (n ((path_eq_iff p q).0 same))
  | inr differ ↦ differ
]

-- The nodes of two plain names are the same if the names are.
pub path_eq-group_path :
    (product name k : String)
    → IsPlain (codes name)
    → IsPlain (codes k)
    → path_eq (group_path product name) (group_path product k) ≡ (name == k)
path_eq-group_path product name k h l = elim (Bool-cases (name == k)) [
  | inl same ↦ (path_eq_iff _ _).1 (ap (group_path product) ((eq_iff name k).0 same)) ∙ sym same
  | inr differ ↦
      path_eq-false _ _ (group_path-injective product name k h l (λ e. cc ((eq_iff name k).1 e)))
      ∙ sym differ
]

module _ (product : String) (blank : Sentinel) (s t : State) where
  -- One group is set or removed, in the cache and in the coordinator.
  pub IsBacked-group :
      (name : String) (o : Option Group)
      → IsPlain (codes name)
      → ((g : Group) → o ≡ some g → g.name ≡ name)
      → ((j : String) → lookup j t.groups ≡ (if name == j then o else lookup j s.groups))
      → ((q : NodePath)
          → t.store q ≡ (if path_eq (group_path product name) q then stored_group o else s.store q))
      → t.sentinel ≡ s.sentinel
      → t.gslbs ≡ s.gslbs
      → IsBacked product blank s
      → IsBacked product blank t
  IsBacked-group name o plain self cache store same_sentinel same_gslbs b = record {
    named = λ k g e. elim (Bool-cases (name == k)) [
      | inl here ↦
          let p : name ≡ k = (eq_iff name k).0 here in
          (self g (ground (arith, cache k)) ∙ p, subst (λ j. IsPlain (codes j)) p plain)
      | inr there ↦ b.named k g (ground (arith, cache k))
    ];
    balancers = λ k g e. b.balancers k g (rw (← same_gslbs) e);
    groups = λ k h. elim (Bool-cases (name == k)) [
      | inl here ↦
          ground (
            arith,
            store (group_path product k),
            cache k,
            path_eq-group_path product name k plain h,
          )
      | inr there ↦ ground (
        arith,
        store (group_path product k),
        cache k,
        path_eq-group_path product name k plain h,
        b.groups k h,
      )
    ];
    children = λ seg v e.
        elim (Bool-cases (path_eq (group_path product name) (seg ∷ group_dir product))) [
          | inl here ↦
              let p : group_node name ∷ group_dir product ≡ seg ∷ group_dir product =
                sym (group_path-IsPlain product name plain) ∙ (path_eq_iff _ _).0 here in
              (name, cc, plain)
          | inr there ↦ b.children seg v (ground (arith, store (seg ∷ group_dir product)))
        ];
    sentinel =
        let p : t.store (sentinel_path product) ≡ s.store (sentinel_path product) = ground (
          arith,
          store (sentinel_path product),
          path_eq-false _ _ ((group_path-apart product name plain).0),
        ) in
        rw (p, same_sentinel) b.sentinel;
  }

  -- The sentinels' record is set.
  pub IsBacked-sentinel :
      (x : Sentinel)
      → IsBaseName product
      → t.groups ≡ s.groups
      → t.gslbs ≡ s.gslbs
      → ((q : NodePath)
          → t.store q
            ≡ (if path_eq (sentinel_path product) q then some (sentinel_value x) else s.store q))
      → t.sentinel ≡ x
      → IsBacked product blank s
      → IsBacked product blank t
  IsBacked-sentinel x base same_groups same_gslbs store set b = record {
    named = λ k g e. b.named k g (rw (← same_groups) e);
    balancers = λ k g e. b.balancers k g (rw (← same_gslbs) e);
    groups = λ k h.
        let apart : sentinel_path product ≢ group_path product k =
          λ e. (group_path-apart product k h).0 (sym e) in
        rw same_groups
          (ground (arith, store (group_path product k), path_eq-false _ _ apart, b.groups k h));
    children = λ seg v e. b.children seg v (
        ground (
          arith,
          store (seg ∷ group_dir product),
          path_eq-false _ _ (sentinel_path-group product base seg),
        ));
    sentinel = inl (
        rw set
          (ground (arith, store (sentinel_path product), path_eq_refl (sentinel_path product))));
  }

  -- The record of a load balancer is set or removed in the coordinator.
  pub IsBacked-gslb :
      (name : String) (o : Option Value)
      → IsBaseName product
      → IsPlain (codes name)
      → t.groups ≡ s.groups
      → ((k : String) (g : Gslb) → lookup k t.gslbs ≡ some g → (g.name ≡ k) × IsPlain (codes k))
      → ((q : NodePath) → t.store q ≡ (if path_eq (gslb_path name product) q then o else s.store q))
      → t.sentinel ≡ s.sentinel
      → IsBacked product blank s
      → IsBacked product blank t
  IsBacked-gslb name o base plain same_groups named store same_sentinel b = record {
    named = λ k g e. b.named k g (rw (← same_groups) e);
    balancers = named;
    groups = λ k h.
        let apart : gslb_path name product ≢ group_path product k = λ e.
          gslb_path-group product base name (group_node k) plain
            (e ∙ group_path-IsPlain product k h) in
        rw same_groups
          (ground (arith, store (group_path product k), path_eq-false _ _ apart, b.groups k h));
    children = λ seg v e. b.children seg v (
        ground (
          arith,
          store (seg ∷ group_dir product),
          path_eq-false _ _ (gslb_path-group product base name seg plain),
        ));
    sentinel =
        let p : t.store (sentinel_path product) ≡ s.store (sentinel_path product) = ground (
          arith,
          store (sentinel_path product),
          path_eq-false _ _ (gslb_path-sentinel product base name plain),
        ) in
        rw (p, same_sentinel) b.sentinel;
  }

  -- The parts that count are as before.
  pub IsBacked-same :
      t.groups ≡ s.groups
      → t.gslbs ≡ s.gslbs
      → t.store ≡ s.store
      → t.sentinel ≡ s.sentinel
      → IsBacked product blank s
      → IsBacked product blank t
  IsBacked-same same_groups same_gslbs same_store same_sentinel b = record {
    named = rw same_groups b.named;
    balancers = rw same_gslbs b.balancers;
    groups = rw (same_groups, same_store) b.groups;
    children = rw same_store b.children;
    sentinel = rw (same_store, same_sentinel) b.sentinel;
  }
