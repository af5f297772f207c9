-- ===== src/Coordinate/Apart.antt =====
-- The nodes of the groups, of the sentinels and of the load balancers are not the same.
use pikamgr.Base.{String, [], ◌∷◌, ◌≡◌, ◌≢◌, refl, sym, ◌∙◌, ◌⊎◌, inl, inr, arith, codes}
use pikamgr.Coordinate.{
  Segment, NodePath, parent, enter, walk, join, split_slash, base_dir, product_dir, product_path,
  group_dir, group_path, sentinel_path, topom_path, gslb_dir, gslb_path, group_node,
}
use pikamgr.Coordinate.Plain.{IsPlain, split_slash-IsPlain}
use pikamgr.Coordinate.Paths.{
  IsBaseName, join-IsBaseName, group_path-IsPlain, group_path-injective, group_path-apart,
}

enter-cases :
    (s : Segment) (p : NodePath) → (enter s p ≡ p) ⊎ ((enter s p ≡ parent p) ⊎ (enter s p ≡ s ∷ p))
unfolding enter
enter-cases [] p = inl refl
enter-cases (c ∷ []) p = ground arith
enter-cases (c ∷ d ∷ []) p = ground arith
enter-cases (c ∷ d ∷ e ∷ s) p = ground arith

pub join-IsPlain :
    (p : NodePath) (name : String)
    → IsPlain (codes name)
    → join p (codes name) ≡ enter (codes name) p
unfolding join walk
join-IsPlain p name h = rw (split_slash-IsPlain (codes name) h) refl

module _ (product : String) (base : IsBaseName product) where
  product_path-node : product_path product ≡ codes product ∷ codes "products" ∷ base_dir
  unfolding product_path product_dir join walk split_slash enter
  product_path-node = join-IsBaseName (codes "products" ∷ base_dir) product base

  group_dir-node : group_dir product ≡ codes "groups" ∷ codes product ∷ codes "products" ∷ base_dir
  unfolding group_dir join walk split_slash enter
  group_dir-node = rw product_path-node refl

  sentinel_path-node :
      sentinel_path product ≡ codes "sentinel" ∷ codes product ∷ codes "products" ∷ base_dir
  unfolding sentinel_path join walk split_slash enter
  sentinel_path-node = rw product_path-node refl

  gslb_path-node :
      (name : String)
      → IsPlain (codes name)
      → gslb_path name product ≡ codes product ∷ enter (codes name) gslb_dir
  unfolding gslb_path
  gslb_path-node name h =
      rw (join-IsPlain gslb_dir name h) (join-IsBaseName (enter (codes name) gslb_dir) product base)

  -- The node of a load balancer lies higher than that of a group.
  pub gslb_path-group :
      (name : String) (seg : Segment)
      → IsPlain (codes name)
      → gslb_path name product ≢ seg ∷ group_dir product
  unfolding gslb_dir join walk split_slash enter parent
  gslb_path-group name seg h e = elim (enter-cases (codes name) gslb_dir) [
    | inl same ↦ ground (arith, e, same, gslb_path-node name h, group_dir-node)
    | inr (inl up) ↦ ground (arith, e, up, gslb_path-node name h, group_dir-node)
    | inr (inr down) ↦ ground (arith, e, down, gslb_path-node name h, group_dir-node)
  ]

  pub gslb_path-sentinel :
      (name : String) → IsPlain (codes name) → gslb_path name product ≢ sentinel_path product
  unfolding gslb_dir join walk split_slash enter parent
  gslb_path-sentinel name h e = elim (enter-cases (codes name) gslb_dir) [
    | inl same ↦ ground (arith, e, same, gslb_path-node name h, sentinel_path-node)
    | inr (inl up) ↦ ground (arith, e, up, gslb_path-node name h, sentinel_path-node)
    | inr (inr down) ↦ ground (arith, e, down, gslb_path-node name h, sentinel_path-node)
  ]

  -- The sentinels' node is no child of the groups' directory.
  pub sentinel_path-group : (seg : Segment) → sentinel_path product ≢ seg ∷ group_dir product
  sentinel_path-group seg e = ground (arith, e, sentinel_path-node, group_dir-node)

-- All of it together.
pub group_path-alone :
    (product group other gslb : String)
    → IsBaseName product
    → IsPlain (codes group)
    → IsPlain (codes other)
    → IsPlain (codes gslb)
    → group ≢ other
    → (group_path product group ≢ group_path product other)
      × (group_path product group ≢ gslb_path gslb product)
      × (group_path product group ≢ sentinel_path product)
      × (group_path product group ≢ topom_path product)
group_path-alone product group other gslb base h k l differ = (
  group_path-injective product group other h k differ,
  λ e.
      gslb_path-group product base gslb (group_node group) l
        (sym e ∙ group_path-IsPlain product group h),
  (group_path-apart product group h).0,
  (group_path-apart product group h).1,
)
