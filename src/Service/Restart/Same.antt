-- ===== src/Service/Restart/Same.antt =====
-- A restart finds what was cached before it.
use pikamgr.Base.{
  String, true, false, List, [], ◌∷◌, some, ◌≡◌, sym, ◌∙◌, subst, ap, inl, inr, arith, Assoc,
  lookup, codes, Option-cases,
}
use pikamgr.Coordinate.{NodePath, group_dir, group_path, group_node, sentinel_path}
use pikamgr.Coordinate.Plain.{IsPlain}
use pikamgr.Coordinate.Paths.{IsBaseName, group_path-IsPlain}
use pikamgr.Dao.{Group, Sentinel, Value, group_value, sentinel_value}
use pikamgr.World.{World, State}
use pikamgr.Config.{validate_product}
use pikamgr.Config.Product.{validate_product-IsBaseName}
use pikamgr.Mapper.Load.{Reader, read_group, load_groups, load_sentinel}
use pikamgr.Service.Api.{Call, serve}
use pikamgr.Service.Restart.Backed.{stored_group, IsBacked}
use pikamgr.Service.Restart.Writes.{IsServing}
use pikamgr.Service.Restart.Serves.{ArePlainCalls, serve-IsBacked}
use pikamgr.Service.Restart.Loads.{Reads, is_listed, Stands, Read, read_all}

module _ (product : String) (blank : Sentinel) (c : Reader Value) (s : State)
    (b : IsBacked product blank s) (reads : Reads c product s.store) where
  -- A plain node of the directory is that of a cached group.
  Stands-group_path :
      (q : NodePath) (k : String) (v : Value)
      → q ≡ group_path product k
      → IsPlain (codes k)
      → s.store q ≡ some v
      → Stands product s.groups c q
  unfolding read_group
  Stands-group_path q k v at plain held =
      let stored : s.store q ≡ stored_group (lookup k s.groups) =
        ap s.store at ∙ b.groups k plain in
      elim (Option-cases (lookup k s.groups)) [
        | inl absent ↦ absurd (ground arith)
        | inr (g, here) ↦
            let there : s.store q ≡ some (group_value g) = ground arith in
            record {
              name = k;
              group = g;
              here = here;
              named = (b.named k g here).0;
              at = at;
              plain = plain;
              gives =
                  ground
                    (arith, reads.read_there q (group_value g) true there, reads.decode_group g);
            }
      ]

  Stands-is_listed : (q : NodePath) → is_listed q reads.paths ≡ true → Stands product s.groups c q
  Stands-is_listed q listed =
      let (seg, v, e, held) = reads.sound q listed in
      let (k, node, plain) = b.children seg v (subst (λ p. s.store p ≡ some v) e held) in
      Stands-group_path q k v
        (e ∙ ap (λ x. x ∷ group_dir product) node ∙ sym (group_path-IsPlain product k plain)) plain
        held

  all_read : Read product s.groups c reads.paths []
  all_read =
      read_all product s.groups c reads.paths [] Stands-is_listed (λ k g e. absurd (ground arith))

  loaded-lookup : (k : String) → lookup k all_read.after ≡ lookup k s.groups
  loaded-lookup k = elim (Option-cases (lookup k s.groups)) [
    | inr (g, here) ↦
        let plain : IsPlain (codes k) = (b.named k g here).1 in
        let held : s.store (group_path product k) ≡ some (group_value g) =
          ground (arith, b.groups k plain) in
        let node : s.store (group_node k ∷ group_dir product) ≡ some (group_value g) =
          rw (← group_path-IsPlain product k plain) held in
        all_read.new k g here plain (
          rw (group_path-IsPlain product k plain)
            (reads.complete (group_node k) (group_value g) node))
        ∙ sym here
    | inl absent ↦ elim (Option-cases (lookup k all_read.after)) [
      | inl gone ↦ gone ∙ sym absent
      | inr (g, found) ↦ absurd (ground (arith, all_read.part k g found))
    ]
  ]

  loaded-groups : load_groups c product ≡ some all_read.after
  unfolding load_groups
  loaded-groups = rw reads.listed all_read.result

  loaded-sentinel : load_sentinel c product blank ≡ some s.sentinel
  unfolding load_sentinel
  loaded-sentinel = elim b.sentinel [
    | inl held ↦ ground (
      arith,
      reads.read_there (sentinel_path product) (sentinel_value s.sentinel) false held,
      reads.decode_sentinel s.sentinel,
    )
    | inr (gone, same) ↦ ground (arith, reads.read_absent (sentinel_path product) gone)
  ]

-- The caches that a start loads are those of the given state.
pub record IsRestored (c : Reader Value) (product : String) (blank : Sentinel) (s : State)
    : Type 0 where
  pub loaded : Assoc Group
  pub groups : load_groups c product ≡ some loaded
  pub same : (k : String) → lookup k loaded ≡ lookup k s.groups
  pub sentinel : load_sentinel c product blank ≡ some s.sentinel

-- In a product that the configuration accepts, if the coordinator serves every write, then after any calls whose new names have no slash, whatever
-- of them failed and whatever the servers and the sentinels answered, a start of the dashboard loads
-- without an error, and its caches hold each group and the sentinels' record as they were cached
-- before, if that was so in the beginning.
pub serve-IsRestored :
    (w : World) (blank : Sentinel) (cs : List Call) (s : State) (c : Reader Value)
    → IsServing w
    → validate_product w.product_name ≡ true
    → ArePlainCalls cs
    → IsBacked w.product_name blank s
    → Reads c w.product_name (serve w cs s).store
    → IsRestored c w.product_name blank (serve w cs s)
serve-IsRestored w blank cs s c serving valid plain b reads =
    let base : IsBaseName w.product_name = validate_product-IsBaseName w.product_name valid in
    let b' : IsBacked w.product_name blank (serve w cs s) =
      serve-IsBacked w blank serving base cs s plain b in
    record {
      loaded = (all_read w.product_name blank c (serve w cs s) b' reads).after;
      groups = loaded-groups w.product_name blank c (serve w cs s) b' reads;
      same = loaded-lookup w.product_name blank c (serve w cs s) b' reads;
      sentinel = loaded-sentinel w.product_name blank c (serve w cs s) b' reads;
    }
