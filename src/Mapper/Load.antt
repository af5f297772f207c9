-- ===== src/Mapper/Load.antt =====
-- The loading of the caches at the start: `init` of the mappers for groups, sentinels and load
-- balancers in topom/dao/mapper.
pub mod Named
use pikamgr.Base.{
  and_then, ℕ, String, Bool, true, false, List, [], ◌∷◌, Option, none, some, ◌≡◌, refl, ◌≢◌, subst,
  sym, ◌∙◌, arith, Assoc, lookup, insert, lookup-insert, is_empty, eq_iff, ◌==◌, if◌then◌else◌,
  codes, Bool-cases, Option-cases, inl, inr,
}
use pikamgr.Coordinate.{NodePath, Segment, group_dir, gslb_dir, sentinel_path, segment_eq}
use pikamgr.Dao.{Group, Sentinel, Gslb}

-- The coordinator and encoding/json while the caches are loaded: `Read` and `List` with their flag
-- `must`, `none` for an error, and data that may be nil; the decoding of the three records.
pub record Reader (Data : Type 0) : Type 0 where
  pub read : NodePath → Bool → Option (Option Data)
  pub children : NodePath → Bool → Option (List NodePath)
  pub decode_group : Option Data → Option Group
  pub decode_sentinel : Data → Option Sentinel
  pub decode_gslb : Option Data → Option Gslb

-- `filepath.Base(path) == name`, for a name without a slash that is no dot
abbrev pub is_base : NodePath → List ℕ → Bool
is_base [] name = false
is_base (x ∷ path) name = segment_eq x name

-- `if len(g.Servers) == 0 { continue }`
abbrev pub keep_gslb : Gslb → Assoc Gslb → Assoc Gslb
keep_gslb g gslbs = if is_empty g.servers then gslbs else insert g.name g gslbs

module _ {Data : Type 0} (c : Reader Data) where
  unfoldable pub read_group : NodePath → Option Group
  read_group path = and_then (c.read path true) c.decode_group

  unfoldable pub read_groups : List NodePath → Assoc Group → Option (Assoc Group)
  read_groups [] groups = some groups
  read_groups (path ∷ paths) groups =
      and_then (read_group path) (λ g. read_groups paths (insert g.name g groups))

  -- `groupMapper.init`: the new cache
  unfoldable pub load_groups : String → Option (Assoc Group)
  load_groups product =
      and_then (c.children (group_dir product) false) (λ paths. read_groups paths [])

  -- `sentinelMapper.init`: the cache after it
  unfoldable pub load_sentinel : String → Sentinel → Option Sentinel
  load_sentinel product old =
      and_then (c.read (sentinel_path product) false)
        (λ found. elim found [ none ↦ some old | some d ↦ c.decode_sentinel d ])

  -- The nodes below one load balancer: those of other products are left out.
  unfoldable pub read_gslbs : String → List NodePath → Assoc Gslb → Option (Assoc Gslb)
  read_gslbs product [] gslbs = some gslbs
  read_gslbs product (path ∷ paths) gslbs =
      if is_base path (codes product)
      then and_then (and_then (c.read path true) c.decode_gslb)
          (λ g. read_gslbs product paths (keep_gslb g gslbs))
      else read_gslbs product paths gslbs

  unfoldable pub read_all_gslbs : String → List NodePath → Assoc Gslb → Option (Assoc Gslb)
  read_all_gslbs product [] gslbs = some gslbs
  read_all_gslbs product (path ∷ paths) gslbs = and_then (c.children path false) (λ below.
      and_then (read_gslbs product below gslbs) (λ more. read_all_gslbs product paths more))

  -- `gslbMapper.init`
  unfoldable pub load_gslbs : String → Option (Assoc Gslb)
  load_gslbs product =
      and_then (c.children gslb_dir false) (λ paths. read_all_gslbs product paths [])
