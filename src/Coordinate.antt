-- ===== src/Coordinate.antt =====
-- The paths of the coordinator's nodes: coordinate/path.go, with what it uses of path/filepath.
-- `filepath.Join` of elements of which the first is rooted joins them by slashes and cleans the
-- result: empty and `.` segments are dropped, and `..` takes the segment before it away.
pub mod Plain
pub mod Paths
pub mod Apart
use pikamgr.Base.{ℕ, String, Bool, true, false, List, [], ◌∷◌, ◌++◌, codes, eqb, if◌then◌else◌}

-- The characters between two slashes.
abbrev pub Segment : Type 0
Segment = List ℕ

-- A cleaned path from the root, its last segment first: /a/b is `b ∷ a ∷ []`.
abbrev pub NodePath : Type 0
NodePath = List Segment

abbrev pub add_to_first : ℕ → List Segment → List Segment
add_to_first c [] = (c ∷ []) ∷ []
add_to_first c (s ∷ ss) = (c ∷ s) ∷ ss

-- The segments of a text, empty ones included.
unfoldable pub split_slash : List ℕ → List Segment
split_slash [] = [] ∷ []
split_slash (c ∷ cs) =
    let rest = split_slash cs in if eqb c b'/' then [] ∷ rest else add_to_first c rest

unfoldable pub parent : NodePath → NodePath
parent [] = []
parent (s ∷ p) = p

-- One step of `filepath.Clean` on a rooted path.
unfoldable pub enter : Segment → NodePath → NodePath
unfolding parent
enter [] p = p
enter (c ∷ []) p = if eqb c b'.' then p else (c ∷ []) ∷ p
enter (c ∷ d ∷ []) p =
    if eqb c b'.' then (if eqb d b'.' then parent p else (c ∷ d ∷ []) ∷ p) else (c ∷ d ∷ []) ∷ p
enter (c ∷ d ∷ e ∷ s) p = (c ∷ d ∷ e ∷ s) ∷ p

unfoldable pub walk : NodePath → List Segment → NodePath
unfolding enter
walk p [] = p
walk p (s ∷ ss) = walk (enter s p) ss

-- The path that joins one more element.
unfoldable pub join : NodePath → List ℕ → NodePath
unfolding walk split_slash
join p cs = walk p (split_slash cs)

-- `DefaultBaseDir`
abbrev pub base_dir : NodePath
base_dir = codes "cache-manager" ∷ []

unfoldable pub product_dir : NodePath
unfolding join
product_dir = join base_dir (codes "/products")

unfoldable pub product_path : String → NodePath
unfolding join product_dir
product_path product = join product_dir (codes product)

unfoldable pub topom_path : String → NodePath
unfolding join product_path
topom_path product = join (product_path product) (codes "/topom")

unfoldable pub group_dir : String → NodePath
unfolding join product_path
group_dir product = join (product_path product) (codes "/groups")

-- `fmt.Sprintf("group-%s", groupName)`
abbrev pub group_node : String → List ℕ
group_node group = codes "group-" ++ codes group

unfoldable pub group_path : String → String → NodePath
unfolding join group_dir
group_path product group = join (group_dir product) (group_node group)

unfoldable pub sentinel_path : String → NodePath
unfolding join product_path
sentinel_path product = join (product_path product) (codes "/sentinel")

unfoldable pub gslb_dir : NodePath
unfolding join
gslb_dir = join base_dir (codes "/gslb")

unfoldable pub gslb_path : String → String → NodePath
unfolding join gslb_dir
gslb_path gslb product = join (join gslb_dir (codes gslb)) (codes product)

unfoldable pub template_file_dir : NodePath
unfolding join
template_file_dir = join base_dir (codes "/template-files")

unfoldable pub template_file_path : String → NodePath
unfolding join template_file_dir
template_file_path file = join template_file_dir (codes file)

abbrev pub segment_eq : Segment → Segment → Bool
segment_eq [] [] = true
segment_eq [] (d ∷ t) = false
segment_eq (c ∷ s) [] = false
segment_eq (c ∷ s) (d ∷ t) = if eqb c d then segment_eq s t else false

abbrev pub path_eq : NodePath → NodePath → Bool
path_eq [] [] = true
path_eq [] (t ∷ q) = false
path_eq (s ∷ p) [] = false
path_eq (s ∷ p) (t ∷ q) = if segment_eq s t then path_eq p q else false
