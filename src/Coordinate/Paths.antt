-- ===== src/Coordinate/Paths.antt =====
-- Which nodes the paths keep apart, and which they do not.
use Prim.Native.String as Text
use pikamgr.Base.{String, [], ◌∷◌, ◌≡◌, ◌≢◌, refl, arith, codes}
use pikamgr.Coordinate.{
  Segment, NodePath, walk, join, group_node, group_dir, group_path, sentinel_path, topom_path,
  split_slash, enter, template_file_dir, template_file_path,
}
use pikamgr.Coordinate.Plain.{
  IsPlain, split_slash-IsPlain, join-group_node, codes-injective, codes-append,
}

pub group_path-IsPlain :
    (product group : String)
    → IsPlain (codes group)
    → group_path product group ≡ group_node group ∷ group_dir product
unfolding group_path
group_path-IsPlain product group h = join-group_node (group_dir product) group h

-- Two different groups of one product whose names have no slash are stored at different nodes.
pub group_path-injective :
    (product group other : String)
    → IsPlain (codes group)
    → IsPlain (codes other)
    → group ≢ other
    → group_path product group ≢ group_path product other
group_path-injective product group other h k differ e =
    let nodes : group_node group ∷ group_dir product ≡ group_node other ∷ group_dir product =
      rw (← group_path-IsPlain product group h, ← group_path-IsPlain product other k) e in
    differ (codes-injective group other (cc))

-- A group's node is never that of the sentinels or of the dashboard itself.
pub group_path-apart :
    (product group : String)
    → IsPlain (codes group)
    → (group_path product group ≢ sentinel_path product)
      × (group_path product group ≢ topom_path product)
unfolding sentinel_path topom_path
group_path-apart product group h = ground (arith, group_path-IsPlain product group h)

-- A group name with a slash can lead to the node of another group: the group `x/../group-b` is
-- stored at the node of `b`, whatever the name `b` without a slash.
pub group_path-collision :
    (product group : String)
    → IsPlain (codes group)
    → group_path product (Text.◌++◌ "x/../group-" group) ≡ group_path product group
unfolding join walk enter split_slash group_path
group_path-collision product group h = rw codes-append (rw (split_slash-IsPlain (codes group) h))

-- A base name: one segment that `Clean` leaves alone.
pub record IsBaseName (name : String) : Type 0 where
  pub plain : IsPlain (codes name)
  pub is_text : name ≢ ""
  pub not_here : name ≢ "."
  pub not_up : name ≢ ".."

enter-text :
    (s : Segment) (p : NodePath) → s ≢ [] → s ≢ codes "." → s ≢ codes ".." → enter s p ≡ s ∷ p
unfolding enter
enter-text [] p a b c = ground (arith, a)
enter-text (x ∷ []) p a b c = ground (arith, b)
enter-text (x ∷ y ∷ []) p a b c = ground (arith, c)
enter-text (x ∷ y ∷ z ∷ s) p a b c = refl

-- A base name is one segment below any node.
pub join-IsBaseName :
    (p : NodePath) (name : String) → IsBaseName name → join p (codes name) ≡ codes name ∷ p
unfolding join walk
join-IsBaseName p name h = rw (split_slash-IsPlain (codes name) h.plain) (
    enter-text (codes name) p (λ e. h.is_text (codes-injective name "" e))
      (λ e. h.not_here (codes-injective name "." e)) (λ e. h.not_up (codes-injective name ".." e)))

pub template_file_path-IsBaseName :
    (name : String) → IsBaseName name → template_file_path name ≡ codes name ∷ template_file_dir
unfolding template_file_path
template_file_path-IsBaseName name h = join-IsBaseName template_file_dir name h

-- Files of two base names are stored at one node only if the names are the same.
pub template_file_path-injective :
    (name other : String)
    → IsBaseName name
    → IsBaseName other
    → template_file_path name ≡ template_file_path other
    → name ≡ other
template_file_path-injective name other h k e =
    let nodes : codes name ∷ template_file_dir ≡ codes other ∷ template_file_dir =
      rw (← template_file_path-IsBaseName name h, ← template_file_path-IsBaseName other k) e in
    codes-injective name other (cc)
