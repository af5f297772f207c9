-- ===== src/Service/Restart/Loads.antt =====
-- The start after a restart: the mappers load what was cached.
use pikamgr.Base.{
  String, Bool, true, false, ◌||◌, List, [], ◌∷◌, Option, none, some, ◌≡◌, refl, inl, inr, arith,
  Assoc, lookup, insert, lookup-insert, codes, ◌==◌, eq_iff, Bool-cases,
}
use pikamgr.Coordinate.{Segment, NodePath, path_eq, group_dir, group_path}
use pikamgr.Coordinate.Plain.{IsPlain, path_eq_refl}
use pikamgr.Dao.{Group, Sentinel, Value, group_value, sentinel_value}
use pikamgr.Mapper.Load.{Reader, read_group, read_groups}
use pikamgr.Service.Restart.Backed.{path_eq-group_path}

abbrev pub is_listed : NodePath → List NodePath → Bool
is_listed q [] = false
is_listed q (p ∷ ps) = path_eq p q || is_listed q ps

-- A coordinator that holds the given nodes: it reads a node that there is, reports nil for one that
-- there is not unless it must be there, and lists the children of a directory; and JSON of which the
-- decoding undoes the encoding.
pub record Reads (c : Reader Value) (product : String) (store : NodePath → Option Value)
    : Type 0 where
  pub read_there :
      (p : NodePath) (v : Value) (must : Bool) → store p ≡ some v → c.read p must ≡ some (some v)
  pub read_absent : (p : NodePath) → store p ≡ none → c.read p false ≡ some none
  pub paths : List NodePath
  pub listed : c.children (group_dir product) false ≡ some paths
  pub sound :
      (q : NodePath)
      → is_listed q paths ≡ true
      → (seg : Segment) × (v : Value) × (q ≡ seg ∷ group_dir product) × (store q ≡ some v)
  pub complete :
      (seg : Segment) (v : Value)
      → store (seg ∷ group_dir product) ≡ some v
      → is_listed (seg ∷ group_dir product) paths ≡ true
  pub decode_group : (g : Group) → c.decode_group (some (group_value g)) ≡ some g
  pub decode_sentinel : (x : Sentinel) → c.decode_sentinel (sentinel_value x) ≡ some x

-- The first map is a part of the second.
abbrev pub IsPart : Assoc Group → Assoc Group → Type 0
IsPart a b = (k : String) (g : Group) → lookup k a ≡ some g → lookup k b ≡ some g

-- A node that stands for a cached group.
pub record Stands (product : String) (cached : Assoc Group) (c : Reader Value) (q : NodePath)
    : Type 0 where
  pub name : String
  pub group : Group
  pub here : lookup name cached ≡ some group
  pub named : group.name ≡ name
  pub at : q ≡ group_path product name
  pub plain : IsPlain (codes name)
  pub gives : read_group c q ≡ some group

IsPart-insert :
    (a b : Assoc Group) (k : String) (g : Group)
    → lookup k b ≡ some g
    → IsPart a b
    → IsPart (insert k g a) b
IsPart-insert a b k g e part j h found = ground (arith, lookup-insert k j g a, part j h, eq_iff k j)

-- What reading a list of such nodes gives.
pub record Read (product : String) (cached : Assoc Group) (c : Reader Value) (paths : List NodePath)
    (before : Assoc Group) : Type 0 where
  pub after : Assoc Group
  pub result : read_groups c paths before ≡ some after
  pub part : IsPart after cached
  pub kept : IsPart before after
  pub new :
      (k : String) (g : Group)
      → lookup k cached ≡ some g
      → IsPlain (codes k)
      → is_listed (group_path product k) paths ≡ true
      → lookup k after ≡ some g

module _ (product : String) (cached : Assoc Group) (c : Reader Value) where
  read_step :
      (q : NodePath) (paths : List NodePath) (before : Assoc Group) (x : Stands product cached c q)
      → IsPart before cached
      → Read product cached c paths (insert x.name x.group before)
      → Read product cached c (q ∷ paths) before
  unfolding read_groups
  read_step q paths before x part r = record {
    after = r.after;
    result = ground (arith, x.gives, x.named, r.result);
    part = r.part;
    kept = λ k g e. r.kept k g (
        ground (arith, lookup-insert x.name k x.group before, part k g e, x.here, eq_iff x.name k));
    new = λ k g e plain listed. elim (Bool-cases (x.name == k)) [
      | inl same ↦
          r.kept k g
            (ground (arith, lookup-insert x.name k x.group before, x.here, eq_iff x.name k))
      | inr other ↦
          r.new k g e plain
            (ground (arith, x.at, path_eq-group_path product x.name k x.plain plain))
    ];
  }

  pub read_all :
      (paths : List NodePath) (before : Assoc Group)
      → ((q : NodePath) → is_listed q paths ≡ true → Stands product cached c q)
      → IsPart before cached
      → Read product cached c paths before
  unfolding read_groups
  read_all [] before stands part = record {
    after = before;
    result = refl;
    part = part;
    kept = λ k g e. e;
    new = λ k g e plain listed. absurd (ground arith);
  }
  read_all (q ∷ paths) before stands part =
      let x : Stands product cached c q = stands q (ground (arith, path_eq_refl q)) in
      read_step q paths before x part (
        read_all paths (insert x.name x.group before) (λ p e. stands p (ground arith))
          (IsPart-insert before cached x.name x.group x.here part))
