-- ===== src/Tests/Coordinators.antt =====
-- The theorems on the coordinators' clients with libraries that keep their nodes in memory.
use pikamgr.Base.{
  ℕ, inl, inr, ◌||◌, Bool, true, false, [], ◌∷◌, Option, none, some, ◌≡◌, refl, arith,
  if◌then◌else◌, codes,
}
use pikamgr.Coordinate.{NodePath, parent, path_eq}
use pikamgr.Coordinate.Plain.{path_eq_refl, path_eq_iff}
use pikamgr.Coordinators.{ok, err, IsCoordinator, Held, data_of, IsUnharmed}
use pikamgr.Coordinators.Zk
use pikamgr.Coordinators.Zk.{Zk}
use pikamgr.Coordinators.Zk.Refines as ZkRefines
use pikamgr.Coordinators.Zk.Refines.{zk_client-IsCoordinator}
use pikamgr.Coordinators.Zk.Completes.{Serves, is_there, IsThere, zk_update-Serves}
use pikamgr.Coordinators.Etcd
use pikamgr.Coordinators.Etcd.{Keys}
use pikamgr.Coordinators.Etcd.Refines as EtcdRefines
use pikamgr.Coordinators.Etcd.Refines.{etcd_client-IsCoordinator}

-- The nodes with a number each.
abbrev Nodes : Type 0
Nodes = NodePath → Option (Held ℕ)

abbrev put : NodePath → Option (Held ℕ) → Nodes → Nodes
put p v s q = if path_eq p q then v else s q

abbrev there : Nodes → NodePath → Bool
there s [] = true
there s (x ∷ p) = is_there (s (x ∷ p))

-- What is left of a node without its session.
abbrev lasting : Option (Held ℕ) → Option (Held ℕ)
lasting none = none
lasting (some (true, d)) = none
lasting (some (false, d)) = some (false, d)

lasting-IsUnharmed : (o : Option (Held ℕ)) → IsUnharmed o (lasting o)
lasting-IsUnharmed none = inl refl
lasting-IsUnharmed (some (true, d)) = inr (d, refl, refl)
lasting-IsUnharmed (some (false, d)) = inl refl

abbrev zk_memory : Zk Nodes ℕ
zk_memory = record {
  exists = λ p s. (ok (is_there (s p)), s);
  create = λ f p d s. elim (s p) [
    | some v ↦ (err Zk.node_exists, s)
    | none ↦ if there s (parent p) then (ok tt, put p (some (f, d)) s) else (err Zk.no_node, s)
  ];
  create_in_order = λ p d s. (err Zk.failed, s);
  set = λ p d s. elim (s p) [
    | some v ↦ (ok tt, put p (some (v.0, d)) s)
    | none ↦ (err Zk.no_node, s)
  ];
  delete = λ p s. elim (s p) [ some v ↦ (ok tt, put p none s) | none ↦ (err Zk.no_node, s) ];
  get = λ p s. elim (s p) [ some v ↦ (ok v.1, s) | none ↦ (err Zk.no_node, s) ];
  children = λ p s. (ok [], s);
  is_old = λ s. true;
  connect = λ s. (ok tt, s);
  close_old = λ s. λ p. lasting (s p);
  close = λ s. λ p. lasting (s p);
  empty = 0;
}

abbrev view : Nodes → NodePath → Option (Held ℕ)
view s = s

zk_memory-Behaves : ZkRefines.Behaves view zk_memory
zk_memory-Behaves = record {
  exists_same = λ p s q. refl;
  create_ok = λ f p d s e. (ground arith, ground (arith, path_eq_refl p));
  create_other = λ f p d s q differ. ground arith;
  create_keeps = λ f p d s q v e. ground (arith, path_eq_iff p q);
  set_ok = λ p d s e. ground (arith, path_eq_refl p);
  set_other = λ p d s q differ. ground arith;
  delete_ok = λ p s e. ground (arith, path_eq_refl p);
  delete_no_node = λ p s e. ground arith;
  delete_other = λ p s q differ. ground arith;
  get_ok = λ p s d e. ground arith;
  get_no_node = λ p s e. ground arith;
  get_same = λ p s q. ground arith;
  connect_same = λ s q. refl;
  close_drops = λ s q. lasting-IsUnharmed (s q);
}

there-IsThere : (s : Nodes) (p : NodePath) → IsThere s p → there s p ≡ true
there-IsThere s [] h = refl
there-IsThere s (x ∷ p) (d, h) = ground arith

zk_memory-Serves : Serves view zk_memory
zk_memory-Serves = record {
  exists_served = λ p s. refl;
  create_served = λ f p d s h fresh. ground (arith, there-IsThere s (parent p) h);
  create_refused = λ f p d v s old. ground arith;
  set_served = λ p d v s old. ground arith;
}

zk_client-IsCoordinator_example : IsCoordinator (λ c. view c.conn) (Zk.client zk_memory)
zk_client-IsCoordinator_example = zk_client-IsCoordinator view zk_memory zk_memory-Behaves

abbrev empty_zk : Zk.Conn Nodes
empty_zk = record { conn = λ p. none; closed = false }

abbrev a_b : NodePath
a_b = codes "b" ∷ codes "a" ∷ []

zk_update-Serves_example :
    ((Zk.update zk_memory a_b 5 empty_zk).0 ≡ ok tt)
    × (data_of (view (Zk.update zk_memory a_b 5 empty_zk).1.conn a_b) ≡ some 5)
zk_update-Serves_example =
    zk_update-Serves view zk_memory a_b 5 empty_zk zk_memory-Behaves zk_memory-Serves refl

-- A `Set` that may be done makes a value; of a directory or a refresh nothing is kept.
abbrev written : Etcd.SetOptions → NodePath → Option ℕ → Nodes → Nodes
written o p none s = s
written o p (some d) s = if o.dir || o.refresh then s else put p (some (o.ttl, d)) s

abbrev etcd_memory : Keys Nodes ℕ
etcd_memory = record {
  set = λ o p v s. elim o.prev [
    | Etcd.prev_ignore ↦ (ok tt, written o p v s)
    | Etcd.prev_exist ↦ elim (s p) [
      | some w ↦ (ok tt, written o p v s)
      | none ↦ (err Etcd.key_not_found, s)
    ]
    | Etcd.prev_no_exist ↦ elim (s p) [
      | some w ↦ (err Etcd.node_exist, s)
      | none ↦ (ok tt, written o p v s)
    ]
  ];
  delete =
      λ p s. elim (s p) [ some v ↦ (ok tt, put p none s) | none ↦ (err Etcd.key_not_found, s) ];
  get =
      λ b p s. elim (s p) [ some v ↦ (ok (Etcd.file v.1), s) | none ↦ (err Etcd.key_not_found, s) ];
  create_in_order = λ p d s. (err Etcd.failed, s);
}

written-other :
    (o : Etcd.SetOptions) (p : NodePath) (v : Option ℕ) (s : Nodes) (q : NodePath)
    → path_eq p q ≡ false
    → written o p v s q ≡ s q
written-other o p none s q differ = refl
written-other o p (some d) s q differ = ground arith

etcd_memory-Behaves : EtcdRefines.Behaves view etcd_memory
etcd_memory-Behaves = record {
  set_value = λ o p d s not_dir no_refresh e. ground (arith, path_eq_refl p);
  set_no_exist = λ o p v s new e. ground arith;
  set_refused = λ o p v w s new e. ground arith;
  set_other = λ o p v s q differ. ground (arith, written-other o p v s q differ);
  delete_ok = λ p s e. ground (arith, path_eq_refl p);
  delete_no_node = λ p s e. ground arith;
  delete_other = λ p s q differ. ground arith;
  get_ok = λ p s d e. ground arith;
  get_no_node = λ p s e. ground arith;
  get_same = λ b p s q. ground arith;
}

etcd_client-IsCoordinator_example : IsCoordinator (λ c. view c.kapi) (Etcd.client etcd_memory)
etcd_client-IsCoordinator_example = etcd_client-IsCoordinator view etcd_memory etcd_memory-Behaves
