-- ===== src/Coordinators/Etcd/Refines.antt =====
-- The etcd client does what the dashboard relies on.
use pikamgr.Base.{
  sym, ap, subst, Bool, true, false, Option, none, some, ◌≡◌, refl, ◌∙◌, arith, inl, inr,
  Bool-cases,
}
use pikamgr.Coordinate.{NodePath, path_eq}
use pikamgr.Coordinate.Plain.{path_eq_iff}
use pikamgr.Coordinators.{
  Reply-cases, ok, err, Operation, forgive, IsCoordinator, Held, data_of, IsUnharmed,
}
use pikamgr.Coordinators.Etcd.{
  SetOptions, no_options, prev_ignore, prev_no_exist, Keys, EtcdError, closed_client, key_not_found,
  node_exist, not_file, not_dir, failed, is_no_node, file, dir, Conn, guarded, read_at, create,
  update, delete, read, client,
}

-- What etcd documents of its keys, by the values that they hold, those with a time to live taken for
-- ephemeral: a `Set` touches one key; if it is to make a value, neither a directory nor a refresh, its
-- success says that the key holds the value; one with `PrevNoExist` succeeds only where there was
-- no key, and changes none that is there. `Delete` touches one key. A `Get` changes nothing, and if
-- it asks a quorum it returns what the key holds. An operation that fails may have been done all the
-- same, if its answer was lost.
pub record Behaves {S D : Type 0} (view : S → NodePath → Option (Held D)) (keys : Keys S D)
    : Type 0 where
  pub set_value :
      (o : SetOptions) (p : NodePath) (d : D) (s : S)
      → o.dir ≡ false
      → o.refresh ≡ false
      → (keys.set o p (some d) s).0 ≡ ok tt
      → view (keys.set o p (some d) s).1 p ≡ some (o.ttl, d)
  pub set_no_exist :
      (o : SetOptions) (p : NodePath) (v : Option D) (s : S)
      → o.prev ≡ prev_no_exist
      → (keys.set o p v s).0 ≡ ok tt
      → view s p ≡ none
  pub set_refused :
      (o : SetOptions) (p : NodePath) (v : Option D) (w : Held D) (s : S)
      → o.prev ≡ prev_no_exist
      → view s p ≡ some w
      → view (keys.set o p v s).1 p ≡ some w
  pub set_other :
      (o : SetOptions) (p : NodePath) (v : Option D) (s : S) (q : NodePath)
      → path_eq p q ≡ false
      → view (keys.set o p v s).1 q ≡ view s q
  pub delete_ok :
      (p : NodePath) (s : S) → (keys.delete p s).0 ≡ ok tt → view (keys.delete p s).1 p ≡ none
  pub delete_no_node :
      (p : NodePath) (s : S)
      → (keys.delete p s).0 ≡ err key_not_found
      → view (keys.delete p s).1 p ≡ none
  pub delete_other :
      (p : NodePath) (s : S) (q : NodePath)
      → path_eq p q ≡ false
      → view (keys.delete p s).1 q ≡ view s q
  pub get_ok :
      (p : NodePath) (s : S) (d : D)
      → (keys.get true p s).0 ≡ ok (file d)
      → data_of (view s p) ≡ some d
  pub get_no_node :
      (p : NodePath) (s : S) → (keys.get true p s).0 ≡ err key_not_found → view s p ≡ none
  pub get_same :
      (b : Bool) (p : NodePath) (s : S) (q : NodePath) → view (keys.get b p s).1 q ≡ view s q

module _ {S D : Type 0} (view : S → NodePath → Option (Held D)) (keys : Keys S D)
    (h : Behaves view keys) where
  read_at_ok :
      (p : NodePath) (must : Bool) (s : S) (r : Option D)
      → (read_at keys p must s).0 ≡ ok r
      → (r ≡ data_of (view s p)) × ((must ≡ true) → (d : D) × (r ≡ some d))
  unfolding read_at
  read_at_ok p must s r e = elim (Reply-cases (keys.get true p s).0) [
    | inl (file d, good) ↦ (ground (arith, h.get_ok p s d), λ m. (d, ground arith))
    | inl (dir nodes, good) ↦ absurd (ground arith)
    | inr (key_not_found, bad) ↦ (ground (arith, h.get_no_node p s), λ m. absurd (ground arith))
    | inr (closed_client, bad) ↦ absurd (ground arith)
    | inr (node_exist, bad) ↦ absurd (ground arith)
    | inr (not_file, bad) ↦ absurd (ground arith)
    | inr (not_dir, bad) ↦ absurd (ground arith)
    | inr (failed, bad) ↦ absurd (ground arith)
  ]

  read_at_same :
      (p : NodePath) (must : Bool) (s : S) (q : NodePath)
      → view (read_at keys p must s).1 q ≡ view s q
  unfolding read_at
  read_at_same p must s q = ground (arith, h.get_same true p s q)

  delete_at_ok :
      (p : NodePath) (s : S)
      → (forgive is_no_node (keys.delete p) s).0 ≡ ok tt
      → view (forgive is_no_node (keys.delete p) s).1 p ≡ none
  delete_at_ok p s e = elim (Reply-cases (keys.delete p s).0) [
    | inl (_, good) ↦ ground (arith, h.delete_ok p s)
    | inr (key_not_found, bad) ↦ ground (arith, h.delete_no_node p s)
    | inr (closed_client, bad) ↦ absurd (ground arith)
    | inr (node_exist, bad) ↦ absurd (ground arith)
    | inr (not_file, bad) ↦ absurd (ground arith)
    | inr (not_dir, bad) ↦ absurd (ground arith)
    | inr (failed, bad) ↦ absurd (ground arith)
  ]

  delete_at_other :
      (p : NodePath) (s : S) (q : NodePath)
      → path_eq p q ≡ false
      → view (forgive is_no_node (keys.delete p) s).1 q ≡ view s q
  delete_at_other p s q differ = ground (arith, h.delete_other p s q)

  -- The options of `Create` and `Update`.
  abbrev new_value : NodePath → D → Operation S EtcdError (Unit {0})
  new_value p d = keys.set (record no_options { prev = prev_no_exist }) p (some d)

  abbrev any_value : NodePath → D → Operation S EtcdError (Unit {0})
  any_value p d = keys.set (record no_options { prev = prev_ignore }) p (some d)

  new_value-keeps :
      (p : NodePath) (d : D) (s : S) (q : NodePath) (w : Held D)
      → view s q ≡ some w
      → view (new_value p d s).1 q ≡ some w
  new_value-keeps p d s q w e = elim (Bool-cases (path_eq p q)) [
    | inl same ↦
        let equal : p ≡ q = (path_eq_iff p q).0 same in
        subst (λ x. view (new_value p d s).1 x ≡ some w) equal
          (h.set_refused _ p (some d) w s refl (subst (λ x. view s x ≡ some w) (sym equal) e))
    | inr differ ↦ h.set_other _ p (some d) s q differ ∙ e
  ]

  guarded_ok :
      {A : Type 0} (fn : Operation S EtcdError A) (c : Conn S) (a : A)
      → (guarded keys fn c).0 ≡ ok a
      → fn c.kapi ≡ (ok a, (guarded keys fn c).1.kapi)
  unfolding guarded
  guarded_ok fn c a e = elim (Bool-cases c.closed) [
    | inl shut ↦ absurd (ground arith)
    | inr open_ ↦ ground arith
  ]

  -- What a call on the connection keeps at a place is kept.
  guarded_keeps :
      {A : Type 0} (P : Option (Held D) → Type 0) (fn : Operation S EtcdError A) (c : Conn S)
      (q : NodePath)
      → P (view c.kapi q)
      → P (view (fn c.kapi).1 q)
      → P (view (guarded keys fn c).1.kapi q)
  unfolding guarded
  guarded_keeps P fn c q before after = elim (Bool-cases c.closed) [
    | inl shut ↦ rw shut before
    | inr open_ ↦ rw open_ after
  ]

  guarded_other :
      {A : Type 0} (fn : Operation S EtcdError A) (c : Conn S) (q : NodePath)
      → view (fn c.kapi).1 q ≡ view c.kapi q
      → IsUnharmed (view c.kapi q) (view (guarded keys fn c).1.kapi q)
  guarded_other fn c q same = inl (guarded_keeps (λ o. o ≡ view c.kapi q) fn c q refl same)

pub etcd_client-IsCoordinator :
    {S D : Type 0} (view : S → NodePath → Option (Held D)) (keys : Keys S D)
    → Behaves view keys
    → IsCoordinator (λ c. view c.kapi) (client keys)
unfolding create update delete read
etcd_client-IsCoordinator view keys h = record {
  create_ok = λ p d c e.
      let done = guarded_ok view keys h (new_value view keys h p d) c tt e in
      let good = ap (λ r. r.0) done in
      (
        h.set_no_exist _ p (some d) c.kapi refl good,
        sym (ap (λ r. view r.1 p) done) ∙ h.set_value _ p d c.kapi refl refl good,
      );
  create_keeps = λ p d c q v e.
      guarded_keeps view keys h (λ o. o ≡ some (false, v)) (new_value view keys h p d) c q e
        (new_value-keeps view keys h p d c.kapi q (false, v) e);
  create_other = λ p d c q differ apart.
      guarded_other view keys h (new_value view keys h p d) c q
        (h.set_other _ p (some d) c.kapi q differ);
  update_ok = λ p d c e.
      let done = guarded_ok view keys h (any_value view keys h p d) c tt e in
      ap data_of
        (sym (ap (λ r. view r.1 p) done) ∙ h.set_value _ p d c.kapi refl refl (ap (λ r. r.0) done));
  update_keeps = λ p d c q v differ e.
      guarded_keeps view keys h (λ o. o ≡ some (false, v)) (any_value view keys h p d) c q e
        (h.set_other _ p (some d) c.kapi q differ ∙ e);
  update_other = λ p d c q differ apart.
      guarded_other view keys h (any_value view keys h p d) c q
        (h.set_other _ p (some d) c.kapi q differ);
  delete_ok = λ p c e.
      let done = guarded_ok view keys h (forgive is_no_node (keys.delete p)) c tt e in
      sym (ap (λ r. view r.1 p) done) ∙ delete_at_ok view keys h p c.kapi (ap (λ r. r.0) done);
  delete_other = λ p c q differ.
      guarded_other view keys h (forgive is_no_node (keys.delete p)) c q
        (delete_at_other view keys h p c.kapi q differ);
  read_ok = λ p must c r e.
      let done = guarded_ok view keys h (read_at keys p must) c r e in
      (read_at_ok view keys h p must c.kapi r (ap (λ x. x.0) done)).0;
  read_must = λ p c r e.
      let done = guarded_ok view keys h (read_at keys p true) c r e in
      (read_at_ok view keys h p true c.kapi r (ap (λ x. x.0) done)).1 refl;
  read_other = λ p must c q.
      guarded_other view keys h (read_at keys p must) c q
        (read_at_same view keys h p must c.kapi q);
}
