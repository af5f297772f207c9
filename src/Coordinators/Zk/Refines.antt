-- ===== src/Coordinators/Zk/Refines.antt =====
-- The zookeeper client does what the dashboard relies on.
use pikamgr.Base.{
  Bool, true, false, sym, ap, subst, [], ◌∷◌, Option, none, some, ◌≡◌, refl, ◌∙◌, arith, ◌⊎◌, inl,
  inr, Bool-cases, Option-cases,
}
use pikamgr.Coordinate.{NodePath, path_eq, parent}
use pikamgr.Coordinators.{
  Reply-cases, ok, err, Operation, forgive, IsCoordinator, Held, data_of, IsUnharmed, on_way,
}
use pikamgr.Coordinators.Zk.{
  Zk, ZkError, closed_client, no_node, node_exists, not_empty, failed, is_no_node, is_benign,
  after_error, Conn, reset, shell, mkdir_at, create_at, update_at, read_at, create, update, delete,
  read, client,
}

-- What zookeeper documents of its operations, by what its nodes hold: reads change nothing, `create`
-- makes a node that was not there, ephemeral if it is told so, `set` and `delete` touch one node,
-- and an operation that returns no error has been done. An operation that fails may have been done
-- all the same, if its answer was lost. `Connect` changes nothing; with a connection that is closed
-- the ephemeral nodes of its session may go, and nothing else.
pub record Behaves {S D : Type 0} (view : S → NodePath → Option (Held D)) (zk : Zk S D)
    : Type 0 where
  pub exists_same : (p : NodePath) (s : S) (q : NodePath) → view (zk.exists p s).1 q ≡ view s q
  pub create_ok :
      (f : Bool) (p : NodePath) (d : D) (s : S)
      → (zk.create f p d s).0 ≡ ok tt
      → (view s p ≡ none) × (view (zk.create f p d s).1 p ≡ some (f, d))
  pub create_other :
      (f : Bool) (p : NodePath) (d : D) (s : S) (q : NodePath)
      → path_eq p q ≡ false
      → view (zk.create f p d s).1 q ≡ view s q
  pub create_keeps :
      (f : Bool) (p : NodePath) (d : D) (s : S) (q : NodePath) (v : Held D)
      → view s q ≡ some v
      → view (zk.create f p d s).1 q ≡ some v
  pub set_ok :
      (p : NodePath) (d : D) (s : S)
      → (zk.set p d s).0 ≡ ok tt
      → data_of (view (zk.set p d s).1 p) ≡ some d
  pub set_other :
      (p : NodePath) (d : D) (s : S) (q : NodePath)
      → path_eq p q ≡ false
      → view (zk.set p d s).1 q ≡ view s q
  pub delete_ok :
      (p : NodePath) (s : S) → (zk.delete p s).0 ≡ ok tt → view (zk.delete p s).1 p ≡ none
  pub delete_no_node :
      (p : NodePath) (s : S) → (zk.delete p s).0 ≡ err no_node → view (zk.delete p s).1 p ≡ none
  pub delete_other :
      (p : NodePath) (s : S) (q : NodePath)
      → path_eq p q ≡ false
      → view (zk.delete p s).1 q ≡ view s q
  pub get_ok : (p : NodePath) (s : S) (d : D) → (zk.get p s).0 ≡ ok d → data_of (view s p) ≡ some d
  pub get_no_node : (p : NodePath) (s : S) → (zk.get p s).0 ≡ err no_node → view s p ≡ none
  pub get_same : (p : NodePath) (s : S) (q : NodePath) → view (zk.get p s).1 q ≡ view s q
  pub connect_same : (s : S) (q : NodePath) → view (zk.connect s).1 q ≡ view s q
  pub close_drops : (s : S) (q : NodePath) → IsUnharmed (view s q) (view (zk.close_old s) q)

module _ {S D : Type 0} (view : S → NodePath → Option (Held D)) (zk : Zk S D)
    (h : Behaves view zk) where
  -- The nodes are there with their data, in any state that an operation on the connection leaves.
  abbrev Keeps : {A : Type 0} → Operation S ZkError A → NodePath → Type 0
  Keeps m q = (s : S) (v : Held D) → view s q ≡ some v → view (m s).1 q ≡ some v

  mkdir_at-Keeps : (p : NodePath) (q : NodePath) → Keeps (mkdir_at zk p) q
  unfolding mkdir_at
  mkdir_at-Keeps [] q s v e = e
  mkdir_at-Keeps (x ∷ p) q s v e =
      let s1 : S = (zk.exists (x ∷ p) s).1 in
      let e1 : view s1 q ≡ some v = h.exists_same (x ∷ p) s q ∙ e in
      let s2 : S = (mkdir_at zk p s1).1 in
      let e2 : view s2 q ≡ some v = mkdir_at-Keeps p q s1 v e1 in
      ground (arith, h.create_keeps false (x ∷ p) zk.empty s2 q v)

  create_at-Keeps : (f : Bool) (p : NodePath) (d : D) (q : NodePath) → Keeps (create_at zk f p d) q
  unfolding create_at
  create_at-Keeps f p d q s v e =
      let e1 : view (mkdir_at zk (parent p) s).1 q ≡ some v = mkdir_at-Keeps (parent p) q s v e in
      ground (arith, h.create_keeps f p d (mkdir_at zk (parent p) s).1 q v)

  mkdir_at_other :
      (p : NodePath) (s : S) (q : NodePath)
      → on_way q p ≡ false
      → view (mkdir_at zk p s).1 q ≡ view s q
  unfolding mkdir_at
  mkdir_at_other [] s q apart = refl
  mkdir_at_other (x ∷ p) s q apart =
      let s1 : S = (zk.exists (x ∷ p) s).1 in
      let s2 : S = (mkdir_at zk p s1).1 in
      let e1 : view s1 q ≡ view s q = h.exists_same (x ∷ p) s q in
      let e2 : view s2 q ≡ view s q = mkdir_at_other p s1 q (ground arith) ∙ e1 in
      let e3 : view (zk.create false (x ∷ p) zk.empty s2).1 q ≡ view s q =
        h.create_other false (x ∷ p) zk.empty s2 q (ground arith) ∙ e2 in
      ground (arith, e1, e2, e3)

  create_at_other :
      (f : Bool) (p : NodePath) (d : D) (s : S) (q : NodePath)
      → path_eq p q ≡ false
      → on_way q (parent p) ≡ false
      → view (create_at zk f p d s).1 q ≡ view s q
  unfolding create_at
  create_at_other f p d s q differ apart =
      let s1 : S = (mkdir_at zk (parent p) s).1 in
      let e1 : view s1 q ≡ view s q = mkdir_at_other (parent p) s q apart in
      let e2 : view (zk.create f p d s1).1 q ≡ view s q = h.create_other f p d s1 q differ ∙ e1 in
      ground (arith, e1, e2)

  update_at_other :
      (p : NodePath) (d : D) (s : S) (q : NodePath)
      → path_eq p q ≡ false
      → on_way q (parent p) ≡ false
      → view (update_at zk p d s).1 q ≡ view s q
  unfolding update_at
  update_at_other p d s q differ apart =
      let s1 : S = (zk.exists p s).1 in
      let e1 : view s1 q ≡ view s q = h.exists_same p s q in
      let s2 : S = (create_at zk false p d s1).1 in
      let e2 : view s2 q ≡ view s q = create_at_other false p d s1 q differ apart ∙ e1 in
      let e3 : view (zk.set p d s1).1 q ≡ view s q = h.set_other p d s1 q differ ∙ e1 in
      let e4 : view (zk.set p d s2).1 q ≡ view s q = h.set_other p d s2 q differ ∙ e2 in
      ground (arith, e1, e2, e3, e4)

  create_at_ok :
      (f : Bool) (p : NodePath) (d : D) (s : S)
      → (create_at zk f p d s).0 ≡ ok tt
      → (view s p ≡ none) × (view (create_at zk f p d s).1 p ≡ some (f, d))
  unfolding create_at
  create_at_ok f p d s e =
      let s1 : S = (mkdir_at zk (parent p) s).1 in
      elim (Reply-cases (mkdir_at zk (parent p) s).0) [
        | inr (x, bad) ↦ absurd (ground arith)
        | inl (_, good) ↦ elim (Option-cases (view s p)) [
          | inl fresh ↦ (fresh, ground (arith, h.create_ok f p d s1))
          | inr (v, there) ↦
              absurd (ground (arith, h.create_ok f p d s1, mkdir_at-Keeps (parent p) p s v there))
        ]
      ]

  update_at-Keeps :
      (p : NodePath) (d : D) (q : NodePath) → path_eq p q ≡ false → Keeps (update_at zk p d) q
  unfolding update_at
  update_at-Keeps p d q differ s v e =
      let s1 : S = (zk.exists p s).1 in
      let e1 : view s1 q ≡ some v = h.exists_same p s q ∙ e in
      let s2 : S = (create_at zk false p d s1).1 in
      let e2 : view s2 q ≡ some v = create_at-Keeps false p d q s1 v e1 in
      ground (arith, h.set_other p d s1 q, h.set_other p d s2 q)

  pub update_at_ok :
      (p : NodePath) (d : D) (s : S)
      → (update_at zk p d s).0 ≡ ok tt
      → data_of (view (update_at zk p d s).1 p) ≡ some d
  unfolding update_at
  update_at_ok p d s e =
      let s1 : S = (zk.exists p s).1 in
      let s2 : S = (create_at zk false p d s1).1 in ground (arith, h.set_ok p d s1, h.set_ok p d s2)

  read_at_ok :
      (p : NodePath) (must : Bool) (s : S) (r : Option D)
      → (read_at zk p must s).0 ≡ ok r
      → (r ≡ data_of (view s p)) × ((must ≡ true) → (d : D) × (r ≡ some d))
  unfolding read_at
  read_at_ok p must s r e = elim (Reply-cases (zk.get p s).0) [
    | inl (d, good) ↦ (ground (arith, h.get_ok p s d), λ m. (d, ground arith))
    | inr (no_node, bad) ↦ (ground (arith, h.get_no_node p s), λ m. absurd (ground arith))
    | inr (closed_client, bad) ↦ absurd (ground arith)
    | inr (node_exists, bad) ↦ absurd (ground arith)
    | inr (not_empty, bad) ↦ absurd (ground arith)
    | inr (failed, bad) ↦ absurd (ground arith)
  ]

  read_at_same :
      (p : NodePath) (must : Bool) (s : S) (q : NodePath)
      → view (read_at zk p must s).1 q ≡ view s q
  unfolding read_at
  read_at_same p must s q = ground (arith, h.get_same p s q)

  delete_at_ok :
      (p : NodePath) (s : S)
      → (forgive is_no_node (zk.delete p) s).0 ≡ ok tt
      → view (forgive is_no_node (zk.delete p) s).1 p ≡ none
  delete_at_ok p s e = elim (Reply-cases (zk.delete p s).0) [
    | inl (_, good) ↦ ground (arith, h.delete_ok p s)
    | inr (no_node, bad) ↦ ground (arith, h.delete_no_node p s)
    | inr (closed_client, bad) ↦ absurd (ground arith)
    | inr (node_exists, bad) ↦ absurd (ground arith)
    | inr (not_empty, bad) ↦ absurd (ground arith)
    | inr (failed, bad) ↦ absurd (ground arith)
  ]

  delete_at_other :
      (p : NodePath) (s : S) (q : NodePath)
      → path_eq p q ≡ false
      → view (forgive is_no_node (zk.delete p) s).1 q ≡ view s q
  delete_at_other p s q differ = ground (arith, h.delete_other p s q)

  reset_drops : (s : S) (q : NodePath) → IsUnharmed (view s q) (view (reset zk s) q)
  reset_drops s q =
      let s1 : S = (zk.connect s).1 in
      elim (Reply-cases (zk.connect s).0) [
        | inr (e, bad) ↦ inl (ground (arith, bad, h.connect_same s q))
        | inl (_, good) ↦
            rw (reset, good)
              (subst (λ o. IsUnharmed o (view (zk.close_old s1) q)) (h.connect_same s q)
                (h.close_drops s1 q))
      ]

  after_error_drops :
      (e : ZkError) (s : S) (q : NodePath) → IsUnharmed (view s q) (view (after_error zk e s) q)
  after_error_drops e s q = elim (Bool-cases (is_benign e)) [
    | inl benign ↦ rw benign (inl refl)
    | inr serious ↦ elim (Bool-cases (zk.is_old s)) [
      | inl old ↦ rw (serious, old) (reset_drops s q)
      | inr young ↦ rw (serious, young) (inl refl)
    ]
  ]

  -- A call that returns no error has reached an open connection, which is kept.
  shell_ok :
      {A : Type 0} (fn : Operation S ZkError A) (c : Conn S) (a : A)
      → (shell zk fn c).0 ≡ ok a
      → fn c.conn ≡ (ok a, (shell zk fn c).1.conn)
  unfolding shell
  shell_ok fn c a e = elim (Bool-cases c.closed) [
    | inl shut ↦ absurd (ground arith)
    | inr open_ ↦ elim (Reply-cases (fn c.conn).0) [
      | inl (b, good) ↦ ground arith
      | inr (x, bad) ↦ absurd (ground arith)
    ]
  ]

  -- Any call leaves nodes that are unharmed behind those of the call on the connection, or it has
  -- not reached the connection.
  shell_rest :
      {A : Type 0} (fn : Operation S ZkError A) (c : Conn S)
      → ((shell zk fn c).1 ≡ c)
        ⊎ ((q : NodePath) → IsUnharmed (view (fn c.conn).1 q) (view (shell zk fn c).1.conn q))
  unfolding shell
  shell_rest fn c = elim (Bool-cases c.closed) [
    | inl shut ↦ inl (ground arith)
    | inr open_ ↦ elim (Reply-cases (fn c.conn).0) [
      | inl (b, good) ↦ inr (λ q. rw (open_, good) (inl refl))
      | inr (x, bad) ↦ inr (λ q. rw (open_, bad) (after_error_drops x (fn c.conn).1 q))
    ]
  ]

  shell_other :
      {A : Type 0} (fn : Operation S ZkError A) (c : Conn S) (q : NodePath)
      → view (fn c.conn).1 q ≡ view c.conn q
      → IsUnharmed (view c.conn q) (view (shell zk fn c).1.conn q)
  shell_other fn c q same = elim (shell_rest fn c) [
    | inl unchanged ↦ inl (ap (λ x. view x.conn q) unchanged)
    | inr unharmed ↦ subst (λ o. IsUnharmed o (view (shell zk fn c).1.conn q)) same (unharmed q)
  ]

  shell-Keeps :
      {A : Type 0} (fn : Operation S ZkError A) (c : Conn S) (q : NodePath) (v : D)
      → Keeps fn q
      → view c.conn q ≡ some (false, v)
      → view (shell zk fn c).1.conn q ≡ some (false, v)
  shell-Keeps fn c q v keeps e = elim (shell_rest fn c) [
    | inl unchanged ↦ ap (λ x. view x.conn q) unchanged ∙ e
    | inr unharmed ↦ elim (unharmed q) [
      | inl same ↦ same ∙ keeps c.conn (false, v) e
      | inr (d, ephemeral, gone) ↦ absurd (cc (ephemeral, keeps c.conn (false, v) e))
    ]
  ]

-- The zookeeper client refines the coordinator: with a library that behaves as documented, what
-- `Create`, `Update`, `Delete` and `Read` return and leave is what the dashboard relies on. A
-- success has done its work; whether it succeeds or fails, an operation leaves every lasting node
-- but its own as it was, and any place that is neither its own nor above it as it was, except that
-- ephemeral nodes go with a session that is lost.
pub zk_client-IsCoordinator :
    {S D : Type 0} (view : S → NodePath → Option (Held D)) (zk : Zk S D)
    → Behaves view zk
    → IsCoordinator (λ c. view c.conn) (client zk)
unfolding create update delete read
zk_client-IsCoordinator view zk h = record {
  create_ok = λ p d c e.
      let done = shell_ok view zk h (create_at zk false p d) c tt e in
      let (fresh, made) = create_at_ok view zk h false p d c.conn (ap (λ r. r.0) done) in
      (fresh, sym (ap (λ r. view r.1 p) done) ∙ made);
  create_keeps = λ p d c q v e.
      shell-Keeps view zk h (create_at zk false p d) c q v (create_at-Keeps view zk h false p d q)
        e;
  create_other = λ p d c q differ apart.
      shell_other view zk h (create_at zk false p d) c q
        (create_at_other view zk h false p d c.conn q differ apart);
  update_ok = λ p d c e.
      let done = shell_ok view zk h (update_at zk p d) c tt e in
      sym (ap (λ r. data_of (view r.1 p)) done)
      ∙ update_at_ok view zk h p d c.conn (ap (λ r. r.0) done);
  update_keeps = λ p d c q v differ e.
      shell-Keeps view zk h (update_at zk p d) c q v (update_at-Keeps view zk h p d q differ) e;
  update_other = λ p d c q differ apart.
      shell_other view zk h (update_at zk p d) c q
        (update_at_other view zk h p d c.conn q differ apart);
  delete_ok = λ p c e.
      let done = shell_ok view zk h (forgive is_no_node (zk.delete p)) c tt e in
      sym (ap (λ r. view r.1 p) done) ∙ delete_at_ok view zk h p c.conn (ap (λ r. r.0) done);
  delete_other = λ p c q differ.
      shell_other view zk h (forgive is_no_node (zk.delete p)) c q
        (delete_at_other view zk h p c.conn q differ);
  read_ok = λ p must c r e.
      let done = shell_ok view zk h (read_at zk p must) c r e in
      (read_at_ok view zk h p must c.conn r (ap (λ x. x.0) done)).0;
  read_must = λ p c r e.
      let done = shell_ok view zk h (read_at zk p true) c r e in
      (read_at_ok view zk h p true c.conn r (ap (λ x. x.0) done)).1 refl;
  read_other = λ p must c q.
      shell_other view zk h (read_at zk p must) c q (read_at_same view zk h p must c.conn q);
}
