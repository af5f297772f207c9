-- ===== src/Coordinators/Zk/Completes.antt =====
-- When the zookeeper client writes a node.
use pikamgr.Base.{
  Bool, true, false, [], ◌∷◌, Option, none, some, ◌≡◌, refl, ◌∙◌, arith, inl, inr, Option-cases,
}
use pikamgr.Coordinate.{NodePath, parent}
use pikamgr.Coordinators.{ok, err, forgive, Held, data_of}
use pikamgr.Coordinators.Zk.{
  Zk, node_exists, is_node_exists, Conn, shell, mkdir_at, create_at, update_at, update,
}
use pikamgr.Coordinators.Zk.Refines.{Behaves, update_at_ok}

abbrev pub is_there : {D : Type 0} → Option D → Bool
is_there none = false
is_there (some d) = true

-- The root is always there.
abbrev pub IsThere : {D : Type 0} → (NodePath → Option D) → NodePath → Type 0
IsThere nodes [] = Unit
IsThere {D} nodes (x ∷ p) = (d : D) × (nodes (x ∷ p) ≡ some d)

-- A connection on which no request is lost: `exists` tells whether there is a node, `create` makes a
-- node whose parent is there and refuses one that is there itself, and `set` writes a node that
-- is there.
pub record Serves {S D : Type 0} (view : S → NodePath → Option (Held D)) (zk : Zk S D)
    : Type 0 where
  pub exists_served : (p : NodePath) (s : S) → (zk.exists p s).0 ≡ ok (is_there (view s p))
  pub create_served :
      (f : Bool) (p : NodePath) (d : D) (s : S)
      → IsThere (view s) (parent p)
      → view s p ≡ none
      → (zk.create f p d s).0 ≡ ok tt
  pub create_refused :
      (f : Bool) (p : NodePath) (d : D) (v : Held D) (s : S)
      → view s p ≡ some v
      → (zk.create f p d s).0 ≡ err node_exists
  pub set_served :
      (p : NodePath) (d : D) (v : Held D) (s : S) → view s p ≡ some v → (zk.set p d s).0 ≡ ok tt

module _ {S D : Type 0} (view : S → NodePath → Option (Held D)) (zk : Zk S D) (h : Behaves view zk)
    (k : Serves view zk) where
  mkdir_at-IsThere :
      (p : NodePath) (s : S) → ((mkdir_at zk p s).0 ≡ ok tt) × IsThere (view (mkdir_at zk p s).1) p
  unfolding mkdir_at parent
  mkdir_at-IsThere [] s = (refl, tt)
  mkdir_at-IsThere (x ∷ p) s =
      let s1 : S = (zk.exists (x ∷ p) s).1 in
      let s2 : S = (mkdir_at zk p s1).1 in
      let (made, parent_there) = mkdir_at-IsThere p s1 in
      elim (Option-cases (view s (x ∷ p))) [
        | inr (v, there) ↦ (
          ground (arith, k.exists_served (x ∷ p) s),
          (v, ground (arith, k.exists_served (x ∷ p) s, h.exists_same (x ∷ p) s (x ∷ p))),
        )
        | inl absent ↦ elim (Option-cases (view s2 (x ∷ p))) [
          | inl fresh ↦
              let served : (zk.create false (x ∷ p) zk.empty s2).0 ≡ ok tt =
                k.create_served false (x ∷ p) zk.empty s2 parent_there fresh in
              (
                ground (arith, k.exists_served (x ∷ p) s, made, served),
                (
                  (false, zk.empty),
                  ground (
                    arith,
                    k.exists_served (x ∷ p) s,
                    made,
                    served,
                    h.create_ok false (x ∷ p) zk.empty s2,
                  ),
                ),
              )
          | inr (v, there) ↦
              let refused : (zk.create false (x ∷ p) zk.empty s2).0 ≡ err node_exists =
                k.create_refused false (x ∷ p) zk.empty v s2 there in
              (
                ground (arith, k.exists_served (x ∷ p) s, made, refused),
                (
                  v,
                  ground (
                    arith,
                    k.exists_served (x ∷ p) s,
                    made,
                    refused,
                    h.create_keeps false (x ∷ p) zk.empty s2 (x ∷ p) v,
                  ),
                ),
              )
        ]
      ]

  -- The inner call of `update`, for a node that was not there.
  forgiven-IsThere :
      (p : NodePath) (d : D) (s : S)
      → ((forgive is_node_exists (create_at zk false p d) s).0 ≡ ok tt)
        × ((v : Held D) × (view (forgive is_node_exists (create_at zk false p d) s).1 p ≡ some v))
  unfolding create_at
  forgiven-IsThere p d s =
      let s1 : S = (mkdir_at zk (parent p) s).1 in
      let (made, parent_there) = mkdir_at-IsThere (parent p) s in
      elim (Option-cases (view s1 p)) [
        | inl fresh ↦
            let served : (zk.create false p d s1).0 ≡ ok tt =
              k.create_served false p d s1 parent_there fresh in
            (
              ground (arith, made, served),
              ((false, d), ground (arith, made, served, h.create_ok false p d s1)),
            )
        | inr (v, there) ↦
            let refused : (zk.create false p d s1).0 ≡ err node_exists =
              k.create_refused false p d v s1 there in
            (
              ground (arith, made, refused),
              (v, ground (arith, made, refused, h.create_keeps false p d s1 p v)),
            )
      ]

  update_at-served : (p : NodePath) (d : D) (s : S) → (update_at zk p d s).0 ≡ ok tt
  unfolding update_at
  update_at-served p d s =
      let s1 : S = (zk.exists p s).1 in
      let (done, (v, there)) = forgiven-IsThere p d s1 in
      elim (Option-cases (view s p)) [
        | inl absent ↦ ground (
          arith,
          k.exists_served p s,
          done,
          k.set_served p d v (forgive is_node_exists (create_at zk false p d) s1).1 there,
        )
        | inr (w, old) ↦
            ground (arith, k.exists_served p s, k.set_served p d w s1 (h.exists_same p s p ∙ old))
      ]

pub zk_update-Serves :
    {S D : Type 0} (view : S → NodePath → Option (Held D)) (zk : Zk S D) (p : NodePath) (d : D)
    (c : Conn S)
    → Behaves view zk
    → Serves view zk
    → c.closed ≡ false
    → ((update zk p d c).0 ≡ ok tt) × (data_of (view (update zk p d c).1.conn p) ≡ some d)
unfolding update shell
zk_update-Serves view zk p d c h k open_ =
    let done : (update_at zk p d c.conn).0 ≡ ok tt = update_at-served view zk h k p d c.conn in
    (ground arith, ground (arith, update_at_ok view zk h p d c.conn))
