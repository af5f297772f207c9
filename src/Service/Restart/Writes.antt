-- ===== src/Service/Restart/Writes.antt =====
-- The writes that the mappers make keep the cache and the coordinator together, if the coordinator
-- serves them.
use pikamgr.Base.{
  String, true, List, ◌∷◌, none, some, ◌≡◌, refl, subst, inl, inr, arith, lookup, insert,
  lookup-insert, lookup-erase, codes, ◌==◌, eq_iff, Bool-cases, if◌then◌else◌,
}
use pikamgr.Coordinate.{NodePath, group_path, sentinel_path, gslb_path}
use pikamgr.Coordinate.Plain.{IsPlain}
use pikamgr.Coordinate.Paths.{IsBaseName}
use pikamgr.Dao.{Group, Sentinel, Gslb, Value, group_value, sentinel_value, gslb_value}
use pikamgr.World.{
  World, State, Effect, Result, Action, store_update, store_delete, request, client_update,
  client_delete, set_group, set_sentinel, set_gslb, attempt, ◌>>=◌, ◌>>◌,
}
use pikamgr.World.Keeps.{Keeps, Keeps-after, Keeps-bind}
use pikamgr.Mapper.{
  is_unchanged, group_create, group_update, group_remove, sentinel_update, gslb_update, gslb_delete,
}
use pikamgr.Service.Groups.Resync.{IsLocal}
use pikamgr.Service.Restart.Backed.{
  IsBacked, IsBacked-group, IsBacked-sentinel, IsBacked-gslb, IsBacked-same,
}

-- The coordinator serves every write. The redis servers and the sentinels may fail.
pub record IsServing (w : World) : Type 0 where
  pub updates : (t : List Effect) (p : NodePath) (v : Value) → w.reply t (store_update p v) ≡ true
  pub deletes : (t : List Effect) (p : NodePath) → w.reply t (store_delete p) ≡ true

module _ (w : World) (blank : Sentinel) where
  abbrev pub KeepsBacked : {A : Type 0} → Action A → Type 0
  KeepsBacked m = Keeps (IsBacked w.product_name blank) m

  pub IsBacked-IsLocal : IsLocal (IsBacked w.product_name blank)
  unfolding request
  IsBacked-IsLocal = record {
    at_request = λ w' e. record {
      at = λ s b.
          IsBacked-same w.product_name blank s (record s { trace = e ∷ s.trace }) refl refl refl
            refl b;
    };
  }

module _ (w : World) (blank : Sentinel) (serving : IsServing w)
    (base : IsBaseName w.product_name) where
  -- A group that is new in the cache or was changed there in place.
  write_at :
      (name : String) (g : Group) (before s : State)
      → g.name ≡ name
      → IsPlain (codes name)
      → ((j : String)
          → (if name == j then some g else lookup j s.groups)
            ≡ (if name == j then some g else lookup j before.groups))
      → s.store ≡ before.store
      → s.sentinel ≡ before.sentinel
      → s.gslbs ≡ before.gslbs
      → IsBacked w.product_name blank before
      → IsBacked w.product_name blank (group_update w g s).1
  unfolding group_update client_update request
  write_at name g before s n plain near same_store same_sentinel same_gslbs b =
      let served : w.reply s.trace (store_update (group_path w.product_name g.name) (group_value g))
          ≡ true =
        serving.updates s.trace _ _ in
      IsBacked-group w.product_name blank before _ name (some g) plain (λ h e. ground (arith, n))
        (λ j. ground (arith, near j, lookup-insert g.name j g s.groups)) (λ q. ground arith)
        (ground arith) (ground arith) b

  pub group_update-Backed :
      (g : Group) → IsPlain (codes g.name) → KeepsBacked w blank (group_update w g)
  group_update-Backed g plain = record {
    at = λ s b. write_at g.name g s s refl plain (λ j. refl) refl refl refl b;
  }

  pub group_create-Backed :
      (g : Group) → IsPlain (codes g.name) → KeepsBacked w blank (group_create w g)
  unfolding group_create group_update
  group_create-Backed g plain = record { at = (group_update-Backed g plain).at }

  -- A cached group is changed in place and handed to its mapper.
  set_group-Backed :
      (name : String) (g : Group) (s : State)
      → g.name ≡ name
      → IsPlain (codes name)
      → IsBacked w.product_name blank s
      → IsBacked w.product_name blank
          (group_update w g (record s { groups = insert name g s.groups })).1
  set_group-Backed name g s n plain b =
      write_at name g s _ n plain (λ j. ground (arith, lookup-insert name j g s.groups)) refl refl
        refl b

  pub write-Backed :
      {B : Type 0} (name : String) (g : Group) (f : Unit {0} → Action B)
      → g.name ≡ name
      → IsPlain (codes name)
      → ((a : Unit) → KeepsBacked w blank (f a))
      → KeepsBacked w blank (set_group name g >> (group_update w g >>= f))
  write-Backed name g f n plain k = record {
    at = λ s b.
        Keeps-after (group_update w g) f (record s { groups = insert name g s.groups })
          (set_group-Backed name g s n plain b) k;
  }

  pub attempt_write-Backed :
      {B : Type 0} (name : String) (g : Group) (f : Result (Unit {0}) → Action B)
      → g.name ≡ name
      → IsPlain (codes name)
      → ((a : Result (Unit {0})) → KeepsBacked w blank (f a))
      → KeepsBacked w blank (set_group name g >> (attempt (group_update w g) >>= f))
  attempt_write-Backed name g f n plain k = record {
    at = λ s b.
        Keeps-after (attempt (group_update w g)) f (record s { groups = insert name g s.groups })
          (set_group-Backed name g s n plain b) k;
  }

  pub group_remove-Backed :
      (g : Group) → IsPlain (codes g.name) → KeepsBacked w blank (group_remove w g)
  unfolding group_remove client_delete request
  group_remove-Backed g plain = record {
    at = λ s b.
        let served : w.reply s.trace (store_delete (group_path w.product_name g.name)) ≡ true =
          serving.deletes s.trace _ in
        IsBacked-group w.product_name blank s _ g.name none plain (λ h e. ground arith)
          (λ j. ground (arith, lookup-erase g.name j s.groups)) (λ q. ground arith) (ground arith)
          (ground arith) b;
  }

  -- The sentinels' record is changed in place and handed to its mapper.
  pub set_sentinel-Backed :
      (x : Sentinel) → KeepsBacked w blank (set_sentinel x >> sentinel_update w x)
  unfolding sentinel_update client_update request
  set_sentinel-Backed x = record {
    at = λ s b.
        let served : w.reply s.trace
              (store_update (sentinel_path w.product_name) (sentinel_value x))
            ≡ true =
          serving.updates s.trace _ _ in
        IsBacked-sentinel w.product_name blank s _ x base (ground arith) (ground arith)
          (λ q. ground arith) (ground arith) b;
  }

  pub sentinel-Backed :
      {B : Type 0} (x : Sentinel) (f : Unit {0} → Action B)
      → ((a : Unit) → KeepsBacked w blank (f a))
      → KeepsBacked w blank (set_sentinel x >> (sentinel_update w x >>= f))
  sentinel-Backed x f k = record {
    at = λ s b.
        Keeps-after (sentinel_update w x) f (record s { sentinel = x })
          ((set_sentinel-Backed x).at s b) k;
  }

  pub set_gslb-Backed :
      (name : String) (g : Gslb)
      → g.name ≡ name
      → IsPlain (codes name)
      → KeepsBacked w blank (set_gslb name g)
  set_gslb-Backed name g n plain = record {
    at = λ s b. record {
      named = b.named;
      balancers = λ k h e. elim (Bool-cases (name == k)) [
        | inl here ↦
            let p : name ≡ k = (eq_iff name k).0 here in
            (
              ground (arith, lookup-insert name k g s.gslbs, n),
              subst (λ j. IsPlain (codes j)) p plain,
            )
        | inr there ↦ b.balancers k h (ground (arith, lookup-insert name k g s.gslbs))
      ];
      groups = b.groups;
      children = b.children;
      sentinel = b.sentinel;
    };
  }

  -- A load balancer's record in the coordinator.
  gslb_store-Backed :
      (g : Gslb)
      → IsPlain (codes g.name)
      → KeepsBacked w blank (client_update w (gslb_path g.name w.product_name) (gslb_value g))
  unfolding client_update request
  gslb_store-Backed g plain = record {
    at = λ s b.
        let served : w.reply s.trace (store_update (gslb_path g.name w.product_name) (gslb_value g))
            ≡ true =
          serving.updates s.trace _ _ in
        IsBacked-gslb w.product_name blank s _ g.name (some (gslb_value g)) base plain
          (ground arith) (ground (arith, b.balancers)) (λ q. ground arith) (ground arith) b;
  }

  pub gslb_update-Backed :
      (g : Gslb) → IsPlain (codes g.name) → KeepsBacked w blank (gslb_update w g)
  unfolding gslb_update
  gslb_update-Backed g plain = record {
    at = λ s b. elim (Bool-cases (is_unchanged (lookup g.name s.gslbs) g)) [
      | inl same ↦ rw same b
      | inr changed ↦ rw changed ((written).at s b)
    ];
  }
    where
      written :
          KeepsBacked w blank
            (client_update w (gslb_path g.name w.product_name) (gslb_value g) >> set_gslb g.name g)
      written =
          Keeps-bind _ _ (gslb_store-Backed g plain) (λ _. set_gslb-Backed g.name g refl plain)

  pub gslb_delete-Backed :
      (g : Gslb) → IsPlain (codes g.name) → KeepsBacked w blank (gslb_delete w g)
  unfolding gslb_delete client_delete request
  gslb_delete-Backed g plain = record {
    at = λ s b.
        let served : w.reply s.trace (store_delete (gslb_path g.name w.product_name)) ≡ true =
          serving.deletes s.trace _ in
        IsBacked-gslb w.product_name blank s _ g.name none base plain (ground arith)
          (λ k h e. b.balancers k h (ground (arith, lookup-erase g.name k s.gslbs)))
          (λ q. ground arith) (ground arith) b;
  }
