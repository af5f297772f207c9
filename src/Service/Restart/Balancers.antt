-- ===== src/Service/Restart/Balancers.antt =====
-- The calls that change the load balancers keep the cache and the coordinator
-- together.
use pikamgr.Base.{
  String, List, [], ◌∷◌, ◌++◌, Option, none, some, ◌≡◌, refl, Assoc, lookup, keys, codes, is_empty,
  erase_idx, ◌==◌,
}
use pikamgr.Coordinate.Plain.{IsPlain}
use pikamgr.Coordinate.Paths.{IsBaseName}
use pikamgr.Dao.{Sentinel, Gslb}
use pikamgr.World.{
  set_gslb, World, RedisStats, GslbStats, invalid_address, gslb_not_found, gslb_server_exists,
  gslb_server_not_found, gets, lift, when, ◌>>◌,
}
use pikamgr.World.Keeps.{
  Keeps-bind, Keeps-pure, Keeps-attempt, Keeps-raise_if, Keeps-gets, Keeps-when, Keeps-read,
  Keeps-found, Keeps-or_raise,
}
use pikamgr.Mapper.{gslb_update, gslb_delete}
use pikamgr.Service.Backends.{get_gslb_backends}
use pikamgr.Service.Gslbs.{
  mem_string, find_string, refreshed, or_new, refresh_one, refresh_names, refresh_gslb_backend_info,
  add_gslb, del_gslb,
}
use pikamgr.Service.Api.{store_stats, store_gslb_stats, tell_gslbs}
use pikamgr.Service.Restart.Backed.{IsBacked-same}
use pikamgr.Service.Restart.Writes.{
  IsServing, KeepsBacked, set_gslb-Backed, gslb_update-Backed, gslb_delete-Backed,
}

-- What the invariant says of the load balancer that is found at a name.
abbrev IsOwn : String → Option Gslb → Type 0
IsOwn name v = (g : Gslb) → v ≡ some g → (g.name ≡ name) × IsPlain (codes name)

or_new-name : (name : String) (v : Option Gslb) → IsOwn name v → (or_new name v).name ≡ name
or_new-name name none own = refl
or_new-name name (some g) own = (own g refl).0

module _ (w : World) (blank : Sentinel) (serving : IsServing w)
    (base : IsBaseName w.product_name) where
  refresh_one-Backed :
      (name : String) (v : Option Gslb) → IsOwn name v → KeepsBacked w blank (refresh_one w name v)
  unfolding refresh_one
  refresh_one-Backed name none named = Keeps-pure tt
  refresh_one-Backed name (some v) named =
      Keeps-bind (λ s. lift (get_gslb_backends name s) s) _ (record { at = λ s h. h })
        (λ view.
          Keeps-bind _ _
            (Keeps-attempt _
              (gslb_update-Backed w blank serving base (refreshed name v view) (named v refl).1))
            (λ _. Keeps-pure tt))

  refresh_names-Backed : (names : List String) → KeepsBacked w blank (refresh_names w names)
  unfolding refresh_names
  refresh_names-Backed [] = Keeps-pure tt
  refresh_names-Backed (name ∷ names) =
      Keeps-read (λ s. lookup name s.gslbs) _ (IsOwn name) (λ s b. b.balancers name)
        (λ v own.
          Keeps-bind (refresh_one w name v) _ (refresh_one-Backed name v own)
            (λ _. refresh_names-Backed names))

  pub refresh-Backed : KeepsBacked w blank (refresh_gslb_backend_info w)
  unfolding refresh_gslb_backend_info
  refresh-Backed =
      Keeps-bind (gets (λ s. w.range_order s.trace (keys s.gslbs))) _ (Keeps-gets _)
        (λ names. refresh_names-Backed names)

  pub store_stats-Backed : (stats : Assoc RedisStats) → KeepsBacked w blank (store_stats w stats)
  unfolding store_stats
  store_stats-Backed stats = record {
    at = λ s b. IsBacked-same w.product_name blank s _ refl refl refl refl b;
  }

  pub store_gslb_stats-Backed :
      (stats : Assoc GslbStats) → KeepsBacked w blank (store_gslb_stats w stats)
  unfolding store_gslb_stats
  store_gslb_stats-Backed stats = record {
    at = λ s b. IsBacked-same w.product_name blank s _ refl refl refl refl b;
  }

  pub tell_gslbs-Backed : KeepsBacked w blank (tell_gslbs w)
  unfolding tell_gslbs
  tell_gslbs-Backed = Keeps-bind _ _ (Keeps-attempt _ refresh-Backed) (λ _. Keeps-pure tt)

  -- A record changed in place, handed to its mapper, and the load balancers told.
  changed-Backed :
      (name : String) (g : Gslb)
      → g.name ≡ name
      → IsPlain (codes name)
      → KeepsBacked w blank (set_gslb name g >> (gslb_update w g >> refresh_gslb_backend_info w))
  changed-Backed name g n plain =
      Keeps-bind _ _ (set_gslb-Backed w blank serving base name g n plain) (λ _.
        Keeps-bind _ _ (gslb_update-Backed w blank serving base g (rw n plain))
          (λ _. refresh-Backed))

  shrunk-Backed :
      (name : String) (g : Gslb)
      → g.name ≡ name
      → IsPlain (codes name)
      → KeepsBacked w blank (
          set_gslb name g
          >> (gslb_update w g
              >> (when (is_empty g.servers) (gslb_delete w g) >> refresh_gslb_backend_info w)))
  shrunk-Backed name g n plain =
      Keeps-bind _ _ (set_gslb-Backed w blank serving base name g n plain) (λ _.
        Keeps-bind _ _ (gslb_update-Backed w blank serving base g (rw n plain)) (λ _.
          Keeps-bind _ _
            (Keeps-when (is_empty g.servers) _
              (gslb_delete-Backed w blank serving base g (rw n plain)))
            (λ _. refresh-Backed)))

  pub add_gslb-Backed :
      (name addr : String) → IsPlain (codes name) → KeepsBacked w blank (add_gslb w name addr)
  unfolding add_gslb
  add_gslb-Backed name addr plain =
      Keeps-bind _ _ (Keeps-raise_if (addr == "") invalid_address) (λ _.
        Keeps-read (λ s. or_new name (lookup name s.gslbs)) _ (λ g. g.name ≡ name)
          (λ s b. or_new-name name (lookup name s.gslbs) (b.balancers name))
          (λ g n. Keeps-bind _ _ (set_gslb-Backed w blank serving base name g n plain) (λ _.
            Keeps-bind _ _
              (Keeps-raise_if (mem_string addr g.servers) (gslb_server_exists name addr))
              (λ _. changed-Backed name (record g { servers = g.servers ++ addr ∷ [] }) n plain))))

  pub del_gslb-Backed : (name addr : String) → KeepsBacked w blank (del_gslb w name addr)
  unfolding del_gslb
  del_gslb-Backed name addr = Keeps-bind _ _ (Keeps-raise_if (addr == "") invalid_address) (λ _.
      Keeps-read (λ s. lookup name s.gslbs) _ (IsOwn name) (λ s b. b.balancers name)
        (λ found own. Keeps-found found (gslb_not_found name) _ (λ g here.
          Keeps-bind _ _
            (Keeps-or_raise (find_string addr g.servers) (gslb_server_not_found name addr))
            (λ i.
              shrunk-Backed name (record g { servers = erase_idx g.servers i }) (own g here).0
                (own g here).1))))
