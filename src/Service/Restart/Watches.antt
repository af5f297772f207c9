-- ===== src/Service/Restart/Watches.antt =====
-- The calls that change the sentinels keep the cache and the coordinator
-- together.
use pikamgr.Base.{
  String, Bool, true, false, not, List, [], ◌∷◌, ◌++◌, refl, is_empty, erase_idx, ◌==◌,
}
use pikamgr.Coordinate.Paths.{IsBaseName}
use pikamgr.Dao.{Sentinel, get_masters}
use pikamgr.World.{
  World, Result, ok, err, sentinel_flush, sentinel_remove_all, sentinel_monitor,
  sentinel_remove_failed, sentinel_exists, sentinel_not_found, invalid_address, gets,
}
use pikamgr.World.Keeps.{
  Keeps-bind, Keeps-pure, Keeps-attempt, Keeps-raise_if, Keeps-gets, Keeps-when, Keeps-or_raise,
}
use pikamgr.Service.Gslbs.{mem_string, find_string}
use pikamgr.Service.Sentinels.{
  marked, unless_forced, out_of_sync_by_sentinel, add_sentinel, del_sentinel, re_watch_sentinels,
  resync_sentinels,
}
use pikamgr.Service.Restart.Backed.{IsBacked-same}
use pikamgr.Service.Restart.Writes.{
  IsServing, KeepsBacked, IsBacked-IsLocal, sentinel-Backed, set_sentinel-Backed,
}

module _ (w : World) (blank : Sentinel) (serving : IsServing w)
    (base : IsBaseName w.product_name) where
  pub out_of_sync-Backed : KeepsBacked w blank (out_of_sync_by_sentinel w)
  unfolding out_of_sync_by_sentinel
  out_of_sync-Backed = Keeps-bind (gets (λ s. s.sentinel)) _ (Keeps-gets _) (λ x.
      Keeps-when (not (is_empty x.servers)) _ (set_sentinel-Backed w blank serving base (marked x)))

  pub add_sentinel-Backed : (addr : String) → KeepsBacked w blank (add_sentinel w addr)
  unfolding add_sentinel
  add_sentinel-Backed addr = Keeps-bind _ _ (Keeps-raise_if (addr == "") invalid_address) (λ _.
      Keeps-bind (gets (λ s. s.sentinel)) _ (Keeps-gets _) (λ x.
        Keeps-bind _ _ (Keeps-raise_if (mem_string addr x.servers) (sentinel_exists addr)) (λ _.
          Keeps-bind _ _ ((IsBacked-IsLocal w blank).at_request w (sentinel_flush addr)) (λ _.
            set_sentinel-Backed w blank serving base
              (record { servers = x.servers ++ addr ∷ []; out_of_sync = true })))))

  unless_forced-Backed :
      (force : Bool) (addr : String) (r : Result (Unit {0}))
      → KeepsBacked w blank (unless_forced force addr r)
  unless_forced-Backed force addr (ok a) = Keeps-pure tt
  unless_forced-Backed force addr (err e) = Keeps-raise_if (not force) (sentinel_remove_failed addr)

  pub del_sentinel-Backed :
      (addr : String) (force : Bool) → KeepsBacked w blank (del_sentinel w addr force)
  unfolding del_sentinel
  del_sentinel-Backed addr force =
      Keeps-bind _ _ (Keeps-raise_if (addr == "") invalid_address) (λ _.
        Keeps-bind (gets (λ s. s.sentinel)) _ (Keeps-gets _) (λ x.
          Keeps-bind _ _ (Keeps-or_raise (find_string addr x.servers) (sentinel_not_found addr))
            (λ i. sentinel-Backed w blank serving base (marked x) _ (λ _.
              Keeps-bind _ _
                (Keeps-attempt _
                  ((IsBacked-IsLocal w blank).at_request w (sentinel_remove_all (addr ∷ []))))
                (λ removed. Keeps-bind _ _ (unless_forced-Backed force addr removed) (λ _.
                  set_sentinel-Backed w blank serving base
                    (record { servers = erase_idx x.servers i; out_of_sync = true })))))))

  re_watch-Backed : (servers : List String) → KeepsBacked w blank (re_watch_sentinels w servers)
  unfolding re_watch_sentinels
  re_watch-Backed [] = record {
    at = λ s b. IsBacked-same w.product_name blank s _ refl refl refl refl b;
  }
  re_watch-Backed (x ∷ xs) = record {
    at = λ s b. IsBacked-same w.product_name blank s _ refl refl refl refl b;
  }

  pub resync_sentinels-Backed : KeepsBacked w blank (resync_sentinels w)
  unfolding resync_sentinels
  resync_sentinels-Backed =
      Keeps-bind (gets (λ s. get_masters s.groups)) _ (Keeps-gets _) (λ masters.
        Keeps-bind (gets (λ s. s.sentinel)) _ (Keeps-gets _) (λ x.
          sentinel-Backed w blank serving base (marked x) _ (λ _.
            Keeps-bind _ _
              (Keeps-attempt _
                ((IsBacked-IsLocal w blank).at_request w (sentinel_remove_all x.servers)))
              (λ _.
                Keeps-bind _ _
                  ((IsBacked-IsLocal w blank).at_request w (sentinel_monitor x.servers masters))
                  (λ _. Keeps-bind _ _ (re_watch-Backed x.servers) (λ _.
                    set_sentinel-Backed w blank serving base
                      (record { servers = x.servers; out_of_sync = false })))))))
