-- ===== src/Service/Life/Race.antt =====
-- A `Close` that overtakes a `Start`.
use pikamgr.Base.{true, false, ◌≡◌, refl}
use pikamgr.Service.Life.{
  own, creating, not_closed, finished, up, Life, create_ok, go_online, run_stats, close_call,
  close_done, close_wait, delete_ok, go_offline, Reach, here, next,
}

-- From every moment at which `Start` is about to make the node, a `Close` can run to its end without
-- an error, and the service then comes up all the same: it is closed, says that it is online,
-- and its node stays in the coordinator.
pub Reach-leaked :
    (l : Life)
    → l.start ≡ creating
    → l.close ≡ not_closed
    → l.closed ≡ false
    → l.polling ≡ false
    → (m : Life) × Reach l m
      × (m.start ≡ up)
      × (m.close ≡ finished)
      × (m.closed ≡ true)
      × (m.node ≡ own)
      × (m.online ≡ true)
Reach-leaked l starting unclosed open_ quiet = (
  _,
  next
      (next
        (next
          (next
            (next
              (next (next (next here (close_call l unclosed open_)) (close_done _ refl))
                (close_wait _ refl quiet))
              (delete_ok _ refl))
            (go_offline _ refl))
          (create_ok _ starting refl))
        (go_online _ refl))
      (run_stats _ refl),
  refl,
  refl,
  refl,
  refl,
  refl,
)
