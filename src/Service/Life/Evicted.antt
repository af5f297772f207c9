-- ===== src/Service/Life/Evicted.antt =====
-- A dashboard that was refused and takes the running one's node away.
use pikamgr.Base.{true, false, ◌≡◌, refl}
use pikamgr.Service.Life.{
  own, nobody, another, creating, gave_up, not_closed, finished, up, Life, create_fails,
  second_stop, close_call, close_done, close_wait, delete_ok, go_offline, Together, both,
  second_step,
}

pub Together-evicted :
    (l m : Life)
    → l.start ≡ up
    → l.online ≡ true
    → l.closed ≡ false
    → l.node ≡ own
    → m.start ≡ creating
    → m.close ≡ not_closed
    → m.closed ≡ false
    → m.polling ≡ false
    → m.node ≡ another
    → (l' : Life) × (m' : Life) × Together (l, m) (l', m')
      × ((l'.start ≡ up) × (l'.online ≡ true) × (l'.closed ≡ false) × (l'.node ≡ nobody))
      × ((m'.start ≡ gave_up) × (m'.close ≡ finished) × (m'.online ≡ false))
Together-evicted l m running online open_ made starting unclosed open_too quiet taken = (
  _,
  _,
  second_step
      (second_step
        (second_step
          (second_step
            (second_step
              (second_step (second_step both (create_fails m starting))
                (close_call _ unclosed open_too))
              (close_done _ refl))
            (close_wait _ refl quiet))
          (delete_ok _ refl))
        (go_offline _ refl))
      (second_stop _ refl refl),
  (running, online, open_, refl),
  (refl, refl, refl),
)
