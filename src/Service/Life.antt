-- ===== src/Service/Life.antt =====
-- The life of the service: `Start` and `Close` of topom/service.go, which run in goroutines of their
-- own, with `Create` and `Delete` of topom/dao/mapper/topom_mapper.go. A step is what lies
-- between two operations that another goroutine can see.
pub mod Closing
pub mod Race
pub mod Evicted
use pikamgr.Base.{Bool, true, false, ◌≡◌}

-- Who made the node of the product's dashboard: nobody, as there is none, this dashboard, or another
-- one of the same product.
pub data Owner : Type 0 where
  nobody own another : Owner

-- How far the call of `Start` is: before the first `select` of its loop, before `Create`, before
-- the second `select`, behind the loop, behind the store to `online`, and returned, with the
-- service up or given up. A further call of `Start` returns at once.
pub data StartAt : Type 0 where
  not_started trying creating pausing created announced up gave_up : StartAt

-- How far the call of `Close` is: behind the exchange of `closed`, behind `close(s.done)`, behind
-- `s.wg.Wait()`, behind `Delete`, and returned, with an error or without. A further call
-- returns at once.
pub data CloseAt : Type 0 where
  not_closed signalling waiting deleting deleted failed finished : CloseAt

pub record Life : Type 0 where
  pub closed : Bool
  pub online : Bool
  -- the channel `done` is closed
  pub done : Bool
  -- the goroutine of `doStats` runs, and `wg` counts it
  pub polling : Bool
  -- the node of the dashboard in the coordinator
  pub node : Owner
  pub start : StartAt
  pub close : CloseAt

abbrev pub new_life : Life
new_life = record {
  closed = false;
  online = false;
  done = false;
  polling = false;
  node = nobody;
  start = not_started;
  close = not_closed;
}

pub data Step : Life → Life → Type 0 where
  -- `Start`
  start_call :
      (l : Life) → l.start ≡ not_started → l.closed ≡ false → Step l (record l { start = trying })
  first_select :
      (l : Life) → l.start ≡ trying → l.done ≡ false → Step l (record l { start = creating })
  first_stop : (l : Life) → l.start ≡ trying → l.done ≡ true → Step l (record l { start = gave_up })
  -- the coordinator makes a node only where there is none
  create_ok :
      (l : Life)
      → l.start ≡ creating
      → l.node ≡ nobody
      → Step l (record l { start = created; node = own })
  create_fails : (l : Life) → l.start ≡ creating → Step l (record l { start = pausing })
  second_select : (l : Life) → l.start ≡ pausing → Step l (record l { start = trying })
  second_stop :
      (l : Life) → l.start ≡ pausing → l.done ≡ true → Step l (record l { start = gave_up })
  go_online :
      (l : Life) → l.start ≡ created → Step l (record l { start = announced; online = true })
  run_stats : (l : Life) → l.start ≡ announced → Step l (record l { start = up; polling = true })
  -- `doStats` returns
  stats_exit : (l : Life) → l.polling ≡ true → l.done ≡ true → Step l (record l { polling = false })
  -- `Close`
  close_call :
      (l : Life)
      → l.close ≡ not_closed
      → l.closed ≡ false
      → Step l (record l { close = signalling; closed = true })
  close_done :
      (l : Life) → l.close ≡ signalling → Step l (record l { close = waiting; done = true })
  close_wait :
      (l : Life) → l.close ≡ waiting → l.polling ≡ false → Step l (record l { close = deleting })
  -- `Delete` does not ask who made the node
  delete_ok : (l : Life) → l.close ≡ deleting → Step l (record l { close = deleted; node = nobody })
  delete_fails : (l : Life) → l.close ≡ deleting → Step l (record l { close = failed })
  go_offline :
      (l : Life) → l.close ≡ deleted → Step l (record l { close = finished; online = false })
  -- another dashboard of the product: its `Start` makes the node where there is none, and its
  -- `Close` deletes it, whoever made it
  other_create : (l : Life) → l.node ≡ nobody → Step l (record l { node = another })
  other_delete : (l : Life) → Step l (record l { node = nobody })

pub data Reach (l : Life) : Life → Type 0 where
  here : Reach l l
  next : {m n : Life} → Reach l m → Step m n → Reach l n

-- The node that one dashboard has made is the other one's `another`.
abbrev pub seen : Owner → Owner
seen nobody = nobody
seen own = another
seen another = own

-- Two dashboards of one product, each with steps of its own on the one node.
pub data Together (p : Life × Life) : Life × Life → Type 0 where
  both : Together p p
  first_step :
      {l m n : Life}
      → Together p (l, m)
      → Step l n
      → Together p (n, record m { node = seen n.node })
  second_step :
      {l m n : Life}
      → Together p (l, m)
      → Step m n
      → Together p (record l { node = seen n.node }, n)
