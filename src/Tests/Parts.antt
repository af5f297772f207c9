-- ===== src/Tests/Parts.antt =====
-- The theorems on the life of the service, the pool of connections, the log and the template files
-- at concrete inputs.
use Prim.Native.String as Text
use pikamgr.Base.{
  ◌≢◌, ◌+◌, Bool, true, false, List, [], ◌∷◌, none, some, ◌≡◌, refl, eqb, arith, map, ◌==◌, ◌<◌,
}
use pikamgr.Base.Int.{pos}
use pikamgr.Service.Life.{
  Life, Together, own, nobody, another, gave_up, Reach, here, next, new_life, signalling, finished,
  creating, up, close_call, close_done, close_wait, delete_ok, go_offline,
}
use pikamgr.Service.Life.Closing.{Reach-finished}
use pikamgr.Service.Life.Evicted.{Together-evicted}
use pikamgr.Service.Life.Race.{Reach-leaked}
use pikamgr.Redis.Pool.{Client, new_pool, get_client_from_cache}
use pikamgr.Redis.Pool.Filed.{
  PoolCall, put_call, get_call, cleanup_call, close_call, run_pool, get_client-addr,
}
use pikamgr.Redis.Pool.Conserved.{total}
use pikamgr.Redis.Pool.Balance.{all_given, all_handed_out, run_pool-total}
use pikamgr.Redis.Pool.Filed as Filed
use pikamgr.Log.{
  Writer, Env, log_file_max_size, write, need_rotate, rotated_name, is_expired, prefix_of, ext_of,
}
use pikamgr.Log.Bounds.{IsTracked, sum, write-IsTracked}
use pikamgr.Log.Broken.{write_all, write_all-fails}
use pikamgr.Log.Expired.{is_expired-named}

-- A service that is up, and at which `Close` has begun.
abbrev closing : Life
closing = record {
  closed = true;
  online = true;
  done = false;
  polling = false;
  node = own;
  start = up;
  close = signalling;
}

abbrev closed : Life
closed = record closing { done = true; node = nobody; online = false; close = finished }

run_closing : Reach closing closed
run_closing =
    next (next (next (next here (close_done _ refl)) (close_wait _ refl refl)) (delete_ok _ refl))
      (go_offline _ refl)

Reach-finished_example : (closed.polling ≡ false) × (closed.node ≢ own) × (closed.online ≡ false)
Reach-finished_example = Reach-finished closing closed tt refl refl run_closing refl

abbrev starting : Life
starting = record new_life { start = creating }

-- A dashboard that is up, and a second one of the product that finds its node.
abbrev running : Life
running = record new_life { start = up; online = true; polling = true; node = own }

abbrev refused : Life
refused = record starting { node = another }

Together-evicted_example :
    (l' : Life) × (m' : Life) × Together (running, refused) (l', m')
    × ((l'.start ≡ up) × (l'.online ≡ true) × (l'.closed ≡ false) × (l'.node ≡ nobody))
    × ((m'.start ≡ gave_up) × (m'.close ≡ finished) × (m'.online ≡ false))
Together-evicted_example =
    Together-evicted running refused refl refl refl refl refl refl refl refl refl

Reach-leaked_example :
    (m : Life) × Reach starting m
    × (m.start ≡ up)
    × (m.close ≡ finished)
    × (m.closed ≡ true)
    × (m.node ≡ own)
    × (m.online ≡ true)
Reach-leaked_example = Reach-leaked starting refl refl refl refl

-- Two connections to one server, of which the second can no longer be used when it is asked for.
abbrev first : Client
first = record { id = 1; addr = "s1:6379" }

abbrev second : Client
second = record { id = 2; addr = "s1:6379" }

abbrev any : Client → Bool
any c = true

abbrev lower : Client → Bool
lower c = eqb c.id 1

abbrev pool_calls : List PoolCall
pool_calls = put_call any first ∷ put_call any second ∷ []

run_pool-total_example :
    total 1 (run_pool (put_call any first ∷ get_call any "s1:6379" ∷ close_call ∷ []) new_pool)
      + all_handed_out 1 (put_call any first ∷ get_call any "s1:6379" ∷ close_call ∷ []) new_pool
    ≡ all_given 1 (put_call any first ∷ get_call any "s1:6379" ∷ close_call ∷ [])
run_pool-total_example =
    run_pool-total 1 (put_call any first ∷ get_call any "s1:6379" ∷ close_call ∷ [])

found_lower :
    (get_client_from_cache lower "s1:6379" (run_pool pool_calls new_pool)).0 ≡ some (some first)
unfolding get_client_from_cache run_pool Filed.pool_step pikamgr.Redis.Pool.put_client
    pikamgr.Redis.Pool.take_first
found_lower = refl

get_client-addr_example : (first.addr ≡ "s1:6379") × (lower first ≡ true)
get_client-addr_example = get_client-addr pool_calls lower "s1:6379" first found_lower

-- A log of at most ten bytes that is full, on a disk that works and on one that is full.
abbrev full_log : Writer
full_log = record {
  rotate_by_daily = false;
  max_size = pos 10;
  current_size = 12;
  open_day = 27;
  is_open = true;
  is_there = true;
  file_size = 12;
  archived = [];
}

abbrev working : Env
working = record { day = 27; renames = true; opens = true; writes = some 5; partial = 0 }

abbrev out_of_space : Env
out_of_space = record { day = 27; renames = true; opens = false; writes = none; partial = 3 }

write-IsTracked_example :
    let (r, w') = write full_log working in
    (r ≡ some 5)
    × IsTracked w'
    × (w'.file_size < 10 + 5)
    × (sum w'.archived + w'.file_size ≡ sum full_log.archived + full_log.file_size + 5)
write-IsTracked_example =
    write-IsTracked full_log working 9 5 (record { open_ = refl; there = refl; counted = refl })
      refl refl refl refl

is_due : need_rotate full_log 27 ≡ true
unfolding need_rotate
is_due = refl

write_all-fails_example :
    write_all (out_of_space ∷ working ∷ working ∷ []) full_log
    ≡ map (λ e. none) (out_of_space ∷ working ∷ working ∷ [])
write_all-fails_example =
    write_all-fails full_log out_of_space (working ∷ working ∷ []) refl is_due refl refl

fe_differs :
    (Text.◌++◌ (prefix_of "fe.log") (Text.◌++◌ "-audit" (ext_of "fe.log")) == "fe.log") ≡ false
unfolding pikamgr.Log.split_ext
fe_differs = refl

rotated_differs : (rotated_name "fe.log" "20181227-100000" == "fe.log") ≡ false
unfolding rotated_name pikamgr.Log.split_ext
rotated_differs = refl

-- The log `fe.log` and the log of another program, `fe-audit.log`.
is_expired-named_example :
    (is_expired "fe.log" 7 (rotated_name "fe.log" "20181227-100000") false 700000 ≡ true)
    × (is_expired "fe.log" 7
          (Text.◌++◌ (prefix_of "fe.log") (Text.◌++◌ "-audit" (ext_of "fe.log")))
          false
          700000
        ≡ true)
is_expired-named_example =
    is_expired-named "fe.log" "20181227-100000" "-audit" 7 700000 rotated_differs fe_differs
      (ground arith)
