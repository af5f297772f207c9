-- ===== src/Redis.antt =====
-- The redis client, topom/client/redis, as far as the service changes servers with it.
pub mod HostPort
pub mod Info
pub mod NodeName
pub mod Masters
pub mod Commands
pub mod Conn
pub mod Pool
pub mod Subscribe
use pikamgr.Base.{String, List, [], ◌∷◌, Option, none, some}
use pikamgr.World.{
  World, Action, Result, ok, err, invalid_host_port, dial, redis_do, request, raise, pure, ◌>>=◌,
  ◌>>◌,
}
use pikamgr.Redis.HostPort.{split_host_port}

-- One command and its arguments.
abbrev pub Command : Type 0
Command = List String

module _ (w : World) where
  -- `for _, opt := range opts`: the commands in order, up to the first that fails.
  unfoldable pub run_commands : String → List Command → Action (Unit {0})
  run_commands addr [] = pure tt
  run_commands addr (c ∷ cs) = do request w (redis_do addr c); run_commands addr cs

  unfoldable pub set_master_at : String → String → Option (String × String) → Action (Unit {0})
  set_master_at addr master none = raise (invalid_host_port master)
  set_master_at addr master (some (host, port)) = run_commands addr (
      ("CONFIG" ∷ "SET" ∷ "masterauth" ∷ w.product_auth ∷ [])
      ∷ ("SLAVEOF" ∷ host ∷ port ∷ [])
      ∷ ("CONFIG" ∷ "REWRITE" ∷ [])
      ∷ [])

  -- `Client.SetMaster` on the client of `addr`
  unfoldable pub set_master : String → String → Action (Unit {0})
  set_master addr master = set_master_at addr master (split_host_port master)

  unfoldable pub force_full_sync_at : String → String → Option (String × String) → Action (Unit {0})
  force_full_sync_at addr master none = raise (invalid_host_port master)
  force_full_sync_at addr master (some (host, port)) = run_commands addr (
      ("CONFIG" ∷ "SET" ∷ "masterauth" ∷ w.product_auth ∷ [])
      ∷ ("SLAVEOF" ∷ "NO" ∷ "ONE" ∷ [])
      ∷ ("SLAVEOF" ∷ host ∷ port ∷ "force" ∷ [])
      ∷ ("CONFIG" ∷ "REWRITE" ∷ [])
      ∷ [])

  -- `Client.ForceFullSyncFromMaster`
  unfoldable pub force_full_sync_from_master : String → String → Action (Unit {0})
  force_full_sync_from_master addr master = force_full_sync_at addr master (split_host_port master)
