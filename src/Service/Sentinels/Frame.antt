-- ===== src/Service/Sentinels/Frame.antt =====
-- What the sentinels' bookkeeping leaves alone.
use pikamgr.Base.{◌≡◌, arith}
use pikamgr.World.{World, State, client_update, request}
use pikamgr.Mapper.{sentinel_update}
use pikamgr.Service.Sentinels.{out_of_sync_by_sentinel}

pub groups-out_of_sync_by_sentinel :
    (w : World) (s : State) → (out_of_sync_by_sentinel w s).1.groups ≡ s.groups
unfolding out_of_sync_by_sentinel sentinel_update client_update request
groups-out_of_sync_by_sentinel w s = ground arith
