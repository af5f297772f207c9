-- ===== src/Handler.antt =====
-- The HTTP handlers of handler/: what they make of the parameters of a path, and what they answer.
-- The pages that only show something, and `resync-all` of the groups, which may not return, are
-- left out.
pub mod Created
use pikamgr.Base.{
  String, Bool, true, false, not, ◌||◌, List, [], ◌∷◌, Option, none, some, codes, ◌==◌,
  if◌then◌else◌,
}
use pikamgr.Base.Int.{ℤ, pos, int_eq, int_lt}
use pikamgr.World.{World, State, Result, ok, err}
use pikamgr.Redis.Commands.Answers.{parse_int}
use pikamgr.Service.Api.{
  Call, create_group_call, remove_group_call, resync_group_call, add_group_server_call,
  del_group_server_call, promote_call, force_full_sync_call, add_sentinel_call, del_sentinel_call,
  resync_sentinels_call, add_gslb_call, del_gslb_call, perform,
}

-- The routes of the PUT requests, each with its parameters but `xauth`.
pub data GroupRoute : Type 0 where
  put_create : String → String → String → GroupRoute
  put_remove put_resync : String → GroupRoute
  put_add put_del put_promote put_force_full_sync : String → String → GroupRoute

pub data SentinelRoute : Type 0 where
  put_add_sentinel : String → SentinelRoute
  put_del_sentinel : String → String → SentinelRoute
  put_resync_all : SentinelRoute

pub data GslbRoute : Type 0 where
  put_add_gslb put_del_gslb : String → String → GslbRoute

pub data Route : Type 0 where
  group_route : GroupRoute → Route
  sentinel_route : SentinelRoute → Route
  gslb_route : GslbRoute → Route

-- A request, with what the client sends for `xauth`.
pub record Request : Type 0 where
  pub xauth : String
  pub route : Route

pub data Status : Type 0 where
  ok_status bad_request internal_server_error : Status

unfoldable pub valid_port : ℤ → Bool
valid_port port = not (int_lt port (pos 10000) || int_lt (pos 59999) port)

-- A port in the text of a parameter.
unfoldable pub port_of : String → Option ℤ
port_of text = elim (parse_int (codes text)) [
  | none ↦ none
  | some port ↦ if valid_port port then some port else none
]

abbrev pub with_name : String → Call → Option Call
with_name name call = if name == "" then none else some call

abbrev pub with_name_and_addr : String → String → Call → Option Call
with_name_and_addr name addr call = if name == "" || addr == "" then none else some call

unfoldable pub create_call : String → Option ℤ → Option ℤ → Option Call
create_call name none w = none
create_call name (some r) none = none
create_call name (some r) (some w) = with_name name (create_group_call name r w)

unfoldable pub del_call : String → Option ℤ → Option Call
del_call addr none = none
del_call addr (some force) = with_name addr (del_sentinel_call addr (not (int_eq force (pos 0))))

-- The call of the service that a route leads to, if its parameters are accepted.
unfoldable pub group_call : GroupRoute → Option Call
group_call (put_create name r w) = create_call name (port_of r) (port_of w)
group_call (put_remove name) = with_name name (remove_group_call name)
group_call (put_resync name) = with_name name (resync_group_call name)
group_call (put_add name addr) = with_name_and_addr name addr (add_group_server_call name addr)
group_call (put_del name addr) = with_name_and_addr name addr (del_group_server_call name addr)
group_call (put_promote name addr) = with_name_and_addr name addr (promote_call name addr)
group_call (put_force_full_sync name addr) =
    with_name_and_addr name addr (force_full_sync_call name addr)

unfoldable pub sentinel_call : SentinelRoute → Option Call
sentinel_call (put_add_sentinel addr) = with_name addr (add_sentinel_call addr)
sentinel_call (put_del_sentinel addr force) = del_call addr (parse_int (codes force))
sentinel_call put_resync_all = some resync_sentinels_call

unfoldable pub gslb_call : GslbRoute → Option Call
gslb_call (put_add_gslb name addr) = with_name_and_addr name addr (add_gslb_call name addr)
gslb_call (put_del_gslb name addr) = with_name_and_addr name addr (del_gslb_call name addr)

abbrev pub call_of : Route → Option Call
call_of (group_route r) = group_call r
call_of (sentinel_route r) = sentinel_call r
call_of (gslb_route r) = gslb_call r

abbrev pub status_of : Result (Unit {0}) → Status
status_of (ok _) = ok_status
status_of (err _) = internal_server_error

-- Nothing looks at `xauth`.
unfoldable pub handle : World → Request → State → Status × State
handle w req s = elim (call_of req.route) [
  | none ↦ (bad_request, s)
  | some call ↦ let (r, s') = perform w call s in (status_of r, s')
]
