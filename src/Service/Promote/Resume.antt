-- ===== src/Service/Promote/Resume.antt =====
-- A promotion whose position lies outside of its group.
use pikamgr.Base.{
  ℕ, String, true, some, ◌≡◌, arith, lookup, length, get_elem?-lt, ◌≤◌, ◌<◌, Option-cases, inl, inr,
}
use pikamgr.Dao.{Group, get_server_index}
use pikamgr.World.{World, State, Error, err, server_not_found, promoting_index}
use pikamgr.Service.Checks.{is_active}
use pikamgr.Service.Servers.{get-index_of}
use pikamgr.Service.Promote.{check_index, group_promote_server}

-- A promotion is under way, at a position that the group no longer has.
pub record IsStuck (g : Group) : Type 0 where
  pub active : is_active g.promoting ≡ true
  pub outside : length g.servers ≤ g.promoting.index

get_server_index-lt :
    (g : Group) (addr : String) {i : ℕ} → get_server_index g addr ≡ some i → i < length g.servers
unfolding get_server_index
get_server_index-lt g addr e = get_elem?-lt g.servers _ (get-index_of addr g.servers e)

-- While a promotion is under way at a position outside of the group, a call of `GroupPromoteServer` for
-- the group fails and changes nothing, whatever server it names.
pub group_promote_server-IsStuck :
    (w : World) (name addr : String) (g : Group) (s : State)
    → lookup name s.groups ≡ some g
    → IsStuck g
    → (e : Error) × (group_promote_server w name addr s ≡ (err e, s))
unfolding group_promote_server check_index
group_promote_server-IsStuck w name addr g s e stuck =
    elim (Option-cases (get_server_index g addr)) [
      | inl absent ↦ (server_not_found name addr, ground arith)
      | inr (i, at) ↦
          (promoting_index g.name g.promoting.index, ground (arith, get_server_index-lt g addr at))
    ]
