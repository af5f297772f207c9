-- ===== src/Service/Gslbs/Persist.antt =====
-- What `AddGSLB` writes to the coordinator when the view of the groups has not changed.
use pikamgr.Base.{
  String, false, List, [], ◌∷◌, ◌++◌, some, ◌==◌, ◌≡◌, refl, sym, ap, subst, arith, lookup, eq_iff,
  inl, inr, Bool-cases, is_empty,
}
use pikamgr.Dao.{Gslb}
use pikamgr.World.{World, State, ok}
use pikamgr.Mapper.{gslb_update, is_unchanged}
use pikamgr.Mapper.Equal.{gslb_eq_iff}
use pikamgr.Service.Sort.{sort_groups}
use pikamgr.Service.Backends.{backends_of, haproxy_backends, get_gslb_backends}
use pikamgr.Service.Gslbs.{
  mem_string, refreshed, refresh_one, refresh_names, refresh_gslb_backend_info, add_gslb,
}

-- A record that stands in the cache already is not written.
pub gslb_update-cached :
    (w : World) (g : Gslb) (s : State)
    → lookup g.name s.gslbs ≡ some g
    → gslb_update w g s ≡ (ok tt, s)
unfolding gslb_update is_unchanged
gslb_update-cached w g s e = ground (arith, (gslb_eq_iff g g).1 refl)

-- The only load balancer is haproxy, and its view of the groups is up to date.
pub record IsCurrent (g : Gslb) (s : State) : Type 0 where
  pub name : g.name ≡ "haproxy"
  pub alone : s.gslbs ≡ ("haproxy", g) ∷ []
  pub polled : is_empty s.stats_servers ≡ false
  pub monitors : g.monitors ≡ []
  pub backends : g.backends ≡ backends_of s.stats_servers (sort_groups s.groups)

module _ (w : World) (g : Gslb) (s : State) (h : IsCurrent g s) where
  refreshed-IsCurrent :
      refreshed "haproxy" g (backends_of s.stats_servers (sort_groups s.groups), []) ≡ g
  refreshed-IsCurrent = ground (arith, h.name, h.monitors, h.backends)

  found-IsCurrent : lookup "haproxy" s.gslbs ≡ some g
  found-IsCurrent = rw h.alone refl

  haproxy-IsCurrent : refresh_one w "haproxy" (some g) s ≡ (ok tt, s)
  unfolding refresh_one get_gslb_backends haproxy_backends
  haproxy-IsCurrent = ground (
    arith,
    h.polled,
    refreshed-IsCurrent,
    gslb_update-cached w g s (subst (λ n. lookup n s.gslbs ≡ some g) (sym h.name) found-IsCurrent),
  )

  refresh_one-IsCurrent : (name : String) → refresh_one w name (lookup name s.gslbs) s ≡ (ok tt, s)
  unfolding refresh_one get_gslb_backends haproxy_backends
  refresh_one-IsCurrent name = elim (Bool-cases ("haproxy" == name)) [
    | inl here ↦
        subst (λ n. refresh_one w n (lookup n s.gslbs) s ≡ (ok tt, s))
          ((eq_iff "haproxy" name).0 here) (rw found-IsCurrent haproxy-IsCurrent)
    | inr other ↦ rw h.alone (rw other refl)
  ]

  refresh_names-IsCurrent : (names : List String) → refresh_names w names s ≡ (ok tt, s)
  unfolding refresh_names
  refresh_names-IsCurrent [] = refl
  refresh_names-IsCurrent (name ∷ names) =
      ground (arith, refresh_one-IsCurrent name, refresh_names-IsCurrent names)

-- The state with the changed record as the only one.
abbrev with_address : String → Gslb → State → State
with_address addr g s = record s {
  gslbs = ("haproxy", record g { servers = g.servers ++ addr ∷ [] }) ∷ [];
}

add_gslb-alone :
    (w : World) (addr : String) (g : Gslb) (s : State)
    → IsCurrent g s
    → (addr == "") ≡ false
    → mem_string addr g.servers ≡ false
    → add_gslb w "haproxy" addr (record s { gslbs = ("haproxy", g) ∷ [] })
      ≡ (ok tt, with_address addr g s)
unfolding add_gslb refresh_gslb_backend_info
add_gslb-alone w addr g s h text fresh =
    let g' : Gslb = record g { servers = g.servers ++ addr ∷ [] } in
    let s' : State = with_address addr g s in
    let h' : IsCurrent g' s' = record {
      name = h.name;
      alone = refl;
      polled = h.polled;
      monitors = h.monitors;
      backends = h.backends;
    } in
    ground (
      arith,
      text,
      fresh,
      gslb_update-cached w g' s' (subst (λ n. lookup n s'.gslbs ≡ some g') (sym h.name) refl),
      refresh_names-IsCurrent w g' s' h' (w.range_order s.trace ("haproxy" ∷ [])),
    )

-- Where haproxy is the only load balancer, a poll has been stored and the cached view of the groups is
-- the one that haproxy would be given now: `AddGSLB` of one more address to haproxy, not the empty
-- text, returns no error and shows the address in the cache, but it sends nothing to the coordinator,
-- since the record that it compares with is the very record that it has changed.
pub add_gslb-unwritten :
    (w : World) (addr : String) (g : Gslb) (s : State)
    → IsCurrent g s
    → (addr == "") ≡ false
    → mem_string addr g.servers ≡ false
    → let (r, s') = add_gslb w "haproxy" addr s in
      (r ≡ ok tt)
      × (lookup "haproxy" s'.gslbs ≡ some (record g { servers = g.servers ++ addr ∷ [] }))
      × (s'.trace ≡ s.trace)
      × (s'.store ≡ s.store)
add_gslb-unwritten w addr g s h text fresh =
    let same : s ≡ record s { gslbs = ("haproxy", g) ∷ [] } = λ i. record s { gslbs = h.alone i } in
    let done : add_gslb w "haproxy" addr s ≡ (ok tt, with_address addr g s) =
      subst (λ t. add_gslb w "haproxy" addr t ≡ (ok tt, with_address addr g s)) (sym same)
        (add_gslb-alone w addr g s h text fresh) in
    (
      ap (λ t. t.0) done,
      ap (λ t. lookup "haproxy" t.1.gslbs) done,
      ap (λ t. t.1.trace) done,
      ap (λ t. t.1.store) done,
    )
