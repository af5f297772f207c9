-- ===== src/Service/Promote/Valid.antt =====
-- Promotion keeps the invariant of the groups, wherever it stops.
use pikamgr.Base.{
  ℕ, String, not, ◌≡◌, ◌∙◌, refl, inl, inr, arith, [], ◌∷◌, lookup, is_empty, Option-cases,
}
use pikamgr.Dao.{
  Group, Sentinel, ActionState, nothing, preparing, prepared, finished, other, get_server_index,
}
use pikamgr.World.{
  World, State, Effect, request, gets, modify, set_sentinel, sentinel_remove, client_update,
  invalid_action_state, server_not_found, or_raise, ◌>>=◌, ◌>>◌,
}
use pikamgr.World.Keeps.{
  Keeps, Keeps-bind, Keeps-attempt, Keeps-raise, Keeps-gets, Keeps-when, Keeps-if, Keeps-raise_if,
  Keeps-or_raise,
}
use pikamgr.Mapper.{sentinel_update}
use pikamgr.Service.Servers.{has_server-swap, AreOnce-swap}
use pikamgr.Service.Checks.{is_active}
use pikamgr.Service.Sentinels.{marked}
use pikamgr.Service.Groups.Valid.{IsValid}
use pikamgr.Service.Groups.Tracks.{
  Similar, Tracks, Tracks-read, Tracks-cong, set_group-Tracks, group_update-Tracks,
  resync_servers-Tracks,
}
use pikamgr.Service.Promote.{
  settled, with_state, exchanged, erase_master, check_index, promote_finished, forget_group,
  promote_prepared, promote_preparing, promote_nothing, promote_from, group_promote_server,
}

module _ (w : World) (name : String) (g : Group) (n : g.name ≡ name) where
  with_state-Similar :
      (h : Group) (i : ℕ) (st : ActionState) → Similar g h → Similar g (with_state h i st)
  with_state-Similar h i st q = record {
    name = q.name;
    read = q.read;
    write = q.write;
    members = q.members;
    once = q.once;
  }

  settled-Similar : (h : Group) → Similar g h → Similar g (settled h)
  settled-Similar h q = record {
    name = q.name;
    read = q.read;
    write = q.write;
    members = q.members;
    once = q.once;
  }

  exchanged-Similar : (h : Group) → Similar g h → Similar g (exchanged h)
  exchanged-Similar h q = record {
    name = q.name;
    read = q.read;
    write = q.write;
    members = λ a. has_server-swap a h.servers h.promoting.index ∙ q.members a;
    once = AreOnce-swap h.servers h.promoting.index q.once;
  }

  set_sentinel-Tracks : (x : Sentinel) → Keeps (Tracks name g) (set_sentinel x)
  set_sentinel-Tracks x = record { at = λ s k. Tracks-cong name g s _ k refl }

  sentinel_update-Tracks : (x : Sentinel) → Keeps (Tracks name g) (sentinel_update w x)
  unfolding sentinel_update client_update request
  sentinel_update-Tracks x = record { at = λ s k. Tracks-cong name g s _ k (ground arith) }

  request-Tracks : (e : Effect) → Keeps (Tracks name g) (request w e)
  unfolding request
  request-Tracks e = record { at = λ s k. Tracks-cong name g s _ k refl }

  erase_master-Tracks :
      (h : Group)
      → Keeps
          (Tracks name g)
          (modify (λ s. record s { ha_masters = erase_master h.name s.ha_masters }))
  erase_master-Tracks h = record {
    at = λ s k.
        Tracks-cong name g s (record s { ha_masters = erase_master h.name s.ha_masters }) k refl;
  }

  forget_group-Tracks : (h : Group) → Keeps (Tracks name g) (forget_group w h)
  unfolding forget_group
  forget_group-Tracks h = Keeps-bind (gets (λ s. s.sentinel)) _ (Keeps-gets _) (λ x.
      Keeps-when (not (is_empty x.servers)) _ (
        Keeps-bind _ _ (set_sentinel-Tracks (marked x)) (λ _.
          Keeps-bind _ _ (sentinel_update-Tracks (marked x)) (λ _.
            Keeps-bind _ _
              (Keeps-attempt _ (request-Tracks (sentinel_remove x.servers (h.name ∷ []))))
              (λ _. erase_master-Tracks h)))))

  promote_finished-Tracks : (h : Group) → Similar g h → Keeps (Tracks name g) (promote_finished w h)
  unfolding promote_finished
  promote_finished-Tracks h q = group_update-Tracks name g w (settled h) (settled-Similar h q)

  promote_prepared-Tracks :
      (h : Group) → Similar g h → Keeps (Tracks name g) (promote_prepared w name h)
  unfolding promote_prepared
  promote_prepared-Tracks h q =
      let q' : Similar g (exchanged h) = exchanged-Similar h q in
      Keeps-bind _ _ (forget_group-Tracks h) (λ _.
        Keeps-bind _ _ (set_group-Tracks name g (exchanged h) q') (λ _.
          Keeps-bind _ _ (group_update-Tracks name g w (exchanged h) q') (λ _.
            Keeps-bind _ _ (Keeps-attempt _ (resync_servers-Tracks name g w (exchanged h) q' n))
              (λ _. promote_finished-Tracks (exchanged h) q'))))

  promote_preparing-Tracks :
      (h : Group) → Similar g h → Keeps (Tracks name g) (promote_preparing w name h)
  unfolding promote_preparing
  promote_preparing-Tracks h q =
      let q' : Similar g (with_state h h.promoting.index prepared) =
        with_state-Similar h h.promoting.index prepared q in
      Keeps-bind _ _ (set_group-Tracks name g _ q') (λ _.
        Keeps-bind _ _ (group_update-Tracks name g w _ q') (λ _. promote_prepared-Tracks _ q'))

  promote_nothing-Tracks :
      (h : Group) (i : ℕ) → Similar g h → Keeps (Tracks name g) (promote_nothing w name h i)
  unfolding promote_nothing
  promote_nothing-Tracks h i q =
      let q' : Similar g (with_state h i preparing) = with_state-Similar h i preparing q in
      Keeps-bind _ _ (set_group-Tracks name g _ q') (λ _.
        Keeps-bind _ _ (group_update-Tracks name g w _ q') (λ _. promote_preparing-Tracks _ q'))

  promote_from-Tracks :
      (st : ActionState) (h : Group) (i : ℕ)
      → Similar g h
      → Keeps (Tracks name g) (promote_from w st name h i)
  unfolding promote_from
  promote_from-Tracks nothing h i q = promote_nothing-Tracks h i q
  promote_from-Tracks preparing h i q = promote_preparing-Tracks h q
  promote_from-Tracks prepared h i q = promote_prepared-Tracks h q
  promote_from-Tracks finished h i q = promote_finished-Tracks h q
  promote_from-Tracks (other x) h i q = Keeps-raise (invalid_action_state h.name)

  check_index-Tracks : (h : Group) (i : ℕ) → Keeps (Tracks name g) (check_index h i)
  unfolding check_index
  check_index-Tracks h i =
      Keeps-if (is_active h.promoting) _ _ (Keeps-raise_if _ _) (Keeps-raise_if _ _)

  promote_found-Tracks :
      (addr : String)
      → Similar g g
      → Keeps (Tracks name g) (
          or_raise (get_server_index g addr) (server_not_found name addr) >>= λ i.
          check_index g i >> promote_from w g.promoting.state name g i)
  promote_found-Tracks addr q =
      Keeps-bind _ _ (Keeps-or_raise (get_server_index g addr) (server_not_found name addr)) (λ i.
        Keeps-bind _ _ (check_index-Tracks g i) (λ _. promote_from-Tracks g.promoting.state g i q))

-- Promotion keeps the invariant of the groups, at whatever stage it stops and whatever the
-- coordinator, the sentinels and the servers answer.
pub group_promote_server-IsValid :
    (w : World) (name addr : String) (s : State)
    → IsValid s.groups
    → IsValid (group_promote_server w name addr s).1.groups
unfolding group_promote_server
group_promote_server-IsValid w name addr s v = elim (Option-cases (lookup name s.groups)) [
  | inl e ↦ rw e v
  | inr (g, e) ↦
      let k : Tracks name g s = Tracks-read name g s v e in
      rw e
        ((promote_found-Tracks w name g k.named addr (record {
          name = refl;
          read = refl;
          write = refl;
          members = λ a. refl;
          once = (v.sound name g e).once;
        })).at
          s k).valid
]
