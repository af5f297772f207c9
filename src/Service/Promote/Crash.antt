-- ===== src/Service/Promote/Crash.antt =====
-- A promotion that is cut off, by failed writes of the coordinator or by the end of the process: what
-- the coordinator holds then, and what the same call does after a restart.
use pikamgr.Base.{
  ℕ, zero, suc, String, Bool, true, List, [], ◌∷◌, Option, some, none, ◌≡◌, refl, sym, ◌∙◌, subst,
  ap, ◌⊎◌, inl, inr, arith, lookup, codes, swap_first, eq_refl,
}
use pikamgr.Coordinate.{group_path}
use pikamgr.Coordinate.Plain.{IsPlain}
use pikamgr.Dao.{
  Group, GroupServer, ActionState, nothing, preparing, prepared, finished, other, get_server_index,
  index_of, group_value,
}
use pikamgr.World.{World, State, invalid_action_state, ◌>>◌}
use pikamgr.World.Keeps.{Keeps-bind, Keeps-raise, Keeps-attempt, Keeps-raise_if, Keeps-if}
use pikamgr.Service.Checks.{is_active}
use pikamgr.Service.Servers.{get-index_of}
use pikamgr.Service.Promote.{
  settled, with_state, exchanged, check_index, promote_finished, promote_prepared,
  promote_preparing, promote_nothing, promote_from, group_promote_server,
}
use pikamgr.Service.Promote.Completes.{
  IsAccepting, CanPromote, after_promotion, Holds, group_promote_server-Holds,
}
use pikamgr.Service.Restart.Backed.{stored_group}
use pikamgr.Service.Promote.Held.{
  IsOnWay, IsHeld, KeepsHeld, set_group-Held, group_update-Held, forget_group-Held,
  resync_servers-Held,
}

-- The server that the exchange brings to the front is found there.
index_of-swap :
    (addr : String) (xs : List GroupServer) (i : ℕ)
    → index_of addr xs ≡ some i
    → index_of addr (swap_first xs i) ≡ some 0
unfolding index_of
index_of-swap addr [] i e = absurd (ground arith)
index_of-swap addr (x ∷ xs) zero e = e
index_of-swap addr (x ∷ xs) (suc i) e = ground (arith, get-index_of addr (x ∷ xs) e, eq_refl addr)

-- A node that holds a group is that of a cached one.
stored-some : (o : Option Group) (g : Group) → stored_group o ≡ some (group_value g) → o ≡ some g
stored-some none g e = absurd (ground arith)
stored-some (some h) g e = ground arith

module _ (w : World) (name addr : String) (goal : Group) (plain : IsPlain (codes name)) where
  -- A group of which the exchange leads to the end.
  record IsReady (i : ℕ) (h : Group) : Type 0 where
    pub named : h.name ≡ name
    pub found : get_server_index h addr ≡ some i
    pub index : h.promoting.index ≡ i
    pub reaches : settled (exchanged h) ≡ goal

  exchanged-IsOnWay :
      (i : ℕ) (h : Group) (o : Bool)
      → IsReady i h
      → IsOnWay name addr goal (record (exchanged h) { out_of_sync = o })
  unfolding get_server_index
  exchanged-IsOnWay i h o r = record {
    named = r.named;
    stage = inr (record {
      position = 0;
      found =
          index_of-swap addr h.servers h.promoting.index (r.found ∙ ap (λ k. some k) (sym r.index));
      passes = refl;
      reaches = r.reaches;
    });
  }

  promote_prepared-Held :
      (i : ℕ) (h : Group)
      → IsReady i h
      → KeepsHeld w name addr goal plain (promote_prepared w name h)
  unfolding promote_prepared promote_finished
  promote_prepared-Held i h r = Keeps-bind _ _ (forget_group-Held w name addr goal plain h) (λ _.
      Keeps-bind _ _ (set_group-Held w name addr goal plain name (exchanged h)) (λ _.
        Keeps-bind _ _
          (group_update-Held w name addr goal plain (exchanged h)
            (exchanged-IsOnWay i h h.out_of_sync r))
          (λ _.
            Keeps-bind _ _
              (Keeps-attempt _ (
                resync_servers-Held w name addr goal plain (exchanged h)
                  (exchanged-IsOnWay i h true r)))
              (λ _.
                group_update-Held w name addr goal plain (settled (exchanged h))
                  (record { named = r.named; stage = inl r.reaches })))))

  promote_preparing-Held :
      (i : ℕ) (h : Group)
      → IsReady i h
      → KeepsHeld w name addr goal plain (promote_preparing w name h)
  unfolding promote_preparing get_server_index
  promote_preparing-Held i h r =
      let h' : Group = with_state h h.promoting.index prepared in
      Keeps-bind _ _ (set_group-Held w name addr goal plain name h') (λ _.
        Keeps-bind _ _
          (group_update-Held w name addr goal plain h' (record {
            named = r.named;
            stage = inr (record {
              position = i;
              found = r.found;
              passes = sym r.index;
              reaches = rw (← r.index) r.reaches;
            });
          }))
          (λ _.
            promote_prepared-Held i h'
              (record { named = r.named; found = r.found; index = r.index; reaches = r.reaches })))

  promote_nothing-Held :
      (i : ℕ) (h : Group)
      → h.name ≡ name
      → get_server_index h addr ≡ some i
      → after_promotion (with_state h i preparing) i ≡ goal
      → KeepsHeld w name addr goal plain (promote_nothing w name h i)
  unfolding promote_nothing get_server_index
  promote_nothing-Held i h n found reaches =
      let h' : Group = with_state h i preparing in
      Keeps-bind _ _ (set_group-Held w name addr goal plain name h') (λ _.
        Keeps-bind _ _
          (group_update-Held w name addr goal plain h' (record {
            named = n;
            stage = inr (record { position = i; found = found; passes = refl; reaches = reaches });
          }))
          (λ _.
            promote_preparing-Held i h'
              (record { named = n; found = found; index = refl; reaches = reaches })))

  promote_from-Held :
      (h : Group) (i : ℕ) (st : ActionState)
      → h.promoting.state ≡ st
      → h.name ≡ name
      → get_server_index h addr ≡ some i
      → CanPromote h i
      → after_promotion h i ≡ goal
      → KeepsHeld w name addr goal plain (promote_from w st name h i)
  unfolding promote_from promote_finished
  promote_from-Held h i nothing e n found c reaches =
      promote_nothing-Held i h n found (ground (arith, reaches))
  promote_from-Held h i preparing e n found c reaches =
      promote_preparing-Held i h (record {
        named = n;
        found = found;
        index = ground arith;
        reaches = ground (arith, reaches);
      })
  promote_from-Held h i prepared e n found c reaches =
      promote_prepared-Held i h (record {
        named = n;
        found = found;
        index = ground arith;
        reaches = ground (arith, reaches);
      })
  promote_from-Held h i finished e n found c reaches =
      group_update-Held w name addr goal plain (settled h)
        (record { named = n; stage = inl (ground (arith, reaches)) })
  promote_from-Held h i (other x) e n found c reaches = Keeps-raise (invalid_action_state h.name)

  check_index-Held : (h : Group) (i : ℕ) → KeepsHeld w name addr goal plain (check_index h i)
  unfolding check_index
  check_index-Held h i =
      Keeps-if (is_active h.promoting) _ _ (Keeps-raise_if _ _) (Keeps-raise_if _ _)

  promote_found-Held :
      (g : Group) (i : ℕ)
      → g.name ≡ name
      → get_server_index g addr ≡ some i
      → CanPromote g i
      → after_promotion g i ≡ goal
      → KeepsHeld w name addr goal plain
          (check_index g i >> promote_from w g.promoting.state name g i)
  promote_found-Held g i n found c reaches =
      Keeps-bind _ _ (check_index-Held g i)
        (λ _. promote_from-Held g i g.promoting.state refl n found c reaches)

-- What a promotion leaves in the coordinator, whatever is answered.
group_promote_server-IsHeld :
    (w : World) (name addr : String) (i : ℕ) (g : Group) (s : State)
    → IsPlain (codes name)
    → lookup name s.groups ≡ some g
    → g.name ≡ name
    → get_server_index g addr ≡ some i
    → CanPromote g i
    → s.store (group_path w.product_name name) ≡ some (group_value g)
    → IsHeld w.product_name name addr (after_promotion g i) (group_promote_server w name addr s).1
unfolding group_promote_server
group_promote_server-IsHeld w name addr i g s plain e n found c held = rw e (
    rw found (
      (promote_found-Held w name addr (after_promotion g i) plain g i n found c refl).at s (record {
        record_ = g;
        held = held;
        on_way = record {
          named = n;
          stage = inr (record { position = i; found = found; passes = c; reaches = refl });
        };
      })))

-- A promotion may be cut off anywhere: whatever requests of the first call fail, all of them from
-- some point on included, let another service load the group that the coordinator then holds. Its
-- group is as after the whole promotion, or the same call brings it there if the coordinator now takes
-- every write: the chosen server is exchanged with the master exactly once.
pub group_promote_server-resumes :
    (w later : World) (name addr : String) (i : ℕ) (g : Group) (s t : State)
    → IsPlain (codes name)
    → lookup name s.groups ≡ some g
    → g.name ≡ name
    → get_server_index g addr ≡ some i
    → CanPromote g i
    → s.store (group_path w.product_name name) ≡ some (group_value g)
    → stored_group (lookup name t.groups)
      ≡ (group_promote_server w name addr s).1.store (group_path w.product_name name)
    → IsAccepting later
    → (lookup name t.groups ≡ some (after_promotion g i))
      ⊎ Holds later name (after_promotion g i) (group_promote_server later name addr t)
group_promote_server-resumes w later name addr i g s t plain e n found c held loads accepts =
    let h : IsHeld w.product_name name addr (after_promotion g i)
        (group_promote_server w name addr s).1 =
      group_promote_server-IsHeld w name addr i g s plain e n found c held in
    let cached : lookup name t.groups ≡ some h.record_ =
      stored-some (lookup name t.groups) h.record_ (loads ∙ h.held) in
    elim h.on_way.stage [
      | inl end ↦ inl (cached ∙ ap (λ x. some x) end)
      | inr p ↦ inr (
          subst (λ x. Holds later name x (group_promote_server later name addr t)) p.reaches
            (group_promote_server-Holds later name addr p.position h.record_ t accepts cached
              h.on_way.named p.found p.passes))
    ]
