-- ===== src/Service/Promote/Blocked.antt =====
-- When `ResyncGroupAll` returns.
use pikamgr.Base.{
  ℕ, String, List, [], ◌∷◌, none, some, ◌≡◌, refl, arith, length, Assoc, ltb, ◌≤◌, ◌<◌, inl, inr,
  Bool-cases, ltb→lt, ◌≢◌,
}
use pikamgr.Dao.{Group}
use pikamgr.World.{World, State, Error, Result, ok}
use pikamgr.World.Runs.{Result-cases}
use pikamgr.Service.Groups.{resync_one}
use pikamgr.Service.Promote.{Wait, resync_each, resync_group_all}

-- What `ResyncGroupAll` relies on: `Wait` returns what was handed to `Done` once there were as many
-- calls of `Done` as of `Add`, and does not return before.
pub record IsFuture (wait : Wait) : Type 0 where
  pub returns : (calls : List (String × Error)) → wait (length calls) calls ≡ some calls
  pub blocks : (n : ℕ) (calls : List (String × Error)) → length calls < n → wait n calls ≡ none

-- Every group of the range fails to synchronise, each from the state that those before it left.
abbrev pub AllFail : World → Assoc Group → State → Type 0
AllFail w [] s = Unit
AllFail w ((name, g) ∷ groups) s =
    let (r, s') = resync_one w name g s in (r ≢ ok tt) × AllFail w groups s'

module _ (w : World) (wait : Wait) where
  -- The loop returns, and a group that synchronises makes no call.
  resync_each-ok :
      (groups : Assoc Group) (s : State)
      → (calls : List (String × Error)) × ((resync_each w wait groups s).0 ≡ ok calls)
        × (length calls ≤ length groups)
        × ((length calls ≡ length groups) → AllFail w groups s)
  unfolding resync_each
  resync_each-ok [] s = ([], refl, omega arith, λ e. tt)
  resync_each-ok ((name, g) ∷ groups) s =
      let (calls, done, fewer, all) = resync_each-ok groups (resync_one w name g s).1 in
      elim (Result-cases (resync_one w name g s).0) [
        | inl (_, good) ↦ (calls, ground arith, omega arith, λ e. absurd (omega arith))
        | inr (x, bad) ↦
            ((g.name, x) ∷ calls, ground arith, omega arith, λ e. (λ q. cc, all (omega arith)))
      ]

-- `ResyncGroupAll` returns only if every group fails to synchronise: a goroutine that succeeds
-- calls no `Done`, so one success is enough for the call never to return, with the mutex held.
pub resync_group_all-AllFail :
    (w : World) (wait : Wait) (s : State) (r : Result (Unit {0}))
    → IsFuture wait
    → (resync_group_all w wait s).0 ≡ ok (some r)
    → AllFail w s.groups s
unfolding resync_group_all
resync_group_all-AllFail w wait s r future e =
    let (calls, done, fewer, all) = resync_each-ok w wait s.groups s in
    elim (Bool-cases (ltb (length calls) (length s.groups))) [
      | inl less ↦
          absurd (ground (arith, done, future.blocks (length s.groups) calls (ltb→lt _ _ less)))
      | inr enough ↦ all (ground (arith, fewer))
    ]
