-- ===== src/Redis/Subscribe/Majority.antt =====
-- When `Subscribe` returns, and what.
use pikamgr.Base.{
  ℕ, zero, suc, ◌-◌, ◌≤◌, String, Bool, true, false, ◌||◌, List, [], ◌∷◌, some, ◌≡◌, refl, ap, sym,
  ◌∙◌, arith, length, ltb, if◌then◌else◌, Bool-cases, inl, inr,
}
use pikamgr.Redis.Masters.{majority_of}
use pikamgr.Redis.Subscribe.{Heard, done, returned, subscribe_loop, subscribe, majority_calls}

-- The results that come before the context is done.
abbrev pub in_time : List Heard → List Bool
in_time [] = []
in_time (done ∷ hs) = []
in_time (returned b ∷ hs) = b ∷ in_time hs

-- Whether one of the first results is a notification.
abbrev pub any_of : ℕ → List Bool → Bool
any_of zero bs = false
any_of (suc n) [] = false
any_of (suc n) (b ∷ bs) = b || any_of n bs

any_of-nil : (n : ℕ) → any_of n [] ≡ false
any_of-nil zero = refl
any_of-nil (suc n) = refl

subscribe_loop-in_time :
    (majority alive : ℕ) (hs : List Heard)
    → 1 ≤ majority
    → alive ≤ length hs
    → subscribe_loop majority alive hs ≡ some (any_of (suc alive - majority) (in_time hs))
unfolding subscribe_loop
subscribe_loop-in_time majority alive [] m h =
    let few : ltb alive majority ≡ true = ground arith in
    ground (arith, few, any_of-nil (suc alive - majority))
subscribe_loop-in_time majority alive (done ∷ hs) m h =
    ap some (sym (any_of-nil (suc alive - majority)))
subscribe_loop-in_time majority alive (returned b ∷ hs) m h =
    elim (Bool-cases (ltb alive majority)) [
      | inl few ↦
          let none_left : suc alive - majority ≡ 0 = ground arith in rw few (rw none_left refl)
      | inr enough ↦
          let more : suc alive - majority ≡ suc (alive - majority) = ground arith in
          let less : suc (alive - 1) - majority ≡ alive - majority = ground arith in
          let rest : subscribe_loop majority (alive - 1) hs
              ≡ some (any_of (alive - majority) (in_time hs)) =
            subscribe_loop-in_time majority (alive - 1) hs m (ground arith)
            ∙ ap (λ n. some (any_of n (in_time hs))) less in
          elim (Bool-cases b) [
            | inl told ↦ rw enough (rw told (rw more refl))
            | inr silent ↦ rw enough (rw silent (rw more rest))
          ]
    ]

majority_calls-once : (m n : ℕ) → 1 ≤ m → majority_calls m n ≡ (if ltb n m then 0 else 1)
unfolding majority_calls
majority_calls-once m zero h = ground arith
majority_calls-once m (suc n) h = ground (arith, majority_calls-once m n h)

-- If at least as many things can be heard as there are sentinels, `Subscribe` returns: `true` exactly
-- if, before the context is done, one of the first results is a notification, counted up to the
-- one that leaves fewer than a majority of sentinels alive. `onMajoritySubscribed` is called once
-- if at least a majority has subscribed, and not at all otherwise.
pub subscribe-in_time :
    (sentinels : List String) (hs : List Heard) (n : ℕ)
    → length sentinels ≤ length hs
    → let m = majority_of sentinels in
      (subscribe sentinels hs ≡ some (any_of (suc (length sentinels) - m) (in_time hs)))
      × (majority_calls m n ≡ (if ltb n m then 0 else 1))
unfolding subscribe
subscribe-in_time sentinels hs n h =
    let m = majority_of sentinels in
    let one : 1 ≤ m = ground arith in
    (subscribe_loop-in_time m (length sentinels) hs one h, majority_calls-once m n one)
