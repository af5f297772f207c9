-- ===== src/Redis/Masters/Best.antt =====
-- Which masters the count of the answers names.
use pikamgr.Base.{
  ℕ, zero, suc, ◌+◌, String, true, false, List, [], ◌∷◌, none, some, ◌≡◌, refl, ◌⊎◌, inl, inr, sym,
  ◌∙◌, subst, arith, Assoc, lookup, insert, lookup-insert, eq_iff, ◌==◌, length, ltb, Bool-cases,
  Option-cases,
}
use pikamgr.Base.Int.{int_lt, not-int_lt_trans, int_lt-asym, int_lt_irrefl}
use pikamgr.Redis.Masters.{
  SentinelMaster, Event, answer, deadline, cancelled, found, Tally, no_votes, is_newer, add_master,
  add_answer, count_vote, conclude, finish, collect, majority_of, masters,
}

-- What the answers say that are counted, the last first: an answer counts if it comes before the end
-- of the context and while there are sentinels left.
abbrev pub hear : Assoc SentinelMaster → Assoc SentinelMaster → Assoc SentinelMaster
hear [] heard = heard
hear ((k, m) ∷ rest) heard = hear rest ((k, m) ∷ heard)

abbrev pub heard : ℕ → List Event → Assoc SentinelMaster → Assoc SentinelMaster
heard zero events so_far = so_far
heard (suc n) [] so_far = so_far
heard (suc n) (deadline ∷ events) so_far = so_far
heard (suc n) (cancelled ∷ events) so_far = so_far
heard (suc n) (answer none ∷ events) so_far = heard n events so_far
heard (suc n) (answer (some a) ∷ events) so_far = heard n events (hear a so_far)

-- How many answers count.
abbrev pub votes : ℕ → List Event → ℕ
votes zero events = 0
votes (suc n) [] = 0
votes (suc n) (deadline ∷ events) = 0
votes (suc n) (cancelled ∷ events) = 0
votes (suc n) (answer none ∷ events) = votes n events
votes (suc n) (answer (some a) ∷ events) = suc (votes n events)

-- Somebody has named the master for the group.
abbrev pub IsSaid : String → SentinelMaster → Assoc SentinelMaster → Type 0
IsSaid k m [] = ⊥
IsSaid k m ((j, n) ∷ rest) = ((j ≡ k) × (n ≡ m)) ⊎ IsSaid k m rest

-- The tally names, for each group that somebody named, the master with the latest epoch.
record IsTally (said : Assoc SentinelMaster) (t : Tally) : Type 0 where
  named :
      (k : String)
      → lookup k t.masters ≡ elim (lookup k t.current) [ none ↦ none | some m ↦ some m.addr ]
  known : (k : String) (m : SentinelMaster) → lookup k t.current ≡ some m → IsSaid k m said
  latest :
      (k : String) (n : SentinelMaster)
      → IsSaid k n said
      → (m : SentinelMaster) × (lookup k t.current ≡ some m) × (int_lt m.epoch n.epoch ≡ false)

-- A master that is not older than the current one takes its place.
replace-IsTally :
    (k : String) (m : SentinelMaster) (said : Assoc SentinelMaster) (t : Tally)
    → IsTally said t
    → ((n : SentinelMaster) → lookup k t.current ≡ some n → int_lt n.epoch m.epoch ≡ true)
    → IsTally
        ((k, m) ∷ said)
        (record t { current = insert k m t.current; masters = insert k m.addr t.masters })
replace-IsTally k m said t h newer = record {
  named = λ j.
      ground (arith, lookup-insert k j m t.current, lookup-insert k j m.addr t.masters, h.named j);
  known = λ j n e. elim (Bool-cases (k == j)) [
    | inl same ↦ inl ((eq_iff k j).0 same, ground (arith, lookup-insert k j m t.current))
    | inr differ ↦ inr (h.known j n (ground (arith, lookup-insert k j m t.current)))
  ];
  latest = λ j n said_now. elim said_now [
    | inl (here, that) ↦ (
      m,
      ground (arith, lookup-insert k j m t.current, (eq_iff k j).1 here),
      subst (λ x. int_lt m.epoch x.epoch ≡ false) that (int_lt_irrefl m.epoch),
    )
    | inr before ↦ elim (Bool-cases (k == j)) [
      | inr differ ↦
          let (top, at, late) = h.latest j n before in
          (top, ground (arith, lookup-insert k j m t.current, at), late)
      | inl same ↦
          let (top, at, late) = h.latest j n before in
          let at_k : lookup k t.current ≡ some top =
            subst (λ i. lookup i t.current ≡ some top) (sym ((eq_iff k j).0 same)) at in
          (
            m,
            ground (arith, lookup-insert k j m t.current),
            not-int_lt_trans n.epoch top.epoch m.epoch late
                (int_lt-asym top.epoch m.epoch (newer top at_k)),
          )
    ]
  ];
}

-- A master that is no newer than the current one changes nothing.
keep-IsTally :
    (k : String) (m top : SentinelMaster) (said : Assoc SentinelMaster) (t : Tally)
    → IsTally said t
    → lookup k t.current ≡ some top
    → int_lt top.epoch m.epoch ≡ false
    → IsTally ((k, m) ∷ said) t
keep-IsTally k m top said t h at late = record {
  named = h.named;
  known = λ j n e. inr (h.known j n e);
  latest = λ j n said_now. elim said_now [
    | inl (here, that) ↦ (
      top,
      subst (λ i. lookup i t.current ≡ some top) here at,
      subst (λ x. int_lt top.epoch x.epoch ≡ false) that late,
    )
    | inr before ↦ h.latest j n before
  ];
}

add_master-IsTally :
    (k : String) (m : SentinelMaster) (said : Assoc SentinelMaster) (t : Tally)
    → IsTally said t
    → IsTally ((k, m) ∷ said) (add_master k m t)
unfolding add_master is_newer
add_master-IsTally k m said t h = elim (Option-cases (lookup k t.current)) [
  | inl absent ↦ rw absent (replace-IsTally k m said t h (λ n e. absurd (ground arith)))
  | inr (top, at) ↦ elim (Bool-cases (int_lt top.epoch m.epoch)) [
    | inl newer ↦ rw at (rw newer (replace-IsTally k m said t h (λ n e. ground arith)))
    | inr late ↦ rw at (rw late (keep-IsTally k m top said t h at late))
  ]
]

add_answer-IsTally :
    (a said : Assoc SentinelMaster) (t : Tally)
    → IsTally said t
    → IsTally (hear a said) (add_answer a t)
unfolding add_answer
add_answer-IsTally [] said t h = h
add_answer-IsTally ((k, m) ∷ rest) said t h =
    add_answer-IsTally rest ((k, m) ∷ said) (add_master k m t) (add_master-IsTally k m said t h)

count_vote-IsTally :
    (said : Assoc SentinelMaster) (t : Tally) → IsTally said t → IsTally said (count_vote t)
count_vote-IsTally said t h = record { named = h.named; known = h.known; latest = h.latest }

voted-add_master :
    (k : String) (m : SentinelMaster) (t : Tally) → (add_master k m t).voted ≡ t.voted
unfolding add_master
voted-add_master k m t = ground arith

voted-add_answer : (a : Assoc SentinelMaster) (t : Tally) → (add_answer a t).voted ≡ t.voted
unfolding add_answer
voted-add_answer [] t = refl
voted-add_answer ((k, m) ∷ rest) t =
    voted-add_answer rest (add_master k m t) ∙ voted-add_master k m t

-- What a result of the loop stands on.
abbrev Stands : ℕ → ℕ → Assoc String → Assoc SentinelMaster → Type 0
Stands majority voted result said =
    (t : Tally) × IsTally said t × (t.masters ≡ result) × (ltb voted majority ≡ false)

conclude-Stands :
    (majority : ℕ) (t : Tally) (said : Assoc SentinelMaster) (result : Assoc String)
    → IsTally said t
    → conclude majority t ≡ found result
    → Stands majority (t.voted + 0) result said
unfolding conclude
conclude-Stands majority t said result h e = elim (Bool-cases (ltb t.voted majority)) [
  | inl few ↦ absurd (ground arith)
  | inr enough ↦ (t, h, ground arith, ground arith)
]

finish-Stands :
    (majority : ℕ) (events : List Event) (t : Tally) (said : Assoc SentinelMaster)
    (result : Assoc String)
    → IsTally said t
    → finish majority events t ≡ found result
    → Stands majority (t.voted + 0) result said
unfolding finish
finish-Stands majority [] t said result h e = conclude-Stands majority t said result h e
finish-Stands majority (cancelled ∷ events) t said result h e = cc e
finish-Stands majority (deadline ∷ events) t said result h e =
    conclude-Stands majority t said result h e
finish-Stands majority (answer a ∷ events) t said result h e =
    conclude-Stands majority t said result h e

collect-Stands :
    (majority n : ℕ) (events : List Event) (t : Tally) (said : Assoc SentinelMaster)
    (result : Assoc String)
    → IsTally said t
    → collect majority n events t ≡ found result
    → Stands majority (t.voted + votes n events) result (heard n events said)
unfolding collect
collect-Stands majority zero events t said result h e =
    finish-Stands majority events t said result h e
collect-Stands majority (suc n) [] t said result h e = conclude-Stands majority t said result h e
collect-Stands majority (suc n) (deadline ∷ events) t said result h e =
    conclude-Stands majority t said result h e
collect-Stands majority (suc n) (cancelled ∷ events) t said result h e = cc e
collect-Stands majority (suc n) (answer none ∷ events) t said result h e =
    collect-Stands majority n events t said result h e
collect-Stands majority (suc n) (answer (some a) ∷ events) t said result h e =
    let voted : (add_answer a t).voted ≡ t.voted = voted-add_answer a t in
    subst (λ v. Stands majority v result (heard n events (hear a said))) (omega arith)
      (collect-Stands majority n events (count_vote (add_answer a t)) (hear a said) result
        (count_vote-IsTally (hear a said) (add_answer a t) (add_answer-IsTally a said t h)) e)

masters-Stands :
    (sentinels : List String) (events : List Event) (result : Assoc String)
    → masters sentinels events ≡ found result
    → Stands
        (majority_of sentinels)
        (votes (length sentinels) events)
        result
        (heard (length sentinels) events [])
unfolding masters
masters-Stands sentinels events result e =
    let none_said : IsTally [] no_votes = record {
      named = λ k. refl;
      known = λ k m q. absurd (ground arith);
      latest = λ k n said. absurd said;
    } in
    subst (λ v. Stands (majority_of sentinels) v result (heard (length sentinels) events []))
      (omega arith)
      (collect-Stands (majority_of sentinels) (length sentinels) events no_votes [] result none_said
        e)

-- If `Masters` returns masters, then a majority of the sentinels was heard, and each group that one
-- of those named is there, with an address that one of them gave for it at an epoch that no
-- other of them exceeds.
pub masters-newest :
    (sentinels : List String) (events : List Event) (result : Assoc String) (k : String)
    (n : SentinelMaster)
    → masters sentinels events ≡ found result
    → IsSaid k n (heard (length sentinels) events [])
    → (ltb (votes (length sentinels) events) (majority_of sentinels) ≡ false)
      × (top : SentinelMaster) × IsSaid k top (heard (length sentinels) events [])
      × (lookup k result ≡ some top.addr)
      × (int_lt top.epoch n.epoch ≡ false)
masters-newest sentinels events result k n e said =
    let (t, h, same, enough) = masters-Stands sentinels events result e in
    let (top, at, late) = h.latest k n said in
    (enough, top, h.known k top at, ground (arith, h.named k), late)

-- If `Masters` returns masters, then each address that it returns for a group is one that a sentinel
-- heard in time gave for that group.
pub masters-IsSaid :
    (sentinels : List String) (events : List Event) (result : Assoc String) (k addr : String)
    → masters sentinels events ≡ found result
    → lookup k result ≡ some addr
    → (top : SentinelMaster) × IsSaid k top (heard (length sentinels) events []) × (top.addr ≡ addr)
masters-IsSaid sentinels events result k addr e at =
    let (t, h, same, enough) = masters-Stands sentinels events result e in
    elim (Option-cases (lookup k t.current)) [
      | inl absent ↦ absurd (ground (arith, h.named k))
      | inr (top, there) ↦ (top, h.known k top there, ground (arith, h.named k))
    ]
