-- ===== src/Service/Polls/Offered.antt =====
-- What the load balancers may learn from a poll.
use pikamgr.Base.{
  ℕ, zero, suc, String, true, false, List, [], ◌∷◌, Option, none, some, ◌≡◌, ◌⊎◌, inl, inr, refl,
  sym, ◌∙◌, subst, ap, arith, Assoc, lookup, length, ◌==◌, eq_iff, mem_name, Option-cases,
  Bool-cases, if◌then◌else◌,
}
use pikamgr.Base.Int.{ℤ}
use pikamgr.Dao.{Group, GroupServer, GslbBackend, master_of}
use pikamgr.World.{RedisStats, SentinelGroup}
use pikamgr.Service.Backends.{
  serve, slave_verdict, polled_verdict, verdict, collect, master_addr, master_link_status,
}
use pikamgr.Service.Backends.View.{offered, behind, Verdict-cases, collect-offered}
use pikamgr.Service.Polls.{
  Answer, late, failed, answered, new_redis_stats, redis_done, Clock, WaitFor, done_calls,
  refresh_redis_stats,
}

-- The value of the last call of `Done` for a key.
abbrev pub last_done : {A : Type 0} → String → List (String × A) → Option A
last_done k [] = none
last_done k ((j, a) ∷ rest) = elim (last_done k rest) [
  | some b ↦ some b
  | none ↦ if j == k then some a else none
]

-- What `sync2.Future` documents: `Wait` returns a map of what was last done for each key.
pub record IsFutureOf (A : Type 0) (wait : WaitFor A) : Type 0 where
  pub keeps_last :
      (n : ℕ) (calls : List (String × A)) (m : Assoc A) (k : String)
      → wait n calls ≡ some m
      → lookup k m ≡ last_done k calls

-- An answer with the fields of INFO came from an address.
abbrev pub HasAnswered : String → Assoc String → List (String × Answer) → Type 0
HasAnswered addr m [] = ⊥
HasAnswered addr m ((a, r) ∷ rest) =
    ((a ≡ addr) × (p : Assoc SentinelGroup) × (r ≡ answered m p)) ⊎ HasAnswered addr m rest

one-HasAnswered :
    (clock : Clock) (rest : List (String × Answer)) (addr a : String) (r : Answer) (rs : RedisStats)
    → (if a == addr then some (redis_done clock rest r) else none) ≡ some rs
    → rs.failed ≡ false
    → rs.timeout ≡ false
    → (a ≡ addr) × (p : Assoc SentinelGroup) × (r ≡ answered rs.stats p)
unfolding new_redis_stats redis_done
one-HasAnswered clock rest addr a late rs e f t = absurd (ground (arith, eq_iff a addr))
one-HasAnswered clock rest addr a failed rs e f t = absurd (ground (arith, eq_iff a addr))
one-HasAnswered clock rest addr a (answered m p) rs e f t =
    (ground (arith, eq_iff a addr), p, ground (arith, eq_iff a addr))

-- A server that can be offered has answered.
last_done-HasAnswered :
    (clock : Clock) (addr : String) (answers : List (String × Answer)) (rs : RedisStats)
    → last_done addr (done_calls (redis_done clock) answers) ≡ some rs
    → rs.failed ≡ false
    → rs.timeout ≡ false
    → HasAnswered addr rs.stats answers
unfolding new_redis_stats redis_done
last_done-HasAnswered clock addr [] rs e f t = absurd (ground arith)
last_done-HasAnswered clock addr ((a, r) ∷ rest) rs e f t =
    elim (Option-cases (last_done addr (done_calls (redis_done clock) rest))) [
      | inr (b, later) ↦ inr (last_done-HasAnswered clock addr rest rs (ground arith) f t)
      | inl only ↦ inl (one-HasAnswered clock rest addr a r rs (ground arith) f t)
    ]

-- What the fields of an answer say of a server that follows a master.
pub record Follows (master : String) (fields : Assoc String) : Type 0 where
  pub master_is : master_addr (new_redis_stats (answered fields [])) ≡ master
  pub link_is_up : master_link_status (new_redis_stats (answered fields [])) ≡ "up"

polled-Follows :
    (master : String) (i : ℕ) (rs : RedisStats)
    → polled_verdict master i rs ≡ serve
    → (i ≡ 0) ⊎ Follows master rs.stats
unfolding polled_verdict slave_verdict master_addr master_link_status new_redis_stats
polled-Follows master zero rs e = inl refl
polled-Follows master (suc i) rs e = inr (record {
  master_is = ground (arith, eq_iff (master_addr rs) master);
  link_is_up = ground (arith, eq_iff (master_link_status rs) "up", eq_iff (master_addr rs) master);
})

-- An address of which the stored answer lets the loop offer the server.
record IsFresh (answers : List (String × Answer)) (master : String) (i : ℕ) (addr : String)
    : Type 0 where
  pub fields : Assoc String
  pub has_answered : HasAnswered addr fields answers
  pub follows : (i ≡ 0) ⊎ Follows master fields

-- What the answers say of an offered server of a group with the given first server.
abbrev ReadBack : List (String × Answer) → String → String → Type 0
ReadBack answers first addr =
    (fields : Assoc String) × HasAnswered addr fields answers
    × ((addr ≡ first) ⊎ Follows first fields)

module _ (clock : Clock) (answers : List (String × Answer)) (m : Assoc RedisStats)
    (stored : (k : String) → lookup k m ≡ last_done k (done_calls (redis_done clock) answers)) where
  verdict-IsFresh :
      (master : String) (i : ℕ) (addr : String)
      → verdict m master i addr ≡ serve
      → IsFresh answers master i addr
  unfolding verdict polled_verdict
  verdict-IsFresh master i addr e = elim (Option-cases (lookup addr m)) [
    | inl absent ↦ absurd (ground arith)
    | inr (rs, found) ↦ record {
      fields = rs.stats;
      has_answered =
          last_done-HasAnswered clock addr answers rs (sym (stored addr) ∙ found) (ground arith)
            (ground arith);
      follows = polled-Follows master i rs (ground arith);
    }
  ]

  slave-IsFresh :
      (master : String) (i : ℕ) (addr : String)
      → verdict m master (suc i) addr ≡ serve
      → IsFresh answers master 1 addr
  slave-IsFresh master i addr e =
      let r : IsFresh answers master (suc i) addr = verdict-IsFresh master (suc i) addr e in
      record {
        fields = r.fields;
        has_answered = r.has_answered;
        follows = elim r.follows [ inl first ↦ absurd (ground arith) | inr f ↦ inr f ];
      }

  offered-IsFresh :
      (master addr : String) (i : ℕ) (xs : List GroupServer)
      → mem_name addr (offered m master (suc i) xs) ≡ true
      → IsFresh answers master 1 addr
  unfolding offered
  offered-IsFresh master addr i [] e = absurd (ground arith)
  offered-IsFresh master addr i (x ∷ xs) e =
      elim (Verdict-cases (verdict m master (suc i) x.addr)) [
        | inl skipped ↦ offered-IsFresh master addr (suc i) xs (ground arith)
        | inr (inl refused) ↦ offered-IsFresh master addr (suc i) xs (ground arith)
        | inr (inr served) ↦ elim (Bool-cases (x.addr == addr)) [
          | inr other ↦ offered-IsFresh master addr (suc i) xs (ground arith)
          | inl here ↦
              subst (λ a. IsFresh answers master 1 a) ((eq_iff x.addr addr).0 here)
                (slave-IsFresh master i x.addr served)
        ]
      ]

  behind_first : (first addr : String) → IsFresh answers first 1 addr → ReadBack answers first addr
  behind_first first addr r = (
    r.fields,
    r.has_answered,
    elim r.follows [ inl none_ ↦ absurd (ground arith) | inr f ↦ inr f ],
  )

  -- The whole group: the first server, or one behind it.
  group-HasAnswered :
      (x : GroupServer) (xs : List GroupServer) (addr : String)
      → mem_name addr (offered m x.addr 0 (x ∷ xs)) ≡ true
      → ReadBack answers x.addr addr
  unfolding offered
  group-HasAnswered x xs addr e = elim (Verdict-cases (verdict m x.addr 0 x.addr)) [
    | inl skipped ↦ behind_first x.addr addr (offered-IsFresh x.addr addr 0 xs (ground arith))
    | inr (inl refused) ↦ behind_first x.addr addr (offered-IsFresh x.addr addr 0 xs (ground arith))
    | inr (inr served) ↦ elim (Bool-cases (x.addr == addr)) [
      | inr other ↦ behind_first x.addr addr (offered-IsFresh x.addr addr 0 xs (ground arith))
      | inl here ↦
          let p : x.addr ≡ addr = (eq_iff x.addr addr).0 here in
          let r : IsFresh answers x.addr 0 x.addr = verdict-IsFresh x.addr 0 x.addr served in
          (r.fields, subst (λ a. HasAnswered a r.fields answers) p r.has_answered, inl (sym p))
    ]
  ]

behind-mem :
    (port : ℤ) (servers : List String) (b : GslbBackend) (addr : String)
    → behind port servers ≡ some b
    → mem_name addr b.servers ≡ true
    → mem_name addr servers ≡ true
behind-mem port [] b addr e h = absurd (ground arith)
behind-mem port (a ∷ rest) b addr e h = ground arith

-- A round of the polling, and the view of a group that haproxy is given from what it stores: each server
-- behind the read port has answered the round with INFO in time, and is the first of its group, or says
-- that it follows that one and that the link to it is up.
pub collect-answered :
    (wait : WaitFor RedisStats) (clock : Clock) (targets : List String)
    (answers : List (String × Answer)) (m : Assoc RedisStats) (g : Group) (x : GroupServer)
    (xs : List GroupServer) (sg : Assoc GslbBackend) (b : GslbBackend) (addr : String)
    → IsFutureOf RedisStats wait
    → refresh_redis_stats wait clock targets answers ≡ some m
    → g.servers ≡ x ∷ xs
    → collect m g 0 (x ∷ xs) [] ≡ some sg
    → lookup "Read" sg ≡ some b
    → mem_name addr b.servers ≡ true
    → (fields : Assoc String) × HasAnswered addr fields answers
      × ((addr ≡ x.addr) ⊎ Follows x.addr fields)
unfolding refresh_redis_stats master_of
collect-answered wait clock targets answers m g x xs sg b addr future round servers view read_
      member =
    let shown : lookup "Read" sg
        ≡ behind g.proxy_read_port (offered m (master_of g.servers) 0 (x ∷ xs)) =
      (collect-offered m g x xs sg view).0 in
    let first : master_of g.servers ≡ x.addr = ap master_of servers in
    group-HasAnswered clock answers m
      (λ k. future.keeps_last (length targets) (done_calls (redis_done clock) answers) m k round) x
      xs addr
      (behind-mem g.proxy_read_port (offered m x.addr 0 (x ∷ xs)) b addr
        (subst (λ n. behind g.proxy_read_port (offered m n 0 (x ∷ xs)) ≡ some b) first
          (sym shown ∙ read_))
        member)
