-- ===== src/Service/Backends/View.antt =====
-- What haproxy is told of one group.
use mathlib.Core.List.{append_assoc, append-nil}
use pikamgr.Base.{
  ℕ, zero, suc, Bool, true, false, not, ◌&&◌, ◌||◌, ◌==◌, ◌∙◌, if◌then◌else◌, Bool-cases, String,
  List, [], ◌∷◌, ◌++◌, Option, none, some, ◌≡◌, ◌⊎◌, refl, ap, subst, arith, Assoc, lookup,
  lookup-insert, inl, inr,
}
use pikamgr.Base.Int.{ℤ}
use pikamgr.Dao.{Group, GroupServer, GslbBackend, read, serve_state_string, master_of}
use pikamgr.World.{RedisStats}
use pikamgr.Service.Backends.{
  Verdict, skip, broken, serve, with_server, verdict, or_empty, polled_verdict, slave_verdict,
  master_addr, master_link_status, offer, add_server, collect,
}

-- The addresses of the servers that are offered, from a position on, in the order of the group.
unfoldable pub offered : Assoc RedisStats → String → ℕ → List GroupServer → List String
offered stats master i [] = []
offered stats master i (x ∷ xs) =
    let rest = offered stats master (suc i) xs in
    elim (verdict stats master i x.addr) [ skip ↦ rest | broken ↦ rest | serve ↦ x.addr ∷ rest ]

-- A list of servers behind a port; no servers, no entry.
abbrev pub behind : ℤ → List String → Option GslbBackend
behind port [] = none
behind port (a ∷ rest) = some (record { servers = a ∷ rest; port = port })

abbrev extended : ℤ → Option GslbBackend → List String → Option GslbBackend
extended port none more = behind port more
extended port (some b) more = some (record b { servers = b.servers ++ more })

extended-nil : (port : ℤ) (o : Option GslbBackend) → extended port o [] ≡ o
extended-nil port none = refl
extended-nil port (some b) = ap (λ xs. some (record b { servers = xs })) (append-nil b.servers)

extended-with_server :
    (port : ℤ) (o : Option GslbBackend) (a : String) (more : List String)
    → extended port (some (with_server o port a)) more ≡ extended port o (a ∷ more)
extended-with_server port none a more = refl
extended-with_server port (some b) a more =
    ap (λ xs. some (record b { servers = xs })) (append_assoc b.servers (a ∷ []) more)

pub Verdict-cases : (v : Verdict) → (v ≡ skip) ⊎ ((v ≡ broken) ⊎ (v ≡ serve))
Verdict-cases skip = inl refl
Verdict-cases broken = inr (inl refl)
Verdict-cases serve = inr (inr refl)

offered-skip :
    (stats : Assoc RedisStats) (master : String) (i : ℕ) (x : GroupServer) (xs : List GroupServer)
    → verdict stats master i x.addr ≡ skip
    → offered stats master i (x ∷ xs) ≡ offered stats master (suc i) xs
unfolding offered
offered-skip stats master i x xs e = ground arith

offered-serve :
    (stats : Assoc RedisStats) (master : String) (i : ℕ) (x : GroupServer) (xs : List GroupServer)
    → verdict stats master i x.addr ≡ serve
    → offered stats master i (x ∷ xs) ≡ x.addr ∷ offered stats master (suc i) xs
unfolding offered
offered-serve stats master i x xs e = ground arith

offered-nil : (stats : Assoc RedisStats) (master : String) (i : ℕ) → offered stats master i [] ≡ []
unfolding offered
offered-nil stats master i = refl

module _ (stats : Assoc RedisStats) (g : Group) where
  -- The two entries of a view behind which servers stand.
  abbrev Shows : Option GslbBackend → Option GslbBackend → Assoc GslbBackend → Type 0
  Shows r w sg = (lookup "Read" sg ≡ r) × (lookup "Write" sg ≡ w)

  readable-Shows :
      (a : String) (r w : Option GslbBackend) (sg : Assoc GslbBackend)
      → Shows r w sg
      → Shows (some (with_server r g.proxy_read_port a)) w (add_server read g.proxy_read_port a sg)
  unfolding add_server serve_state_string
  readable-Shows a r w sg (p, q) = (rw lookup-insert (rw p refl), rw lookup-insert q)

  slaves-Shows :
      (i : ℕ) (xs : List GroupServer) (r w : Option GslbBackend) (sg out : Assoc GslbBackend)
      → Shows r w sg
      → collect stats g (suc i) xs sg ≡ some out
      → Shows (extended g.proxy_read_port r (offered stats (master_of g.servers) (suc i) xs)) w out
  unfolding collect offer
  slaves-Shows i [] r w sg out h e =
      let same : sg ≡ out = ground arith in
      subst
        (λ x.
          Shows (extended g.proxy_read_port r (offered stats (master_of g.servers) (suc i) [])) w x)
        same (rw (offered-nil, extended-nil) h)
  slaves-Shows i (x ∷ xs) r w sg out h e =
      elim (Verdict-cases (verdict stats (master_of g.servers) (suc i) x.addr)) [
        | inl skipped ↦
            rw (offered-skip stats (master_of g.servers) (suc i) x xs skipped)
              (slaves-Shows (suc i) xs r w sg out h (ground arith))
        | inr (inl refused) ↦ absurd (ground arith)
        | inr (inr served) ↦ rw (offered-serve stats (master_of g.servers) (suc i) x xs served) (
            subst (λ y. Shows y w out) (extended-with_server g.proxy_read_port r x.addr _)
              (slaves-Shows (suc i) xs (some (with_server r g.proxy_read_port x.addr)) w
                (add_server read g.proxy_read_port x.addr sg) out (readable-Shows x.addr r w sg h)
                (ground arith)))
      ]

-- The entries of a group's view, from the servers that are offered behind its first one.
abbrev pub write_view : Group → Verdict → String → Option GslbBackend
write_view g serve addr = some (record { servers = addr ∷ []; port = g.proxy_write_port })
write_view g _ addr = none

first-Shows :
    (stats : Assoc RedisStats) (g : Group) (a : String)
    → Shows stats g (behind g.proxy_read_port (a ∷ [])) (write_view g serve a) (offer g 0 a [])
unfolding offer add_server serve_state_string
first-Shows stats g a = (refl, refl)

-- The loop, by its own verdicts.
pub collect-offered :
    (stats : Assoc RedisStats) (g : Group) (x : GroupServer) (xs : List GroupServer)
    (sg : Assoc GslbBackend)
    → collect stats g 0 (x ∷ xs) [] ≡ some sg
    → (lookup "Read" sg ≡ behind g.proxy_read_port (offered stats (master_of g.servers) 0 (x ∷ xs)))
      × (lookup "Write" sg ≡ write_view g (verdict stats (master_of g.servers) 0 x.addr) x.addr)
unfolding collect offer
collect-offered stats g x xs sg e =
    elim (Verdict-cases (verdict stats (master_of g.servers) 0 x.addr)) [
      | inl skipped ↦
          rw (offered-skip stats (master_of g.servers) 0 x xs skipped)
            (rw skipped (slaves-Shows stats g 0 xs none none [] sg (refl, refl) (ground arith)))
      | inr (inl refused) ↦ absurd (ground arith)
      | inr (inr served) ↦ rw (offered-serve stats (master_of g.servers) 0 x xs served) (
          rw served (
            slaves-Shows stats g 0 xs (behind g.proxy_read_port (x.addr ∷ []))
              (write_view g serve x.addr) (offer g 0 x.addr []) sg (first-Shows stats g x.addr)
              (ground arith)))
    ]

-- Whether a value was found; a missing one has the value "".
abbrev pub is_value : Option String → String → Bool
is_value none v = "" == v
is_value (some x) v = x == v

abbrev pub is_first : ℕ → Bool
is_first zero = true
is_first (suc i) = false

-- Whether the server at a position is fit to be offered: its last poll came in time and without an
-- error, and behind the first server of the group it says that it follows that one and that its
-- link is up.
abbrev pub is_fit_poll : String → ℕ → Option RedisStats → Bool
is_fit_poll first i none = false
is_fit_poll first i (some rs) =
    not rs.failed
    && not rs.timeout
    && (is_first i
        || (is_value (lookup "master_addr" rs.stats) first
            && is_value (lookup "master_link_status" rs.stats) "up"))

abbrev pub is_fit : Assoc RedisStats → String → ℕ → String → Bool
is_fit stats first i addr = is_fit_poll first i (lookup addr stats)

-- The fit servers from a position on, in the order of the group.
unfoldable pub fit_servers : Assoc RedisStats → String → ℕ → List GroupServer → List String
fit_servers stats first i [] = []
fit_servers stats first i (x ∷ xs) =
    let rest = fit_servers stats first (suc i) xs in
    if is_fit stats first i x.addr then x.addr ∷ rest else rest

abbrev is_serve : Verdict → Bool
is_serve serve = true
is_serve _ = false

or_empty-is_value : (o : Option String) (v : String) → (or_empty o == v) ≡ is_value o v
or_empty-is_value none v = refl
or_empty-is_value (some x) v = refl

is_serve-slave :
    (first : String) (rs : RedisStats)
    → is_serve (slave_verdict first rs)
      ≡ ((master_addr rs == first) && (master_link_status rs == "up"))
unfolding slave_verdict
is_serve-slave first rs = elim (Bool-cases (master_addr rs == first)) [
  | inr other ↦ rw (is_serve, other) refl
  | inl follows ↦ elim (Bool-cases (master_link_status rs == "up")) [
    | inr down ↦ rw (is_serve, follows, down) refl
    | inl up ↦ rw (is_serve, follows, up) refl
  ]
]

is_serve-guard :
    (failed timeout : Bool) (v : Verdict)
    → is_serve (if failed || timeout then skip else v) ≡ (not failed && not timeout && is_serve v)
is_serve-guard true t v = refl
is_serve-guard false true v = refl
is_serve-guard false false v = refl

is_serve-polled :
    (first : String) (i : ℕ) (rs : RedisStats)
    → is_serve (polled_verdict first i rs) ≡ is_fit_poll first i (some rs)
unfolding polled_verdict master_addr master_link_status
is_serve-polled first zero rs = is_serve-guard rs.failed rs.timeout serve
is_serve-polled first (suc i) rs =
    is_serve-guard rs.failed rs.timeout (slave_verdict first rs)
    ∙ ap (λ b. not rs.failed && not rs.timeout && b)
        (is_serve-slave first rs ∙ (λ i.
          or_empty-is_value (lookup "master_addr" rs.stats) first i
          && or_empty-is_value (lookup "master_link_status" rs.stats) "up" i))

is_serve-verdict :
    (stats : Assoc RedisStats) (first : String) (i : ℕ) (addr : String)
    → is_serve (verdict stats first i addr) ≡ is_fit stats first i addr
unfolding verdict
is_serve-verdict stats first i addr =
    elim (lookup addr stats)
      as (λ o.
        is_serve (elim o [ none ↦ skip | some rs ↦ polled_verdict first i rs ])
        ≡ is_fit_poll first i o) [ none ↦ refl | some rs ↦ is_serve-polled first i rs ]

offered-fit_servers :
    (stats : Assoc RedisStats) (first : String) (i : ℕ) (xs : List GroupServer)
    → offered stats first i xs ≡ fit_servers stats first i xs
unfolding offered fit_servers
offered-fit_servers stats first i [] = refl
offered-fit_servers stats first i (x ∷ xs) =
    ground
      (arith, is_serve-verdict stats first i x.addr, offered-fit_servers stats first (suc i) xs)

write_view-is_serve :
    (g : Group) (v : Verdict) (a : String)
    → write_view g v a
      ≡ (if is_serve v then some (record { servers = a ∷ []; port = g.proxy_write_port }) else none)
write_view-is_serve g serve a = refl
write_view-is_serve g skip a = refl
write_view-is_serve g broken a = refl

-- The loop over the servers of a group, if it does not leave the group out: the Read entry holds the
-- servers that are fit to be offered, in their order behind the read port, and the Write entry the
-- first server alone behind the write port, if it is fit; an entry without servers is not there. A
-- server is fit if its last poll came in time and without an error and, behind the first one, says
-- that it follows the first one and that its link is up.
pub collect-View :
    (stats : Assoc RedisStats) (g : Group) (x : GroupServer) (xs : List GroupServer)
    (sg : Assoc GslbBackend)
    → collect stats g 0 (x ∷ xs) [] ≡ some sg
    → (lookup "Read" sg
        ≡ behind g.proxy_read_port (fit_servers stats (master_of g.servers) 0 (x ∷ xs)))
      × (lookup "Write" sg ≡ (
          if is_fit stats (master_of g.servers) 0 x.addr
          then some (record { servers = x.addr ∷ []; port = g.proxy_write_port })
          else none))
collect-View stats g x xs sg e =
    let first : String = master_of g.servers in
    let (readable, writable) = collect-offered stats g x xs sg e in
    (
      readable ∙ ap (behind g.proxy_read_port) (offered-fit_servers stats first 0 (x ∷ xs)),
      writable
          ∙ write_view-is_serve g (verdict stats first 0 x.addr) x.addr
          ∙ ap
              (λ b.
                if b
                then some (record { servers = x.addr ∷ []; port = g.proxy_write_port })
                else none)
              (is_serve-verdict stats first 0 x.addr),
    )
