-- ===== src/Redis/Conn/Step.antt =====
-- What a connection that can go back to the pool owes: nothing.
use pikamgr.Base.{
  ℕ, suc, ◌+◌, ◌-◌, ◌≤◌, ◌<◌, String, true, List, [], ◌∷◌, Option, none, some, ◌≡◌, ◌⊎◌, inl, inr,
  arith, Bool-cases, Option-cases,
}
use pikamgr.Base.Int.{ℤ, int_eq}
use pikamgr.Redis.Conn.{
  Command, Redigo, Client, new_client, close, or_close, is_recyclable, run, send, flush, receive,
  select, shutdown,
}

-- What redigo documents, by the number of replies that are still to come: a connection that was closed
-- is not usable, and one that is not usable stays so (`Err`); a command that was sent owes one reply
-- more, a reply that was received one less; `Do` reads all replies that are still to come before
-- its own. What is not usable may still take a command into its buffer or return a reply from it.
pub record Owes {S V : Type 0} (redigo : Redigo S V) (pending : S → ℕ) : Type 0 where
  pub closes : (s : S) → redigo.is_broken (redigo.close s) ≡ true
  pub run_stays :
      (cmd : Command) (s : S)
      → redigo.is_broken s ≡ true
      → redigo.is_broken (redigo.run cmd s).1 ≡ true
  pub send_stays :
      (cmd : Command) (s : S)
      → redigo.is_broken s ≡ true
      → redigo.is_broken (redigo.send cmd s).1 ≡ true
  pub flush_stays : (s : S) → redigo.is_broken s ≡ true → redigo.is_broken (redigo.flush s).1 ≡ true
  pub receive_stays :
      (s : S) → redigo.is_broken s ≡ true → redigo.is_broken (redigo.receive s).1 ≡ true
  pub runs :
      (cmd : Command) (s : S) (v : V)
      → (redigo.run cmd s).0 ≡ some v
      → pending (redigo.run cmd s).1 ≡ 0
  pub sends :
      (cmd : Command) (s : S)
      → (redigo.send cmd s).0 ≡ true
      → pending (redigo.send cmd s).1 ≡ suc (pending s)
  pub flushes : (s : S) → (redigo.flush s).0 ≡ true → pending (redigo.flush s).1 ≡ pending s
  pub receives :
      (s : S) (v : V) → (redigo.receive s).0 ≡ some v → pending (redigo.receive s).1 ≡ pending s - 1

-- A use of a client at a time.
pub data Use : Type 0 where
  run_use send_use : ℕ → Command → Use
  flush_use receive_use : ℕ → Use
  select_use : ℕ → ℤ → String → Use
  shutdown_use : ℕ → Use
  close_use : Use

module _ {S V : Type 0} (redigo : Redigo S V) where
  unfoldable pub use_client : Use → Client S → Client S
  use_client (run_use now cmd) c = (run redigo now cmd c).1
  use_client (send_use now cmd) c = (send redigo now cmd c).1
  use_client (flush_use now) c = (flush redigo now c).1
  use_client (receive_use now) c = (receive redigo now c).1
  use_client (select_use now database text) c = (select redigo now database text c).1
  use_client (shutdown_use now) c = (shutdown redigo now c).1
  use_client close_use c = close redigo 0 c

  unfoldable pub use_all : List Use → Client S → Client S
  use_all [] c = c
  use_all (u ∷ us) c = use_all us (use_client u c)

-- Nothing is received that was not asked for.
abbrev pub IsAskedFor : {S : Type 0} → Use → Client S → Type 0
IsAskedFor (receive_use now) c = c.received < c.sent
IsAskedFor _ c = Unit

module _ {S V : Type 0} (redigo : Redigo S V) where
  abbrev pub AreAskedFor : List Use → Client S → Type 0
  AreAskedFor [] c = Unit
  AreAskedFor (u ∷ us) c = IsAskedFor u c × AreAskedFor us (use_client redigo u c)

module _ {S V : Type 0} (redigo : Redigo S V) (pending : S → ℕ) (owes : Owes redigo pending) where
  -- A client is broken, or no more replies are to come than it knows of.
  abbrev IsInStep : Client S → Type 0
  IsInStep c = (redigo.is_broken c.conn ≡ true) ⊎ (pending c.conn + c.received ≤ c.sent)

  run-IsInStep :
      (now : ℕ) (cmd : Command) (c : Client S) → IsInStep c → IsInStep (run redigo now cmd c).1
  unfolding run
  run-IsInStep now cmd c h = elim (Option-cases (redigo.run cmd c.conn).0) [
    | inl bad ↦ inl (ground (arith, bad, owes.closes (redigo.run cmd c.conn).1))
    | inr (v, good) ↦ elim h [
      | inl broken ↦ inl (ground (arith, good, owes.run_stays cmd c.conn broken))
      | inr step ↦ inr (ground (arith, good, step, owes.runs cmd c.conn v good))
    ]
  ]

  send-IsInStep :
      (now : ℕ) (cmd : Command) (c : Client S) → IsInStep c → IsInStep (send redigo now cmd c).1
  unfolding send
  send-IsInStep now cmd c h = elim (Bool-cases (redigo.send cmd c.conn).0) [
    | inr bad ↦ inl (ground (arith, bad, owes.closes (redigo.send cmd c.conn).1))
    | inl good ↦ elim h [
      | inl broken ↦ inl (ground (arith, good, owes.send_stays cmd c.conn broken))
      | inr step ↦ inr (ground (arith, good, step, owes.sends cmd c.conn good))
    ]
  ]

  flush-IsInStep : (now : ℕ) (c : Client S) → IsInStep c → IsInStep (flush redigo now c).1
  unfolding flush
  flush-IsInStep now c h = elim (Bool-cases (redigo.flush c.conn).0) [
    | inr bad ↦ inl (ground (arith, bad, owes.closes (redigo.flush c.conn).1))
    | inl good ↦ elim h [
      | inl broken ↦ inl (ground (arith, good, owes.flush_stays c.conn broken))
      | inr step ↦ inr (ground (arith, good, step, owes.flushes c.conn good))
    ]
  ]

  receive-IsInStep :
      (now : ℕ) (c : Client S)
      → c.received < c.sent
      → IsInStep c
      → IsInStep (receive redigo now c).1
  unfolding receive
  receive-IsInStep now c asked h = elim (Option-cases (redigo.receive c.conn).0) [
    | inl bad ↦ inl (ground (arith, bad, owes.closes (redigo.receive c.conn).1))
    | inr (v, good) ↦ elim h [
      | inl broken ↦ inl (ground (arith, good, owes.receive_stays c.conn broken))
      | inr step ↦ inr (ground (arith, good, step, asked, owes.receives c.conn v good))
    ]
  ]

  close-IsInStep : (now : ℕ) (c : Client S) → IsInStep (close redigo now c)
  unfolding close
  close-IsInStep now c = inl (owes.closes c.conn)

  or_close-IsInStep :
      (now : ℕ) (done : Client S → Client S) (p : Option V × Client S)
      → ((c : Client S) → IsInStep c → IsInStep (done c))
      → IsInStep p.1
      → IsInStep (or_close redigo now done p).1
  or_close-IsInStep now done (none, c) k h = close-IsInStep now c
  or_close-IsInStep now done (some v, c) k h = k c h

  select-IsInStep :
      (now : ℕ) (database : ℤ) (text : String) (c : Client S)
      → IsInStep c
      → IsInStep (select redigo now database text c).1
  unfolding select
  select-IsInStep now database text c h = elim (Bool-cases (int_eq c.database database)) [
    | inl same ↦ rw same h
    | inr other ↦ rw other (
        or_close-IsInStep now (λ c'. record c' { database = database })
          (run redigo now ("SELECT", text ∷ []) c) (λ c' k. k)
          (run-IsInStep now ("SELECT", text ∷ []) c h))
  ]

  shutdown-IsInStep : (now : ℕ) (c : Client S) → IsInStep c → IsInStep (shutdown redigo now c).1
  unfolding shutdown
  shutdown-IsInStep now c h =
      or_close-IsInStep now (λ c'. c') (run redigo now ("SHUTDOWN", []) c) (λ c' k. k)
        (run-IsInStep now ("SHUTDOWN", []) c h)

  use-IsInStep :
      (u : Use) (c : Client S) → IsAskedFor u c → IsInStep c → IsInStep (use_client redigo u c)
  unfolding use_client
  use-IsInStep (run_use now cmd) c a h = run-IsInStep now cmd c h
  use-IsInStep (send_use now cmd) c a h = send-IsInStep now cmd c h
  use-IsInStep (flush_use now) c a h = flush-IsInStep now c h
  use-IsInStep (receive_use now) c a h = receive-IsInStep now c a h
  use-IsInStep (select_use now database text) c a h = select-IsInStep now database text c h
  use-IsInStep (shutdown_use now) c a h = shutdown-IsInStep now c h
  use-IsInStep close_use c a h = close-IsInStep 0 c

  use_all-IsInStep :
      (us : List Use) (c : Client S)
      → AreAskedFor redigo us c
      → IsInStep c
      → IsInStep (use_all redigo us c)
  unfolding use_all
  use_all-IsInStep [] c a h = h
  use_all-IsInStep (u ∷ us) c a h =
      use_all-IsInStep us (use_client redigo u c) a.1 (use-IsInStep u c a.0 h)

-- On a redigo that does what it documents: after any uses of a new client that receive no more than
-- they have sent, failed ones included, a client that may go back to the pool has no reply that is
-- still to come, so the next one who takes it reads the replies of its own commands.
pub is_recyclable-pending :
    {S V : Type 0} (redigo : Redigo S V) (pending : S → ℕ) (us : List Use) (born timeout now : ℕ)
    (s : S)
    → Owes redigo pending
    → pending s ≡ 0
    → AreAskedFor redigo us (new_client redigo born timeout s)
    → is_recyclable redigo now (use_all redigo us (new_client redigo born timeout s)) ≡ true
    → pending (use_all redigo us (new_client redigo born timeout s)).conn ≡ 0
unfolding is_recyclable new_client
is_recyclable-pending redigo pending us born timeout now s owes fresh asked ok =
    let c : Client _ = use_all redigo us (new_client redigo born timeout s) in
    elim (use_all-IsInStep redigo pending owes us (new_client redigo born timeout s) asked
      (inr (omega (arith, fresh)))) [
        | inl broken ↦ absurd (ground (arith, broken, ok))
        | inr step ↦ ground (arith, step, ok)
      ]
