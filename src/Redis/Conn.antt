-- ===== src/Redis/Conn.antt =====
-- One connection to a redis server: `Client` of topom/client/redis/client.go with the commands that
-- only use it. The connection of redigo is another project's: it is a parameter, with times in
-- nanoseconds of one clock.
pub mod Step
use pikamgr.Base.{
  ℕ, suc, ◌+◌, ◌-◌, String, Bool, true, false, not, ◌&&◌, List, [], ◌∷◌, Option, none, some, ◌==◌,
  eqb, leb, if◌then◌else◌,
}
use pikamgr.Base.Int.{ℤ, pos, int_eq}

abbrev pub Command : Type 0
Command = String × List String

-- `redigo.Conn`: the results of its methods, `none` and `false` for an error, and `Err() != nil`;
-- whether a value is a `redigo.Error`.
pub record Redigo (S V : Type 0) : Type 0 where
  pub run : Command → S → Option V × S
  pub send : Command → S → Bool × S
  pub flush : S → Bool × S
  pub receive : S → Option V × S
  pub close : S → S
  pub is_broken : S → Bool
  pub is_error : V → Bool

pub record Client (S : Type 0) : Type 0 where
  pub conn : S
  pub database : ℤ
  pub last_use : ℕ
  pub timeout : ℕ
  -- `Pipeline.Send` and `Pipeline.Recv`
  pub sent : ℕ
  pub received : ℕ

abbrev Method : Type 0 → Type 0 → Type 0
Method S A = Client S → A × Client S

module _ {S V : Type 0} (redigo : Redigo S V) (now : ℕ) where
  -- The client behind a successful dial.
  unfoldable pub new_client : ℕ → S → Client S
  new_client timeout s = record {
    conn = s;
    database = pos 0;
    last_use = now;
    timeout = timeout;
    sent = 0;
    received = 0;
  }

  unfoldable pub close : Client S → Client S
  close c = record c { conn = redigo.close c.conn }

  unfoldable pub is_recyclable : Client S → Bool
  is_recyclable c =
      if redigo.is_broken c.conn
      then false
      else if not (eqb c.sent c.received)
      then false
      else if not (eqb c.timeout 0) && leb c.timeout (now - c.last_use)
      then false
      else true

  abbrev pub value : V → Option V
  value v = if redigo.is_error v then none else some v

  abbrev pub of_run : Client S → Option V × S → Option V × Client S
  of_run c (none, s) = (none, record c { conn = redigo.close s })
  of_run c (some v, s) = (value v, record c { conn = s; last_use = now })

  -- `Do`
  unfoldable pub run : Command → Method S (Option V)
  run cmd c = of_run c (redigo.run cmd c.conn)

  abbrev pub of_send : Client S → Bool × S → Bool × Client S
  of_send c (false, s) = (false, record c { conn = redigo.close s })
  of_send c (true, s) = (true, record c { conn = s; sent = suc c.sent })

  unfoldable pub send : Command → Method S Bool
  send cmd c = of_send c (redigo.send cmd c.conn)

  abbrev pub of_flush : Client S → Bool × S → Bool × Client S
  of_flush c (false, s) = (false, record c { conn = redigo.close s })
  of_flush c (true, s) = (true, record c { conn = s })

  unfoldable pub flush : Method S Bool
  flush c = of_flush c (redigo.flush c.conn)

  abbrev pub of_receive : Client S → Option V × S → Option V × Client S
  of_receive c (none, s) = (none, record c { conn = redigo.close s })
  of_receive c (some v, s) =
      (value v, record c { conn = s; received = suc c.received; last_use = now })

  unfoldable pub receive : Method S (Option V)
  receive c = of_receive c (redigo.receive c.conn)

  -- A command of which an error closes the client.
  abbrev pub or_close : (Client S → Client S) → Option V × Client S → Bool × Client S
  or_close done (none, c) = (false, close c)
  or_close done (some v, c) = (true, done c)

  -- `Select`, with the text of the number.
  unfoldable pub select : ℤ → String → Method S Bool
  unfolding run
  select database text c =
      if int_eq c.database database
      then (true, c)
      else or_close (λ c'. record c' { database = database }) (run ("SELECT", text ∷ []) c)

  unfoldable pub shutdown : Method S Bool
  unfolding run
  shutdown c = or_close (λ c'. c') (run ("SHUTDOWN", []) c)
