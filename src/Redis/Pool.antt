-- ===== src/Redis/Pool.antt =====
-- The pool of connections, `Pool` of topom/client/redis/client.go. A list of connections has the
-- front first. Whether a connection can be used again depends on the moment, so it is an argument of
-- each operation. What is written into the connection itself is left out.
pub mod Balance
pub mod Conserved
pub mod Filed
use pikamgr.Base.{
  ℕ, String, Bool, true, false, not, ◌||◌, List, [], ◌∷◌, ◌++◌, Option, none, some, Assoc, lookup,
  insert, is_empty, if◌then◌else◌,
}

-- `Client`: its address, and a number that tells connections apart.
pub record Client : Type 0 where
  pub id : ℕ
  pub addr : String

-- `gone` are the connections that the pool has closed.
pub record Pool : Type 0 where
  pub closed : Bool
  pub pool : Assoc (List Client)
  pub gone : List Client

-- `NewPool`
abbrev pub new_pool : Pool
new_pool = record { closed = false; pool = []; gone = [] }

abbrev pub or_nil : Option (List Client) → List Client
or_nil none = []
or_nil (some cs) = cs

-- What is found, what stays in the list, and what is closed on the way.
pub record Found : Type 0 where
  pub client : Option Client
  pub rest : List Client
  pub shut : List Client

unfoldable pub take_first : (Client → Bool) → List Client → Found
take_first recyclable [] = record { client = none; rest = []; shut = [] }
take_first recyclable (c ∷ cs) =
    let more = take_first recyclable cs in
    if recyclable c
    then record { client = some c; rest = cs; shut = [] }
    else record more { shut = c ∷ more.shut }

-- `getClientFromCache`; `none` is `ErrClosedPool`.
unfoldable pub get_client_from_cache :
    (Client → Bool) → String → Pool → Option (Option Client) × Pool
get_client_from_cache recyclable addr p =
    if p.closed then (none, p) else elim (lookup addr p.pool) [
      | none ↦ (some none, p)
      | some cs ↦
          let found = take_first recyclable cs in
          (
            some found.client,
            record p { pool = insert addr found.rest p.pool; gone = found.shut ++ p.gone },
          )
    ]

-- `GetClient`, with what `NewClient` would return.
unfoldable pub get_client : (Client → Bool) → Option Client → String → Pool → Option Client × Pool
get_client recyclable dialled addr p =
    let (r, p') = get_client_from_cache recyclable addr p in
    (elim r [ none ↦ none | some cached ↦ elim cached [ none ↦ dialled | some c ↦ some c ] ], p')

-- `PutClient`
unfoldable pub put_client : (Client → Bool) → Client → Pool → Pool
put_client recyclable c p =
    if not (recyclable c) || p.closed
    then record p { gone = c ∷ p.gone }
    else record p { pool = insert c.addr (c ∷ or_nil (lookup c.addr p.pool)) p.pool }

-- The connections of a list that stay, in their order, and those that are closed.
unfoldable pub kept : (Client → Bool) → List Client → List Client
kept recyclable [] = []
kept recyclable (c ∷ cs) = let rest = kept recyclable cs in if recyclable c then c ∷ rest else rest

unfoldable pub dropped : (Client → Bool) → List Client → List Client
dropped recyclable [] = []
dropped recyclable (c ∷ cs) =
    let rest = dropped recyclable cs in if recyclable c then rest else c ∷ rest

-- The loop of `Cleanup` over the map.
unfoldable pub sweep : (Client → Bool) → Assoc (List Client) → Assoc (List Client)
sweep recyclable [] = []
sweep recyclable ((addr, cs) ∷ m) =
    let rest = sweep recyclable m in
    if is_empty (kept recyclable cs) then rest else (addr, kept recyclable cs) ∷ rest

unfoldable pub swept : (Client → Bool) → Assoc (List Client) → List Client
swept recyclable [] = []
swept recyclable ((addr, cs) ∷ m) = dropped recyclable cs ++ swept recyclable m

-- `Cleanup`; a closed pool is left alone.
unfoldable pub cleanup : (Client → Bool) → Pool → Pool
cleanup recyclable p =
    if p.closed
    then p
    else record p { pool = sweep recyclable p.pool; gone = swept recyclable p.pool ++ p.gone }

unfoldable pub all_clients : Assoc (List Client) → List Client
all_clients [] = []
all_clients ((addr, cs) ∷ m) = cs ++ all_clients m

-- `Close`
unfoldable pub close : Pool → Pool
close p =
    if p.closed then p else record { closed = true; pool = []; gone = all_clients p.pool ++ p.gone }
