-- ===== src/Redis/Commands/Answers.antt =====
-- What a sentinel's reply to `SENTINEL masters` says of the groups: `mastersDispatch` of
-- topom/client/redis/sentinel.go, without its context.
pub mod Own
use pikamgr.Base.{
  ℕ, zero, suc, ◌+◌, ◌-◌, ◌*◌, String, Bool, true, false, ◌||◌, ◌&&◌, [], ◌∷◌, Option, none, some,
  ◌==◌, ◌≡◌, refl, Assoc, lookup, insert, ltb, leb, eqb, if◌then◌else◌, List, codes,
}
use pikamgr.Base.Int.{ℤ, pos, negsuc}
use pikamgr.Redis.HostPort.{join_host_port}
use pikamgr.Redis.Masters.{SentinelMaster}
use pikamgr.Redis.Commands.{Peer, Session, then_do, masters_command}

-- The value of decimal digits behind a number that was read before.
abbrev digits_from : List ℕ → ℕ → Option ℕ
digits_from [] n = some n
digits_from (c ∷ cs) n =
    let rest = digits_from cs (n * 10 + (c - 48)) in if leb 48 c && leb c 57 then rest else none

abbrev digits : List ℕ → Option ℕ
digits [] = none
digits (c ∷ cs) = digits_from (c ∷ cs) 0

-- 2 ^ 63
abbrev limit : ℕ
limit = 9223372036854775808

abbrev signed : Bool → Option ℕ → Option ℤ
signed negative none = none
signed false (some n) = if ltb n limit then some (pos n) else none
signed true (some zero) = some (pos 0)
signed true (some (suc n)) = if ltb n limit then some (negsuc n) else none

-- `strconv.ParseInt(s, 10, 64)`; its errors are not told apart.
unfoldable pub parse_int : List ℕ → Option ℤ
parse_int [] = none
parse_int (c ∷ cs) =
    if eqb c 45
    then signed true (digits cs)
    else if eqb c 43
    then signed false (digits cs)
    else signed false (digits (c ∷ cs))

-- The entry of a missing key is the empty text.
abbrev pub field : String → Assoc String → String
field key p = elim (lookup key p) [ none ↦ "" | some x ↦ x ]

abbrev with_epoch : Assoc String → Option ℤ → Option SentinelMaster
with_epoch p none = none
with_epoch p (some epoch) =
    if field "ip" p == "" || field "port" p == ""
    then none
    else some (record { addr = join_host_port (field "ip" p) (field "port" p); epoch = epoch })

-- One round of the loop; `none` is `continue`.
unfoldable pub master_entry : Assoc String → Option SentinelMaster
master_entry p = with_epoch p (parse_int (codes (field "config-epoch" p)))

abbrev add_entry : String → Option SentinelMaster → Assoc SentinelMaster → Assoc SentinelMaster
add_entry group none masters = masters
add_entry group (some m) masters = insert group m masters

unfoldable pub entries : Assoc (Assoc String) → Assoc SentinelMaster → Assoc SentinelMaster
entries [] masters = masters
entries ((group, p) ∷ rest) masters = entries rest (add_entry group (master_entry p) masters)

unfoldable pub masters_dispatch : Peer → String → Session (Assoc SentinelMaster)
masters_dispatch peer product =
    then_do (masters_command peer product) (λ found sent. (some (entries found []), sent))

-- The range of 64 bits, its ends included.
parse_int_range :
    (parse_int (codes "9223372036854775807") ≡ some (pos 9223372036854775807))
    × (parse_int (codes "9223372036854775808") ≡ none)
    × (parse_int (codes "-9223372036854775808") ≡ some (negsuc 9223372036854775807))
    × (parse_int (codes "-") ≡ none)
    × (parse_int (codes "+12") ≡ some (pos 12))
    × (parse_int (codes "1x") ≡ none)
unfolding parse_int
parse_int_range = (refl, refl, refl, refl, refl, refl)
