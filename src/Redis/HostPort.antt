-- ===== src/Redis/HostPort.antt =====
-- Go's `net.SplitHostPort`, `net.JoinHostPort` and `strconv.Itoa`, which the client and the LVS
-- view use.
use Prim.Native.Char.{Char, code}
use Prim.Native.Nat.{◌%◌}
use Prim.Native.String as Text
use pikamgr.Base.{
  ℕ, zero, suc, ◌/◌, String, Bool, true, false, ◌||◌, Option, none, some, eqb, ltb, if◌then◌else◌,
}
use pikamgr.Base.Int.{ℤ, pos, negsuc}

-- Whether a character occurs: `strings.IndexByte(s, c) >= 0`.
unfoldable pub has : ℕ → String → Bool
has n String.[] = false
has n (String.◌∷◌ c s) = eqb (code c) n || has n s

abbrev prepend : Char → Option (String × String) → Option (String × String)
prepend c none = none
prepend c (some (h, p)) = some (String.◌∷◌ c h, p)

abbrev or_here : Bool → String → Option (String × String) → Option (String × String)
or_here here s (some hp) = some hp
or_here true s none = some (String.[], s)
or_here false s none = none

-- The text before and after the last colon.
unfoldable pub split_last_colon : String → Option (String × String)
split_last_colon String.[] = none
split_last_colon (String.◌∷◌ c s) = or_here (eqb (code c) b':') s (prepend c (split_last_colon s))

-- A host in brackets, its `[` taken off: `]` stands at the end and nowhere else.
unfoldable pub close_bracket : String → Option String
close_bracket String.[] = none
close_bracket (String.◌∷◌ c s) =
    let rest = close_bracket s in
    if eqb (code c) b']'
    then elim s [ String.[] ↦ some String.[] | String.◌∷◌ _ _ ↦ none ]
    else elim rest [ none ↦ none | some h ↦ some (String.◌∷◌ c h) ]

unfoldable pub bracketed : Option String → String → Option (String × String)
unfolding has
bracketed none port = none
bracketed (some host) port =
    if has b'[' host || has b'[' port || has b']' port then none else some (host, port)

unfoldable pub check_host : String → String → Option (String × String)
unfolding has bracketed close_bracket
check_host String.[] port = if has b'[' port || has b']' port then none else some (String.[], port)
check_host (String.◌∷◌ c s) port =
    let host = String.◌∷◌ c s in
    if eqb (code c) b'['
    then bracketed (close_bracket s) port
    else if has b':' host || has b'[' host || has b']' host || has b'[' port || has b']' port
    then none
    else some (host, port)

abbrev check_parts : Option (String × String) → Option (String × String)
check_parts none = none
check_parts (some (host, port)) = check_host host port

-- The errors of `net.SplitHostPort` are not told apart.
unfoldable pub split_host_port : String → Option (String × String)
unfolding split_last_colon check_host
split_host_port s = check_parts (split_last_colon s)

unfoldable pub join_host_port : String → String → String
unfolding has
join_host_port host port =
    if has b':' host
    then Text.◌++◌ "[" (Text.◌++◌ host (Text.◌++◌ "]:" port))
    else Text.◌++◌ host (Text.◌++◌ ":" port)

abbrev digit : ℕ → String
digit zero = "0"
digit (suc zero) = "1"
digit (suc (suc zero)) = "2"
digit (suc (suc (suc zero))) = "3"
digit (suc (suc (suc (suc zero)))) = "4"
digit (suc (suc (suc (suc (suc zero))))) = "5"
digit (suc (suc (suc (suc (suc (suc zero)))))) = "6"
digit (suc (suc (suc (suc (suc (suc (suc zero))))))) = "7"
digit (suc (suc (suc (suc (suc (suc (suc (suc zero)))))))) = "8"
digit (suc (suc (suc (suc (suc (suc (suc (suc (suc n))))))))) = "9"

-- Decimal digits; a number has fewer digits than its own value plus one, which is the fuel.
decimal : ℕ → ℕ → String
decimal zero n = ""
decimal (suc fuel) n =
    let front = decimal fuel (n / 10) in
    if ltb n 10 then digit n else Text.◌++◌ front (digit (n % 10))

unfoldable pub itoa : ℤ → String
unfolding decimal
itoa (pos n) = decimal (suc n) n
itoa (negsuc n) = Text.◌++◌ "-" (decimal (suc (suc n)) (suc n))
