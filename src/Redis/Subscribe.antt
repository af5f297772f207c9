-- ===== src/Redis/Subscribe.antt =====
-- Waiting for the sentinels: what one of them publishes, and `Subscribe` over all of them, of
-- topom/client/redis/sentinel.go.
pub mod Majority
use Prim.Native.Char.{code}
use Prim.Native.String as Text
use pikamgr.Base.{
  ℕ, zero, suc, ◌-◌, String, Bool, true, false, ◌&&◌, List, [], ◌∷◌, ◌++◌, Option, none, some, ◌==◌,
  eqb, ltb, length, Assoc, lookup, insert, if◌then◌else◌,
}
use pikamgr.Redis.NodeName.{is_same_product}
use pikamgr.Redis.Masters.{majority_of}
use pikamgr.Redis.Commands.{
  Reply, failure, null, other, maps, Peer, Session, then_do, do_command, exists_command, is_there,
}

-- What `Receive` gives: an error, or values of which some are no strings.
pub data Received : Type 0 where
  lost : Received
  values : List (Option String) → Received

-- How the use of a connection goes on.
pub data Outcome : Type 0 where
  -- an error, or the connection was lost
  broken : Outcome
  -- a master of the product was switched
  notified : Outcome
  -- nothing has come yet
  waiting : Outcome

-- `redigo.Strings`
abbrev pub strings : List (Option String) → Option (List String)
strings [] = some []
strings (none ∷ vs) = none
strings (some v ∷ vs) = elim (strings vs) [ none ↦ none | some rest ↦ some (v ∷ rest) ]

-- The first part of `strings.SplitN(text, " ", 2)`, if there are two.
unfoldable pub before_space : String → Option String
before_space String.[] = none
before_space (String.◌∷◌ c s) =
    let rest = before_space s in
    if eqb (code c) 32 then some "" else elim rest [ none ↦ none | some p ↦ some (String.◌∷◌ c p) ]

abbrev pub is_of_product : String → Option String → Bool
is_of_product product none = false
is_of_product product (some name) = elim (is_same_product product name) [
  | none ↦ false
  | some g ↦ true
]

-- Whether the answer confirms the subscription. Of three values the first two must be strings.
unfoldable pub is_confirmed : Received → Bool
is_confirmed (values (some a ∷ some b ∷ c ∷ [])) = a == "subscribe" && b == "+switch-master"
is_confirmed _ = false

-- What follows the channel: the text that names a switch of a master.
unfoldable pub read_switch : String → List String → Outcome
read_switch product (text ∷ []) = elim (before_space text) [
  | none ↦ broken
  | some name ↦ if is_of_product product (some name) then notified else waiting
]
read_switch product _ = broken

-- One message: an error, a switch of a master of the product, or one of no interest.
unfoldable pub read_message : String → Option (List String) → Outcome
unfolding read_switch
read_message product (some (m ∷ channel ∷ rest)) =
    if m == "message"
    then if channel == "+switch-master" then read_switch product rest else waiting
    else broken
read_message product _ = broken

abbrev pub message_of : String → Received → Outcome
message_of product lost = broken
message_of product (values vs) = read_message product (strings vs)

-- The loop over the messages.
unfoldable pub read_messages : String → List Received → Outcome
read_messages product [] = waiting
read_messages product (m ∷ ms) =
    let rest = read_messages product ms in
    elim (message_of product m) [ broken ↦ broken | notified ↦ notified | waiting ↦ rest ]

-- `subscribeCommand`: whether `onSubscribed` is called, and the outcome.
unfoldable pub subscribe_command : String → List Received → Bool × Outcome
subscribe_command product [] = (false, waiting)
subscribe_command product (m ∷ ms) =
    if is_confirmed m then (true, read_messages product ms) else (false, broken)

-- `subscribeDispatch`: without an outcome the context was done first. An error is only printed.
abbrev pub subscribe_dispatch : Option Outcome → Bool
subscribe_dispatch (some notified) = true
subscribe_dispatch _ = false

-- What the loop of `Subscribe` hears: that the context is done, or the result of a sentinel.
pub data Heard : Type 0 where
  done : Heard
  returned : Bool → Heard

-- The loop of `Subscribe`, with the sentinels that are still alive; `none` while it waits.
unfoldable pub subscribe_loop : ℕ → ℕ → List Heard → Option Bool
subscribe_loop majority alive [] = if ltb alive majority then some false else none
subscribe_loop majority alive (done ∷ hs) = some false
subscribe_loop majority alive (returned b ∷ hs) =
    let rest = subscribe_loop majority (alive - 1) hs in
    if ltb alive majority then some false else if b then some true else rest

unfoldable pub subscribe : List String → List Heard → Option Bool
subscribe sentinels hs = subscribe_loop (majority_of sentinels) (length sentinels) hs

-- How often `onMajoritySubscribed` is called when so many sentinels have confirmed.
unfoldable pub majority_calls : ℕ → ℕ → ℕ
majority_calls majority zero = 0
majority_calls majority (suc n) =
    let rest = majority_calls majority n in if eqb (suc n) majority then suc rest else rest

-- The answer to `SENTINEL slaves`.
abbrev pub all_maps : List (Option (Assoc String)) → Option (List (Assoc String))
all_maps [] = some []
all_maps (none ∷ ms) = none
all_maps (some m ∷ ms) = elim (all_maps ms) [ none ↦ none | some rest ↦ some (m ∷ rest) ]

abbrev pub slaves_of : Reply → Option (List (Assoc String))
slaves_of (maps ms) = all_maps ms
slaves_of _ = none

-- The loop of `slavesCommand` over the names.
unfoldable pub slaves_each :
    Peer
    → Assoc Bool
    → List String
    → Assoc (List (Assoc String))
    → Session (Assoc (List (Assoc String)))
slaves_each peer exists [] results sent = (some results, sent)
slaves_each peer exists (name ∷ names) results sent = elim (is_there (lookup name exists)) [
  | false ↦ slaves_each peer exists names results sent
  | true ↦
      then_do (do_command peer ("SENTINEL" ∷ "slaves" ∷ name ∷ []))
        (λ r. λ sent'. elim (slaves_of r) [
          | none ↦ (none, sent')
          | some slaves ↦ slaves_each peer exists names (insert name slaves results) sent'
        ])
        sent
]

unfoldable pub slaves_command : Peer → List String → Session (Assoc (List (Assoc String)))
slaves_command peer names =
    then_do (exists_command peer names []) (λ exists. slaves_each peer exists names [])
