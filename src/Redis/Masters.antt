-- ===== src/Redis/Masters.antt =====
-- How the answers of the sentinels are counted: `Masters` of topom/client/redis/sentinel.go.
pub mod Best
use pikamgr.Base.{
  ℕ, zero, suc, ◌+◌, ◌/◌, String, Bool, true, List, [], ◌∷◌, Option, none, some, Assoc, lookup,
  insert, length, ltb, if◌then◌else◌,
}
use pikamgr.Base.Int.{ℤ, int_lt}

-- What one sentinel says of one group; the field `Info` is not used here.
pub record SentinelMaster : Type 0 where
  pub addr : String
  pub epoch : ℤ

-- What the loop of `Masters` can receive next: an answer, nil if the sentinel failed, or the end of
-- its context, by the deadline or by `Cancel`.
pub data Event : Type 0 where
  answer : Option (Assoc SentinelMaster) → Event
  deadline cancelled : Event

pub data Outcome : Type 0 where
  found : Assoc String → Outcome
  was_cancelled : Outcome
  lost_majority : ℕ → Outcome

-- `current` and `masters`
pub record Tally : Type 0 where
  pub voted : ℕ
  pub current : Assoc SentinelMaster
  pub masters : Assoc String

abbrev pub no_votes : Tally
no_votes = record { voted = 0; current = []; masters = [] }

-- `current[groupName] == nil || current[groupName].Epoch < master.Epoch`
unfoldable pub is_newer : Option SentinelMaster → SentinelMaster → Bool
is_newer none m = true
is_newer (some c) m = int_lt c.epoch m.epoch

unfoldable pub add_master : String → SentinelMaster → Tally → Tally
unfolding is_newer
add_master k m t =
    if is_newer (lookup k t.current) m
    then record t { current = insert k m t.current; masters = insert k m.addr t.masters }
    else t

unfoldable pub add_answer : Assoc SentinelMaster → Tally → Tally
add_answer [] t = t
add_answer ((k, m) ∷ rest) t = add_answer rest (add_master k m t)

abbrev pub count_vote : Tally → Tally
count_vote t = record t { voted = t.voted + 1 }

-- `voted < majority`
unfoldable pub conclude : ℕ → Tally → Outcome
conclude majority t = if ltb t.voted majority then lost_majority t.voted else found t.masters

-- No sentinel is left to answer.
unfoldable pub finish : ℕ → List Event → Tally → Outcome
finish majority (cancelled ∷ events) t = was_cancelled
finish majority _ t = conclude majority t

-- The loop with `alive` sentinels left. Where the list of events ends, the deadline passes.
unfoldable pub collect : ℕ → ℕ → List Event → Tally → Outcome
collect majority zero events t = finish majority events t
collect majority (suc alive) [] t = conclude majority t
collect majority (suc alive) (deadline ∷ events) t = conclude majority t
collect majority (suc alive) (cancelled ∷ events) t = was_cancelled
collect majority (suc alive) (answer none ∷ events) t = collect majority alive events t
collect majority (suc alive) (answer (some m) ∷ events) t =
    collect majority alive events (count_vote (add_answer m t))

-- `1 + len(sentinels)/2`
abbrev pub majority_of : List String → ℕ
majority_of sentinels = 1 + length sentinels / 2

unfoldable pub masters : List String → List Event → Outcome
masters sentinels events = collect (majority_of sentinels) (length sentinels) events no_votes
