-- ===== src/Tests/Rounds.antt =====
-- A poll of a group of two servers, of which the second follows the first.
use pikamgr.Base.{
  String, false, List, [], ◌∷◌, none, some, ◌≡◌, ◌⊎◌, refl, arith, Assoc, lookup, insert,
  lookup-insert, length, ltb, if◌then◌else◌, Option-cases, inl, inr, ◌∙◌,
}
use pikamgr.Base.Int.{pos}
use pikamgr.Dao.{GslbBackend, master_of}
use pikamgr.World.{RedisStats}
use pikamgr.Service.Backends.{collect}
use pikamgr.Service.Polls.{Answer, answered, WaitFor, refresh_redis_stats}
use pikamgr.Service.Polls.Offered.{last_done, IsFutureOf, HasAnswered, Follows, collect-answered}
use pikamgr.Tests.{interrupted}

-- A future that waits for as many calls as were announced.
abbrev gathered : {A : Type 0} → Assoc A → List (String × A) → Assoc A
gathered m [] = m
gathered m ((k, a) ∷ rest) = gathered (insert k a m) rest

abbrev waiting : WaitFor RedisStats
waiting n calls = if ltb (length calls) n then none else some (gathered [] calls)

lookup-gathered :
    {A : Type 0} (k : String) (m : Assoc A) (calls : List (String × A))
    → lookup k (gathered m calls)
      ≡ (elim (last_done k calls) [ some b ↦ some b | none ↦ lookup k m ])
lookup-gathered k m [] = refl
lookup-gathered k m ((j, a) ∷ rest) =
    lookup-gathered k (insert j a m) rest ∙ elim (Option-cases (last_done k rest)) [
      | inl e ↦ ground (arith, e, lookup-insert j k a m)
      | inr (b, e) ↦ ground (arith, e)
    ]

waiting-IsFutureOf : IsFutureOf RedisStats waiting
waiting-IsFutureOf = record {
  keeps_last = λ n calls m k e. elim (Option-cases (last_done k calls)) [
    | inl gone ↦ ground (arith, lookup-gathered k [] calls, gone, e)
    | inr (b, kept) ↦ ground (arith, lookup-gathered k [] calls, kept, e)
  ];
}

abbrev answers : List (String × Answer)
answers =
    ("s2:6379", answered (("master_addr", "s1:6379") ∷ ("master_link_status", "up") ∷ []) [])
    ∷ ("s1:6379", answered [] [])
    ∷ []

abbrev stored : Assoc RedisStats
stored =
    (
      "s2:6379",
      record {
        failed = false;
        stats = ("master_addr", "s1:6379") ∷ ("master_link_status", "up") ∷ [];
        sentinel = [];
        unix_time = pos 0;
        timeout = false;
      },
    )
    ∷ (
      "s1:6379",
      record { failed = false; stats = []; sentinel = []; unix_time = pos 0; timeout = false },
    )
    ∷ []

abbrev readable : GslbBackend
readable = record { servers = "s1:6379" ∷ "s2:6379" ∷ []; port = pos 9001 }

abbrev writable : GslbBackend
writable = record { servers = "s1:6379" ∷ []; port = pos 9002 }

round-stored :
    refresh_redis_stats waiting (λ rest. pos 0) ("s1:6379" ∷ "s2:6379" ∷ []) answers ≡ some stored
unfolding refresh_redis_stats pikamgr.Service.Polls.new_redis_stats pikamgr.Service.Polls.redis_done
round-stored = refl

view-shown :
    collect stored interrupted 0 interrupted.servers []
    ≡ some (("Read", readable) ∷ ("Write", writable) ∷ [])
unfolding collect master_of
view-shown = refl

collect-answered_example :
    (fields : Assoc String) × HasAnswered "s2:6379" fields answers
    × ((◌≡◌ {A = String} "s2:6379" "s1:6379") ⊎ Follows "s1:6379" fields)
collect-answered_example =
    collect-answered waiting (λ rest. pos 0) ("s1:6379" ∷ "s2:6379" ∷ []) answers stored interrupted
      (record { addr = "s1:6379" }) (record { addr = "s2:6379" } ∷ [])
      (("Read", readable) ∷ ("Write", writable) ∷ []) readable "s2:6379" waiting-IsFutureOf
      round-stored refl view-shown refl refl
