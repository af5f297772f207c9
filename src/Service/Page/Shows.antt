-- ===== src/Service/Page/Shows.antt =====
-- What the page of the statistics shows of the last polls.
use mathlib.Core.List.{Perm}
use pikamgr.Base.{
  String, Bool, true, false, ◌||◌, List, [], ◌∷◌, Option, none, some, ◌≡◌, refl, ap, map, arith,
  eq_iff, Assoc, lookup, lookup-insert, mem_name, values, if◌then◌else◌, ◌==◌, Bool-cases, eq_refl,
  inl, inr, ◌∙◌,
}
use pikamgr.Dao.{Group, Gslb}
use pikamgr.World.{State, RedisStats, GslbStats, SentinelGroup}
use pikamgr.Service.Sort.{sort_groups}
use pikamgr.Service.Sort.Order.{IsLatestFirst, sort_groups-IsLatestFirst}
use pikamgr.Service.Page.{
  RedisStatsModel, GslbStatsModel, redis_shown, gslb_shown, groups_shown, Stats, addresses,
  group_model, note, note_all, note_groups, note_gslbs, stats,
}

-- Whether an address is a server of one of the groups, or of one of the load balancers.
abbrev pub in_groups : String → List Group → Bool
in_groups k [] = false
in_groups k (g ∷ gs) = mem_name k (addresses g.servers) || in_groups k gs

abbrev pub in_gslbs : String → List Gslb → Bool
in_gslbs k [] = false
in_gslbs k (g ∷ gs) = mem_name k g.servers || in_gslbs k gs

module _ {W : Type 0} where
  -- The first value, if there is one.
  abbrev over : Option W → Option W → Option W
  over none b = b
  over (some v) b = some v

  abbrev shown_if : Bool → Option W → Option W → Option W
  shown_if b new old = if b then over new old else old

  -- To note a value twice is to note it once.
  shown_if-twice :
      (b c : Bool) (o page : Option W) → shown_if b o (shown_if c o page) ≡ shown_if (c || b) o page
  shown_if-twice true true none page = refl
  shown_if-twice true true (some v) page = refl
  shown_if-twice true false o page = refl
  shown_if-twice false true o page = refl
  shown_if-twice false false o page = refl

-- The polls behind a page of their models.
module _ {V W : Type 0} (shown : V → W) where
  abbrev model_of : Option V → Option W
  model_of none = none
  model_of (some v) = some (shown v)

  lookup-note :
      (k a : String) (o : Option V) (page : Assoc W)
      → lookup k (note shown a o page) ≡ shown_if (a == k) (model_of o) (lookup k page)
  lookup-note k a none page = ground arith
  lookup-note k a (some v) page = lookup-insert a k (shown v) page

  lookup-note_all :
      (k : String) (polls : Assoc V) (xs : List String) (page : Assoc W)
      → lookup k (note_all shown polls xs page)
        ≡ shown_if (mem_name k xs) (model_of (lookup k polls)) (lookup k page)
  unfolding note_all
  lookup-note_all k polls [] page = refl
  lookup-note_all k polls (a ∷ xs) page =
      lookup-note_all k polls xs (note shown a (lookup a polls) page)
      ∙ ap (shown_if (mem_name k xs) (model_of (lookup k polls)))
          (lookup-note k a (lookup a polls) page)
      ∙ elim (Bool-cases (a == k)) [
        | inl same ↦
            rw ((eq_iff a k).0 same, eq_refl k)
              (shown_if-twice (mem_name k xs) true (model_of (lookup k polls)) (lookup k page))
        | inr differ ↦ rw differ refl
      ]

-- Whichever group notes it last, an address is shown with its last poll.
lookup-note_groups :
    (k : String) (polls : Assoc RedisStats) (gs : List Group) (page : Assoc RedisStatsModel)
    → lookup k (note_groups polls gs page)
      ≡ shown_if (in_groups k gs) (model_of redis_shown (lookup k polls)) (lookup k page)
unfolding note_groups
lookup-note_groups k polls [] page = refl
lookup-note_groups k polls (g ∷ gs) page =
    let new = model_of redis_shown (lookup k polls) in
    lookup-note_groups k polls gs (note_all redis_shown polls (addresses g.servers) page)
    ∙ ap (shown_if (in_groups k gs) new)
        (lookup-note_all redis_shown k polls (addresses g.servers) page)
    ∙ shown_if-twice (in_groups k gs) (mem_name k (addresses g.servers)) new (lookup k page)

lookup-note_gslbs :
    (k : String) (polls : Assoc GslbStats) (gs : List Gslb) (page : Assoc GslbStatsModel)
    → lookup k (note_gslbs polls gs page)
      ≡ shown_if (in_gslbs k gs) (model_of gslb_shown (lookup k polls)) (lookup k page)
unfolding note_gslbs
lookup-note_gslbs k polls [] page = refl
lookup-note_gslbs k polls (g ∷ gs) page =
    let new = model_of gslb_shown (lookup k polls) in
    lookup-note_gslbs k polls gs (note_all gslb_shown polls g.servers page)
    ∙ ap (shown_if (in_gslbs k gs) new) (lookup-note_all gslb_shown k polls g.servers page)
    ∙ shown_if-twice (in_gslbs k gs) (mem_name k g.servers) new (lookup k page)

-- A model that says all of a poll; the groups of a sentinel are a map, of which the order is free.
pub record IsRedisPoll (rs : RedisStats) (p : RedisStatsModel) : Type 0 where
  pub failed : p.failed ≡ rs.failed
  pub stats : p.stats ≡ rs.stats
  pub sentinel : (k : String) → lookup k p.sentinel ≡ lookup k rs.sentinel
  pub unix_time : p.unix_time ≡ rs.unix_time
  pub timeout : p.timeout ≡ rs.timeout

pub record IsGslbPoll (gs : GslbStats) (p : GslbStatsModel) : Type 0 where
  pub failed : p.failed ≡ gs.failed
  pub unix_time : p.unix_time ≡ gs.unix_time
  pub timeout : p.timeout ≡ gs.timeout

lookup-groups_shown :
    (k : String) (m : Assoc SentinelGroup) → lookup k (groups_shown m) ≡ lookup k m
unfolding groups_shown
lookup-groups_shown k [] = refl
lookup-groups_shown k ((j, v) ∷ m) =
    lookup-insert j k v (groups_shown m)
    ∙ ap (λ o. if j == k then some v else o) (lookup-groups_shown k m)

redis_shown-IsRedisPoll : (rs : RedisStats) → IsRedisPoll rs (redis_shown rs)
unfolding redis_shown
redis_shown-IsRedisPoll rs = record {
  failed = refl;
  stats = refl;
  sentinel = λ k. lookup-groups_shown k rs.sentinel;
  unix_time = refl;
  timeout = refl;
}

gslb_shown-IsGslbPoll : (gs : GslbStats) → IsGslbPoll gs (gslb_shown gs)
unfolding gslb_shown
gslb_shown-IsGslbPoll gs = record { failed = refl; unix_time = refl; timeout = refl }

-- What a page shows of an address: the poll, if the address is to be shown and there is a poll,
-- otherwise nothing.
abbrev pub IsEntry : {V W : Type 0} → (V → W → Type 0) → Bool → Option V → Option W → Type 0
IsEntry P b none entry = entry ≡ none
IsEntry P false (some v) entry = entry ≡ none
IsEntry {V} {W} P true (some v) entry = (p : W) × (entry ≡ some p) × P v p

shown_if-IsEntry :
    {V W : Type 0} (P : V → W → Type 0) (shown : V → W)
    → ((v : V) → P v (shown v))
    → (b : Bool) (o : Option V) (entry : Option W) → entry ≡ shown_if b (model_of shown o) none
    → IsEntry P b o entry
shown_if-IsEntry P shown all true none entry e = e
shown_if-IsEntry P shown all false none entry e = e
shown_if-IsEntry P shown all false (some v) entry e = e
shown_if-IsEntry P shown all true (some v) entry e = (shown v, e, all v)

-- What the page says of a state.
pub record IsPageOf (s : State) (page : Stats) : Type 0 where
  pub order : List Group
  pub order_perm : Perm order (values s.groups)
  pub order_latest_first : IsLatestFirst order
  pub models : page.group_models ≡ map group_model order
  pub group_polls :
      (k : String)
      → IsEntry IsRedisPoll
          (in_groups k (values s.groups))
          (lookup k s.stats_servers)
          (lookup k page.group_stats)
  pub sentinel_polls :
      (k : String)
      → IsEntry IsRedisPoll
          (mem_name k s.sentinel.servers)
          (lookup k s.stats_servers)
          (lookup k page.ha_stats)
  pub gslb_polls :
      (k : String)
      → IsEntry IsGslbPoll
          (in_gslbs k (values s.gslbs))
          (lookup k s.stats_gslbs)
          (lookup k page.gslb_stats)

-- The page of the statistics shows every group of the service once, the latest first; and it shows
-- the last poll of an address, whether it failed and came too late, its time, and of a server the
-- fields of INFO and the groups of a sentinel, exactly where the address has been polled and is now a
-- server of some group, a sentinel, or a server of some load balancer: of a server that has left it
-- shows nothing, though its poll is still kept.
pub stats-IsPageOf : (s : State) → IsPageOf s (stats s)
unfolding stats
stats-IsPageOf s =
    let (same, latest) = sort_groups-IsLatestFirst s.groups in
    let redis = shown_if-IsEntry IsRedisPoll redis_shown redis_shown-IsRedisPoll in
    record {
      order = sort_groups s.groups;
      order_perm = same;
      order_latest_first = latest;
      models = refl;
      group_polls = λ k.
          redis (in_groups k (values s.groups)) (lookup k s.stats_servers) _
            (lookup-note_groups k s.stats_servers (values s.groups) []);
      sentinel_polls = λ k.
          redis (mem_name k s.sentinel.servers) (lookup k s.stats_servers) _
            (lookup-note_all redis_shown k s.stats_servers s.sentinel.servers []);
      gslb_polls = λ k.
          shown_if-IsEntry IsGslbPoll gslb_shown gslb_shown-IsGslbPoll (in_gslbs k (values s.gslbs))
            (lookup k s.stats_gslbs) _ (lookup-note_gslbs k s.stats_gslbs (values s.gslbs) []);
    }
