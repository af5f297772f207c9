-- ===== src/Redis/Info/Cached.antt =====
-- One answer of each server is kept.
use pikamgr.Base.{
  List, [], ◌∷◌, Option, some, ◌≡◌, refl, arith, if◌then◌else◌, Option-cases, inl, inr,
}
use pikamgr.Coordinate.{segment_eq}
use pikamgr.Coordinate.Plain.{segment_eq_iff}
use pikamgr.Redis.Info.{Text, Fields, Cache, load, put, store, get, get_run_id}

load-put :
    (a b : Text) (f : Fields) (s : Cache)
    → load b (put a f s) ≡ (if segment_eq a b then some f else load b s)
unfolding load
load-put a b f [] = refl
load-put a b f ((i, g) ∷ s) =
    ground (arith, segment_eq_iff a b, segment_eq_iff i a, segment_eq_iff i b, load-put a b f s)

-- What `Get` has returned is kept, and what was kept before stays.
load-get :
    (a : Text) (found : Option Fields) (s : Cache)
    → load a (get a found s).1 ≡ some (get a found s).0
unfolding get store
load-get a found s = elim (Option-cases (load a s)) [
  | inr (f, e) ↦ ground (arith, e)
  | inl absent ↦ elim (Option-cases found) [
    | inr (f, e) ↦ ground (arith, absent, e, load-put a a f s, (segment_eq_iff a a).1 refl)
    | inl lost ↦ ground (arith, absent, lost, load-put a a [] s, (segment_eq_iff a a).1 refl)
  ]
]

get-load :
    (a b : Text) (found : Option Fields) (s : Cache) (f : Fields)
    → load b s ≡ some f
    → load b (get a found s).1 ≡ some f
unfolding get store
get-load a b found s f kept = elim (Option-cases (load a s)) [
  | inr (g, e) ↦ ground (arith, e, kept)
  | inl absent ↦ elim (Option-cases found) [
    | inr (g, e) ↦ ground (arith, absent, e, kept, load-put a b g s, segment_eq_iff a b)
    | inl lost ↦ ground (arith, absent, lost, kept, load-put a b [] s, segment_eq_iff a b)
  ]
]

-- Some calls of `Get`, each with what the server would answer at that time.
unfoldable pub get_each : List (Text × Option Fields) → Cache → Cache
get_each [] s = s
get_each ((a, found) ∷ gets) s = get_each gets (get a found s).1

get_each-load :
    (gets : List (Text × Option Fields)) (b : Text) (s : Cache) (f : Fields)
    → load b s ≡ some f
    → load b (get_each gets s) ≡ some f
unfolding get_each
get_each-load [] b s f kept = kept
get_each-load ((a, found) ∷ gets) b s f kept =
    get_each-load gets b (get a found s).1 f (get-load a b found s f kept)

get-kept :
    (a : Text) (found : Option Fields) (s : Cache) (f : Fields)
    → load a s ≡ some f
    → get a found s ≡ (f, s)
unfolding get
get-kept a found s f e = ground (arith, e)

-- The first answer of a server holds for the whole life of the cache: whatever it would answer
-- later, and whichever servers are asked in between, `GetRunId` returns what it has returned
-- first, also when that first time the server could not be reached.
get_run_id-again :
    (a : Text) (first later : Option Fields) (gets : List (Text × Option Fields)) (s : Cache)
    → let (r, s') = get_run_id a first s in (get_run_id a later (get_each gets s')).0 ≡ r
unfolding get_run_id
get_run_id-again a first later gets s =
    let f : Fields = (get a first s).0 in
    let s' : Cache = (get a first s).1 in
    ground (
      arith,
      get-kept a later (get_each gets s') f (get_each-load gets a s' f (load-get a first s)),
    )
