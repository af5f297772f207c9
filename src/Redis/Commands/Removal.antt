-- ===== src/Redis/Commands/Removal.antt =====
-- What a sentinel is sent when groups are to be forgotten.
use pikamgr.Base.{
  String, Bool, true, false, mem_name, ◌∙◌, List, [], ◌∷◌, some, ◌==◌, ◌≡◌, refl, ap, arith, Assoc,
  lookup, insert, lookup-insert, lookup-insert_self, eq_iff, if◌then◌else◌, Bool-cases, inl, inr,
}
use pikamgr.Redis.{Command}
use pikamgr.Redis.Commands.{
  Peer, is_failed, is_found, query, removal, exists_command, pipeline, removals, remove_command,
}

-- A sentinel that loses no command, by the names that it watches after the commands sent, the last of
-- them first: a query is answered by whether the name is watched, and changes nothing; a removal is
-- served if the name is watched, which it then is no more, and concerns no other name.
pub record Serves (peer : Peer) (known : List Command → String → Bool) : Type 0 where
  pub answers : (sent : List Command) (name : String) → is_failed (peer sent (query name)) ≡ false
  pub reports :
      (sent : List Command) (name : String) → is_found (peer sent (query name)) ≡ known sent name
  pub keeps :
      (sent : List Command) (name other : String)
      → known (query name ∷ sent) other ≡ known sent other
  pub serves :
      (sent : List Command) (name : String)
      → known sent name ≡ true
      → is_failed (peer sent (removal name)) ≡ false
  pub forgets :
      (sent : List Command) (name other : String)
      → known sent name ≡ true
      → known (removal name ∷ sent) other ≡ (if name == other then false else known sent other)

-- The commands sent after one query for each name, the last command first.
abbrev pub after_queries : List String → List Command → List Command
after_queries [] sent = sent
after_queries (name ∷ names) sent = after_queries names (query name ∷ sent)

-- The commands sent after one removal for each name that is watched.
abbrev pub after_removals : (String → Bool) → List String → List Command → List Command
after_removals known [] sent = sent
after_removals known (name ∷ names) sent =
    after_removals known names (if known name then removal name ∷ sent else sent)

-- Every name stands once.
abbrev pub AreApart : List String → Type 0
AreApart [] = Unit
AreApart (name ∷ names) = (mem_name name names ≡ false) × AreApart names

module _ (peer : Peer) (known : List Command → String → Bool) (h : Serves peer known) where
  known-queries :
      (names : List String) (sent : List Command) (other : String)
      → known (after_queries names sent) other ≡ known sent other
  known-queries [] sent other = refl
  known-queries (name ∷ names) sent other =
      known-queries names (query name ∷ sent) other ∙ h.keeps sent name other

  abbrev Knows : List Command → Assoc Bool → String → Type 0
  Knows sent exists name = lookup name exists ≡ some (known sent name)

  abbrev KnowsAll : List Command → Assoc Bool → List String → Type 0
  KnowsAll sent exists [] = Unit
  KnowsAll sent exists (name ∷ names) = Knows sent exists name × KnowsAll sent exists names

  Knows-insert :
      (sent : List Command) (name other : String) (exists : Assoc Bool)
      → Knows sent exists other
      → Knows sent (insert name (known sent name) exists) other
  Knows-insert sent name other exists k = elim (Bool-cases (name == other)) [
    | inl same ↦ ground (
      arith,
      lookup-insert name other (known sent name) exists,
      ap (known sent) ((eq_iff name other).0 same),
    )
    | inr differ ↦ ground (arith, lookup-insert name other (known sent name) exists)
  ]

  -- The answers, by what was watched before the first query.
  exists_command-KnowsAll :
      (start : List Command) (names : List String) (exists : Assoc Bool) (sent : List Command)
      → ((other : String) → known sent other ≡ known start other)
      → (result : Assoc Bool) × (exists_command peer names exists sent
          ≡ (some result, after_queries names sent))
        × ((other : String) → Knows start exists other → Knows start result other)
        × KnowsAll start result names
  unfolding exists_command
  exists_command-KnowsAll start [] exists sent same = (exists, refl, λ other k. k, tt)
  exists_command-KnowsAll start (name ∷ names) exists sent same =
      let (result, done, keeps, all) =
        exists_command-KnowsAll start names (insert name (known start name) exists)
          (query name ∷ sent) (λ other. h.keeps sent name other ∙ same other) in
      (
        result,
        ground (arith, h.answers sent name, h.reports sent name, same name, done),
        λ other k. keeps other (Knows-insert start name other exists k),
        (keeps name (lookup-insert_self name (known start name) exists), all),
      )

  -- The removals, of names that are watched as at the start.
  abbrev AsBefore : List Command → List Command → List String → Type 0
  AsBefore start sent [] = Unit
  AsBefore start sent (name ∷ names) =
      (known sent name ≡ known start name) × AsBefore start sent names

  AsBefore-all :
      (start sent : List Command) (names : List String)
      → ((other : String) → known sent other ≡ known start other)
      → AsBefore start sent names
  AsBefore-all start sent [] same = tt
  AsBefore-all start sent (name ∷ names) same = (same name, AsBefore-all start sent names same)

  AsBefore-removal :
      (start sent : List Command) (name : String) (names : List String)
      → known sent name ≡ true
      → mem_name name names ≡ false
      → AsBefore start sent names
      → AsBefore start (removal name ∷ sent) names
  AsBefore-removal start sent name [] k apart same = tt
  AsBefore-removal start sent name (n ∷ names) k apart (here, same) =
      elim (Bool-cases (n == name)) [
        | inl equal ↦ absurd (ground arith)
        | inr differ ↦ (
          ground (arith, h.forgets sent name n k, eq_iff name n, eq_iff n name),
          AsBefore-removal start sent name names k (ground arith) same,
        )
      ]

  pipeline-removals :
      (start : List Command) (names : List String) (exists : Assoc Bool) (sent : List Command)
      → KnowsAll start exists names
      → AreApart names
      → AsBefore start sent names
      → pipeline peer (removals exists names) sent
        ≡ (some tt, after_removals (known start) names sent)
  unfolding pipeline removals
  pipeline-removals start [] exists sent all apart same = refl
  pipeline-removals start (name ∷ names) exists sent (here, all) (once, apart) (at, same) =
      elim (Bool-cases (known start name)) [
        | inl watched ↦
            let k : known sent name ≡ true = at ∙ watched in
            ground (
              arith,
              h.serves sent name k,
              pipeline-removals start names exists (removal name ∷ sent) all apart
                  (AsBefore-removal start sent name names k once same),
            )
        | inr unwatched ↦ ground (arith, pipeline-removals start names exists sent all apart same)
      ]

  -- What is watched after the removals.
  known-removals :
      (start : List Command) (names : List String) (sent : List Command) (other : String)
      → AreApart names
      → AsBefore start sent names
      → known (after_removals (known start) names sent) other
        ≡ (if mem_name other names then false else known sent other)
  known-removals start [] sent other apart same = refl
  known-removals start (name ∷ names) sent other (once, apart) (at, same) =
      elim (Bool-cases (known start name)) [
        | inl watched ↦
            let k : known sent name ≡ true = at ∙ watched in
            ground (
              arith,
              known-removals start names (removal name ∷ sent) other apart
                  (AsBefore-removal start sent name names k once same),
              h.forgets sent name other k,
            )
        | inr unwatched ↦ ground (
          arith,
          known-removals start names sent other apart same,
          ap (known sent) ((eq_iff name other).0 _),
        )
      ]

-- A sentinel that loses no command is asked about each of some different names, and then told to
-- forget exactly those that it watches, in the order given, so that it refuses none; no error is
-- returned, and afterwards it watches none of the names, and of all others what it watched before.
pub remove_command-Serves :
    (peer : Peer) (known : List Command → String → Bool) (names : List String) (sent : List Command)
    → Serves peer known
    → AreApart names
    → (remove_command peer names sent
        ≡ (some tt, after_removals (known sent) names (after_queries names sent)))
      × ((other : String)
          → known (remove_command peer names sent).1 other
            ≡ (if mem_name other names then false else known sent other))
unfolding remove_command
remove_command-Serves peer known names sent h apart =
    let (result, done, _, all) =
      exists_command-KnowsAll peer known h sent names [] sent (λ other. refl) in
    let asked : List Command = after_queries names sent in
    let same = AsBefore-all peer known h sent asked names (known-queries peer known h names sent) in
    let run : remove_command peer names sent ≡ (some tt, after_removals (known sent) names asked) =
      ground (arith, done, pipeline-removals peer known h sent names result asked all apart same) in
    (
      run,
      λ other.
          ap (λ r. known r.1 other) run
          ∙ known-removals peer known h sent names asked other apart same
          ∙ ap (λ b. if mem_name other names then false else b)
              (known-queries peer known h names sent other),
    )
