-- ===== src/Mapper/Templates/Monitor.antt =====
-- The template file mapper from its start on.
use mathlib.Core.Option.{some-injective}
use pikamgr.Base.{
  ℕ, String, Bool, true, false, List, [], ◌∷◌, Option, none, some, Assoc, lookup, map, ◌==◌, eq_iff,
  ◌≡◌, refl, ap, sym, ◌∙◌, subst, arith, Bool-cases, Option-cases, inl, inr, contains,
}
use pikamgr.Coordinate.{template_file_path}
use pikamgr.Coordinate.Paths.{IsBaseName}
use pikamgr.Dao.{TemplateFile, file_value}
use pikamgr.World.{World, State, Action, ok, request, make_dir, file_write, modify, ◌>>◌, ◌>>=◌}
use pikamgr.World.Runs.{Result-cases}
use pikamgr.Mapper.Templates.{
  Entry, template_file, get_match_files, read_files, write_missing, unreadable_or, init_files,
  do_monitor,
}
use pikamgr.Mapper.Templates.Stored.{IsSynced, IsRange}
use pikamgr.Mapper.Templates.Mirror.{
  IsNamed, read_files-lookup, read_files-IsRead, do_monitor-IsSynced,
}

-- A round: what can be read, and what `Glob` finds.
pub record Round : Type 0 where
  pub read : String → Option (List ℕ)
  pub found : Option (List Entry)

-- The rounds of `monitor`; an error of a round is only printed.
unfoldable pub monitor : World → List ℕ → List Round → State → State
monitor w md5_empty [] s = s
monitor w md5_empty (r ∷ rs) s = monitor w md5_empty rs (do_monitor w md5_empty r.read r.found s).1

abbrev pub IsFound : Option (List Entry) → Type 0
IsFound none = Unit
IsFound (some es) = IsNamed es

abbrev pub AreNamed : List Round → Type 0
AreNamed [] = Unit
AreNamed (r ∷ rs) = IsFound r.found × AreNamed rs

abbrev named_files : List String → Assoc String
named_files names = map (λ n. (n, n)) names

abbrev pub AreBaseNames : List String → Type 0
AreBaseNames [] = Unit
AreBaseNames (n ∷ ns) = IsBaseName n × AreBaseNames ns

lookup-named_files :
    (names : List String) (k path : String)
    → AreBaseNames names
    → lookup k (named_files names) ≡ some path
    → (path ≡ k) × IsBaseName k
lookup-named_files [] k path h e = absurd (ground arith)
lookup-named_files (n ∷ ns) k path h e = elim (Bool-cases (n == k)) [
  | inr other ↦ lookup-named_files ns k path h.1 (ground (arith, other, e))
  | inl same ↦
      let n_is : n ≡ k = (eq_iff n k).0 same in
      let p_is : n ≡ path = some-injective n path (ground (arith, same, e)) in
      (sym p_is ∙ n_is, subst IsBaseName n_is h.0)
]

-- Writing files touches neither the cache nor the coordinator.
write_missing-store :
    (w : World) (files : Assoc String) (tfs : Assoc TemplateFile) (s : State)
    → ((write_missing w files tfs s).1.store ≡ s.store)
unfolding write_missing request
write_missing-store w files [] s = refl
write_missing-store w files ((name, v) ∷ tfs) s = elim (Bool-cases (contains name files)) [
  | inl there ↦ ground (arith, there, write_missing-store w files tfs s)
  | inr gone ↦ elim (Bool-cases (w.reply s.trace (file_write name v.content))) [
    | inl served ↦ ground (
      arith,
      gone,
      served,
      write_missing-store w files tfs (record s { trace = file_write name v.content ∷ s.trace }),
    )
    | inr lost ↦ ground (arith, gone, lost)
  ]
]

-- What `init` leaves once its reads have succeeded.
init_read-view :
    (w : World) (files : Assoc String) (tfs : Assoc TemplateFile) (s : State)
    → let m = write_missing w files tfs >> modify (λ t. record t { tfs = tfs }) in
      (m s).0 ≡ ok tt → ((m s).1.tfs ≡ tfs) × ((m s).1.store ≡ s.store)
init_read-view w files tfs s h = elim (Result-cases (write_missing w files tfs s).0) [
  | inl (_, done) ↦ (ground (arith, done), ground (arith, done, write_missing-store w files tfs s))
  | inr (x, failed) ↦ absurd (ground (arith, failed, h))
]

abbrev init_body :
    World
    → List ℕ
    → List String
    → (String → Option (List ℕ))
    → Option (List Entry)
    → Action (Unit {0})
init_body w md5_empty names read found = do
  tfs ← unreadable_or (read_files md5_empty read (named_files names))
  files ← unreadable_or (get_match_files found)
  write_missing w files tfs
  modify (λ s. record s { tfs = tfs })

init_body-view :
    (w : World) (md5_empty : List ℕ) (names : List String) (read : String → Option (List ℕ))
    (found : Option (List Entry)) (s : State)
    → (init_body w md5_empty names read found s).0 ≡ ok tt
    → let s' = (init_body w md5_empty names read found s).1 in
      (read_files md5_empty read (named_files names) ≡ some s'.tfs) × (s'.store ≡ s.store)
init_body-view w md5_empty names read found s h =
    elim (Option-cases (read_files md5_empty read (named_files names))) [
      | inl lost ↦ absurd (ground (arith, lost, h))
      | inr (tfs, e) ↦ elim (Option-cases (get_match_files found)) [
        | inl lost ↦ absurd (ground (arith, e, lost, h))
        | inr (files, m) ↦
            let last = write_missing w files tfs >> modify (λ t. record t { tfs = tfs }) in
            let run : init_body w md5_empty names read found s ≡ last s = ground (arith, e, m) in
            let (cached, kept) = init_read-view w files tfs s (sym (ap (λ r. r.0) run) ∙ h) in
            (
              e ∙ ap some (sym cached) ∙ ap (λ r. some r.1.tfs) (sym run),
              ap (λ r. r.1.store) run ∙ kept,
            )
      ]
    ]

init_files-view :
    (w : World) (md5_empty : List ℕ) (is_there : Bool) (names : List String)
    (read : String → Option (List ℕ)) (found : Option (List Entry)) (s : State)
    → (init_files w md5_empty is_there (some names) read found s).0 ≡ ok tt
    → let s' = (init_files w md5_empty is_there (some names) read found s).1 in
      (read_files md5_empty read (named_files names) ≡ some s'.tfs) × (s'.store ≡ s.store)
unfolding init_files request
init_files-view w md5_empty true names read found s h =
    init_body-view w md5_empty names read found s h
init_files-view w md5_empty false names read found s h =
    elim (Bool-cases (w.reply s.trace make_dir)) [
      | inr lost ↦ absurd (ground (arith, lost, h))
      | inl served ↦
          let t : State = record s { trace = make_dir ∷ s.trace } in
          let run : init_files w md5_empty false (some names) read found s
              ≡ init_body w md5_empty names read found t =
            ground (arith, served) in
          let (cached, kept) =
            init_body-view w md5_empty names read found t (sym (ap (λ r. r.0) run) ∙ h) in
          (cached ∙ ap (λ r. some r.1.tfs) (sym run), ap (λ r. r.1.store) run ∙ kept)
    ]

-- `init` leaves a cache that says what the coordinator holds.
init_files-IsSynced :
    (w : World) (md5_empty : List ℕ) (is_there : Bool) (names : List String)
    (read : String → Option (List ℕ)) (found : Option (List Entry)) (s : State)
    → AreBaseNames names
    → ((k : String) (c : List ℕ)
        → read k ≡ some c
        → s.store (template_file_path k) ≡ some (file_value c))
    → (init_files w md5_empty is_there (some names) read found s).0 ≡ ok tt
    → IsSynced md5_empty (init_files w md5_empty is_there (some names) read found s).1
init_files-IsSynced w md5_empty is_there names read found s base reads h =
    let s' : State = (init_files w md5_empty is_there (some names) read found s).1 in
    let (cached, kept) = init_files-view w md5_empty is_there names read found s h in
    let files : Assoc String = named_files names in
    record {
      read =
          read_files-IsRead md5_empty read files s'.tfs
            (λ k path e. (lookup-named_files names k path base e).1) cached;
      stored = λ k {v} e.
          let is_read = sym (read_files-lookup md5_empty read files s'.tfs k cached) ∙ e in
          elim (Option-cases (lookup k files)) [
            | inl absent ↦ absurd (ground (arith, absent, is_read))
            | inr (path, at) ↦ elim (Option-cases (read path)) [
              | inl lost ↦ absurd (ground (arith, at, lost, is_read))
              | inr (c, r) ↦
                  let is : template_file md5_empty c ≡ v =
                    some-injective (template_file md5_empty c) v (ground (arith, at, r, is_read)) in
                  let here : path ≡ k = (lookup-named_files names k path base at).0 in
                  ap (λ st. st (template_file_path k)) kept
                  ∙ reads k c (subst (λ p. read p ≡ some c) here r)
                  ∙ ap (λ x. some (file_value x.content)) is
            ]
          ];
    }

round-IsSynced :
    (w : World) (md5_empty : List ℕ) (read : String → Option (List ℕ)) (found : Option (List Entry))
    (s : State)
    → IsRange w
    → IsFound found
    → IsSynced md5_empty s
    → IsSynced md5_empty (do_monitor w md5_empty read found s).1
unfolding do_monitor get_match_files
round-IsSynced w md5_empty read none s order named h = h
round-IsSynced w md5_empty read (some es) s order named h =
    do_monitor-IsSynced w md5_empty read es s order named h

monitor-IsSynced :
    (w : World) (md5_empty : List ℕ) (rounds : List Round) (s : State)
    → IsRange w
    → AreNamed rounds
    → IsSynced md5_empty s
    → IsSynced md5_empty (monitor w md5_empty rounds s)
unfolding monitor
monitor-IsSynced w md5_empty [] s order named h = h
monitor-IsSynced w md5_empty (r ∷ rs) s order (named, more) h =
    monitor-IsSynced w md5_empty rs (do_monitor w md5_empty r.read r.found s).1 order more
      (round-IsSynced w md5_empty r.read r.found s order named h)

pub init_files-monitor :
    (w : World) (md5_empty : List ℕ) (is_there : Bool) (names : List String)
    (read : String → Option (List ℕ)) (found : Option (List Entry)) (rounds : List Round)
    (s : State)
    → IsRange w
    → AreBaseNames names
    → AreNamed rounds
    → ((k : String) (c : List ℕ)
        → read k ≡ some c
        → s.store (template_file_path k) ≡ some (file_value c))
    → (init_files w md5_empty is_there (some names) read found s).0 ≡ ok tt
    → IsSynced md5_empty
        (monitor w md5_empty rounds (init_files w md5_empty is_there (some names) read found s).1)
init_files-monitor w md5_empty is_there names read found rounds s order base named reads h =
    monitor-IsSynced w md5_empty rounds _ order named
      (init_files-IsSynced w md5_empty is_there names read found s base reads h)
