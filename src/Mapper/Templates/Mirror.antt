-- ===== src/Mapper/Templates/Mirror.antt =====
-- A round of `doMonitor` from the directory to the coordinator.
use pikamgr.Base.{
  ℕ, String, true, List, [], ◌∷◌, Option, none, some, Assoc, lookup, insert, lookup-insert, ◌≡◌,
  refl, ap, ◌∙◌, sym, subst, arith, inl, inr, ◌==◌, eq_iff, Bool-cases, Option-cases,
}
use mathlib.Core.Option.{some-injective}
use pikamgr.Coordinate.Paths.{IsBaseName}
use pikamgr.Dao.{TemplateFile}
use pikamgr.World.{World, State, Effect, ok}
use pikamgr.Mapper.Templates.{
  Entry, is_file, match_files, get_match_files, template_file, read_files, sync_files, do_monitor,
}
use pikamgr.Mapper.Templates.Stored.{IsStored, IsFile, IsRead, IsSynced, IsRange}
use pikamgr.Mapper.Templates.Synced.{sync_files-IsSynced, sync_files-served}

-- What `filepath.Glob` finds has base names.
abbrev pub IsNamed : List Entry → Type 0
IsNamed [] = Unit
IsNamed (e ∷ es) = IsBaseName e.name × IsNamed es

match_files-IsBaseName :
    (es : List Entry) (files : Assoc String) (k : String) {path : String}
    → IsNamed es
    → ((p : String) → lookup k files ≡ some p → IsBaseName k)
    → lookup k (match_files es files) ≡ some path
    → IsBaseName k
unfolding match_files
match_files-IsBaseName [] files k {path} h base e = base path e
match_files-IsBaseName (x ∷ es) files k {path} h base e = elim (Bool-cases (is_file x.is_dir)) [
  | inr skipped ↦ match_files-IsBaseName es files k {path = path} h.1 base (ground (arith, skipped))
  | inl taken ↦
      match_files-IsBaseName es (insert x.name x.full_path files) k {path = path} h.1
        (λ p e'. elim (Bool-cases (x.name == k)) [
          | inl same ↦ subst IsBaseName ((eq_iff x.name k).0 same) h.0
          | inr other ↦ base p (ground (arith, lookup-insert x.name k x.full_path files))
        ])
        (ground (arith, taken))
]

abbrev pub with_digest : List ℕ → Option (List ℕ) → Option TemplateFile
with_digest md5_empty none = none
with_digest md5_empty (some c) = some (template_file md5_empty c)

-- What the directory holds under a base name.
abbrev pub content_at : (String → Option (List ℕ)) → Option String → Option (List ℕ)
content_at read none = none
content_at read (some path) = read path

pub read_files-lookup :
    (md5_empty : List ℕ) (read : String → Option (List ℕ)) (files : Assoc String)
    (tfs : Assoc TemplateFile) (k : String)
    → read_files md5_empty read files ≡ some tfs
    → lookup k tfs ≡ with_digest md5_empty (content_at read (lookup k files))
unfolding read_files
read_files-lookup md5_empty read [] tfs k e = ap (lookup k) (some-injective tfs [] (sym e))
read_files-lookup md5_empty read ((n, path) ∷ files) tfs k e = elim (Option-cases (read path)) [
  | inl lost ↦ ground (arith, lost, e)
  | inr (c, r) ↦ elim (Option-cases (read_files md5_empty read files)) [
    | inl lost ↦ ground (arith, r, lost, e)
    | inr (rest, q) ↦
        let built : tfs ≡ (n, template_file md5_empty c) ∷ rest =
          some-injective tfs ((n, template_file md5_empty c) ∷ rest) (ground (arith, r, q, e)) in
        elim (Bool-cases (n == k)) [
          | inl here ↦ ground (arith, built, here, r)
          | inr other ↦
              ground (arith, built, other, read_files-lookup md5_empty read files rest k q)
        ]
  ]
]

pub read_files-IsRead :
    (md5_empty : List ℕ) (read : String → Option (List ℕ)) (files : Assoc String)
    (tfs : Assoc TemplateFile)
    → ((k path : String) → lookup k files ≡ some path → IsBaseName k)
    → read_files md5_empty read files ≡ some tfs
    → IsRead md5_empty tfs
read_files-IsRead md5_empty read files tfs base e = record {
  files = λ k {v} l.
      let found = sym (read_files-lookup md5_empty read files tfs k e) ∙ l in
      elim (Option-cases (lookup k files)) [
        | inl absent ↦ ground (arith, absent, found)
        | inr (path, at) ↦ elim (Option-cases (read path)) [
          | inl lost ↦ ground (arith, at, lost, found)
          | inr (c, r) ↦
              let is : template_file md5_empty c ≡ v =
                some-injective (template_file md5_empty c) v (ground (arith, at, r, found)) in
              subst (IsFile md5_empty k) is (record { base = base k path at; digest = refl })
        ]
      ];
}

module _ (w : World) (md5_empty : List ℕ) (read : String → Option (List ℕ)) where
  -- With what was found and read, `doMonitor` is the synchronisation.
  do_monitor-read :
      (es : List Entry) (tfs : Assoc TemplateFile) (s : State)
      → read_files md5_empty read (match_files es []) ≡ some tfs
      → do_monitor w md5_empty read (some es) s ≡ sync_files w tfs s
  unfolding do_monitor get_match_files
  do_monitor-read es tfs s e = ground (arith, e)

  -- A round of `doMonitor` keeps it true that each file of the cache is stored in the coordinator with
  -- the content that the cache lists, whatever the directory holds, whatever cannot be read and
  -- whichever requests the coordinator refuses, if a range over a map takes its keys and what
  -- `Glob` finds has base names.
  pub do_monitor-IsSynced :
      (es : List Entry) (s : State)
      → IsRange w
      → IsNamed es
      → IsSynced md5_empty s
      → IsSynced md5_empty (do_monitor w md5_empty read (some es) s).1
  unfolding do_monitor get_match_files
  do_monitor-IsSynced es s order named h =
      elim (Option-cases (read_files md5_empty read (match_files es []))) [
        | inl lost ↦
            let stays : (do_monitor w md5_empty read (some es) s).1 ≡ s = ground (arith, lost) in
            subst (IsSynced md5_empty) (sym stays) h
        | inr (tfs, e) ↦
            let base =
              λ (k : String) (path : String) (l : lookup k (match_files es []) ≡ some path).
                match_files-IsBaseName es [] k {path = path} named (λ p e'. ground (arith, e')) l in
            subst (λ r. IsSynced md5_empty r.1) (sym (do_monitor-read es tfs s e))
              (sync_files-IsSynced w md5_empty tfs s order h
                (read_files-IsRead md5_empty read (match_files es []) tfs base e)).1
      ]

  pub do_monitor-mirrors :
      (es : List Entry) (tfs : Assoc TemplateFile) (s : State)
      → IsRange w
      → ((t : List Effect) (e : Effect) → w.reply t e ≡ true)
      → IsNamed es
      → IsSynced md5_empty s
      → read_files md5_empty read (match_files es []) ≡ some tfs
      → let (r, s') = do_monitor w md5_empty read (some es) s in
        (r ≡ ok tt)
        × ((k path : String) (c : List ℕ)
            → lookup k (match_files es []) ≡ some path
            → read path ≡ some c
            → IsStored k (template_file md5_empty c) s')
  do_monitor-mirrors es tfs s order served named h e =
      let files : Assoc String = match_files es [] in
      let run : do_monitor w md5_empty read (some es) s ≡ sync_files w tfs s =
        do_monitor-read es tfs s e in
      let base = λ (k : String) (path : String) (l : lookup k files ≡ some path).
        match_files-IsBaseName es [] k {path = path} named (λ p e'. ground (arith, e')) l in
      let (fine, synced) =
        sync_files-IsSynced w md5_empty tfs s order h
          (read_files-IsRead md5_empty read files tfs base e) in
      (
        ap (λ r. r.0) run ∙ fine,
        λ k path c at r.
            let listed : lookup k (sync_files w tfs s).1.tfs ≡ some (template_file md5_empty c) =
              ground (
                arith,
                sync_files-served w md5_empty tfs s served,
                read_files-lookup md5_empty read files tfs k e,
                at,
                r,
              ) in
            subst (λ x. IsStored k (template_file md5_empty c) x.1) (sym run)
              (synced.stored k listed),
      )
