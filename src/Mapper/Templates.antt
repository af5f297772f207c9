-- ===== src/Mapper/Templates.antt =====
-- The template files, topom/dao/mapper/template_file_mapper.go: a directory whose files are copied
-- to the coordinator, and loaded from there at the start.
pub mod Digest
pub mod Mirror
pub mod Monitor
pub mod Rounds
pub mod Stored
pub mod Synced
use pikamgr.Base.{
  ℕ, String, Bool, true, false, not, List, [], ◌∷◌, ◌++◌, Option, none, some, Assoc, lookup, insert,
  erase, keys, contains, if◌then◌else◌,
}
use pikamgr.Coordinate.{template_file_path}
use pikamgr.Dao.{TemplateFile, file_value}
use pikamgr.World.{
  World, State, Action, Result, ok, err, files_unreadable, make_dir, file_write, request,
  client_update, client_delete, gets, pure, attempt, or_raise, when, modify, ◌>>=◌, ◌>>◌,
}

-- One path that `filepath.Glob` finds: its path, its base name, and whether it is a directory,
-- unless `Lstat` fails.
pub record Entry : Type 0 where
  pub full_path : String
  pub name : String
  pub is_dir : Option Bool

abbrev pub is_file : Option Bool → Bool
is_file none = false
is_file (some b) = not b

-- The loop of `getMatchFiles`: the paths by base name.
unfoldable pub match_files : List Entry → Assoc String → Assoc String
match_files [] files = files
match_files (e ∷ es) files =
    match_files es (if is_file e.is_dir then insert e.name e.full_path files else files)

-- `getMatchFiles`, with what `filepath.Glob` finds.
unfoldable pub get_match_files : Option (List Entry) → Option (Assoc String)
get_match_files none = none
get_match_files (some es) = some (match_files es [])

abbrev same_list : List ℕ → List ℕ → Bool
same_list = pikamgr.Coordinate.segment_eq

-- `bytes.Equal(vv.MD5, v.MD5)`, if there is an old file.
unfoldable pub is_same : Option TemplateFile → TemplateFile → Bool
is_same none v = false
is_same (some vv) v = same_list vv.md5 v.md5

-- `md5_empty` is the digest of no bytes: after `Reset`, `Sum(b)` appends it to `b`.
module _ (md5_empty : List ℕ) where
  abbrev pub template_file : List ℕ → TemplateFile
  template_file content = record { content = content; md5 = content ++ md5_empty }

  -- The first loop of `doMonitor`, with what `ioutil.ReadAll` reads; the first error ends it.
  unfoldable pub read_files :
      (String → Option (List ℕ)) → Assoc String → Option (Assoc TemplateFile)
  read_files read [] = some []
  read_files read ((name, path) ∷ files) =
      let rest = read_files read files in
      elim (read path) [
        | none ↦ none
        | some content ↦ elim rest [
          | none ↦ none
          | some tfs ↦ some ((name, template_file content) ∷ tfs)
        ]
      ]

abbrev pub unreadable_or : {A : Type 0} → Option A → Action A
unreadable_or o = or_raise o files_unreadable

module _ (w : World) where
  -- `update` and `delete`
  unfoldable pub file_update : String → TemplateFile → Action (Unit {0})
  file_update name v = client_update w (template_file_path name) (file_value v.content)

  unfoldable pub file_delete : String → Action (Unit {0})
  file_delete name = client_delete w (template_file_path name)

  -- The loop over the old files: those that are gone are deleted, an error is dropped.
  unfoldable pub delete_gone : Assoc TemplateFile → List String → Action (Unit {0})
  delete_gone tfs [] = pure tt
  delete_gone tfs (name ∷ names) = do
    attempt (when (not (contains name tfs)) (file_delete name))
    delete_gone tfs names

  -- The rounds of the loop over the new files: a file whose update fails is taken out again.
  abbrev pub after_update : String → Assoc TemplateFile → Result (Unit {0}) → Assoc TemplateFile
  after_update name tfs (ok _) = tfs
  after_update name tfs (err _) = erase name tfs

  unfoldable pub update_one :
      Assoc TemplateFile → Assoc TemplateFile → String → Action (Assoc TemplateFile)
  update_one old tfs name = elim (lookup name tfs) [
    | none ↦ pure tfs
    | some v ↦
        if is_same (lookup name old) v
        then pure tfs
        else do r ← attempt (file_update name v); pure (after_update name tfs r)
  ]

  unfoldable pub update_changed :
      Assoc TemplateFile → List String → Assoc TemplateFile → Action (Assoc TemplateFile)
  update_changed old [] tfs = pure tfs
  update_changed old (name ∷ names) tfs = do
    tfs' ← update_one old tfs name
    update_changed old names tfs'

  -- The second half of `doMonitor`, with the files that were read.
  unfoldable pub sync_files : Assoc TemplateFile → Action (Unit {0})
  sync_files tfs = do
    old ← gets (λ s. s.tfs)
    gone ← gets (λ s. w.range_order s.trace (keys old))
    delete_gone tfs gone
    names ← gets (λ s. w.range_order s.trace (keys tfs))
    kept ← update_changed old names tfs
    modify (λ s. record s { tfs = kept })

  unfoldable pub do_monitor :
      List ℕ → (String → Option (List ℕ)) → Option (List Entry) → Action (Unit {0})
  do_monitor md5_empty read found = do
    files ← unreadable_or (get_match_files found)
    tfs ← unreadable_or (read_files md5_empty read files)
    sync_files tfs

  -- The last loop of `init`: the files that are not there yet are written.
  unfoldable pub write_missing : Assoc String → Assoc TemplateFile → Action (Unit {0})
  write_missing files [] = pure tt
  write_missing files ((name, v) ∷ tfs) = do
    when (not (contains name files)) (request w (file_write name v.content))
    write_missing files tfs

  -- `init`, with whether the directory is there, the base names of the nodes below
  -- `TemplateFileDir`, and what `Read` and `filepath.Glob` find. The range over the files takes the
  -- order in which they were read.
  unfoldable pub init_files :
      List ℕ
      → Bool
      → Option (List String)
      → (String → Option (List ℕ))
      → Option (List Entry)
      → Action (Unit {0})
  init_files md5_empty is_there paths read found = do
    when (not is_there) (request w make_dir)
    names ← unreadable_or paths
    tfs ← unreadable_or (read_files md5_empty read (mathlib.Core.List.map (λ n. (n, n)) names))
    files ← unreadable_or (get_match_files found)
    write_missing files tfs
    modify (λ s. record s { tfs = tfs })
