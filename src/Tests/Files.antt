-- ===== src/Tests/Files.antt =====
-- The theorems on the template files, with a directory of one file.
use mathlib.Core.Option.{some-injective}
use pikamgr.Coordinate.Plain.{path_eq_refl}
use pikamgr.Base.{
  ap, sym, ◌∙◌, subst, Bool-cases, inl, inr, ℕ, String, true, false, List, [], ◌∷◌, Option, none,
  some, Assoc, lookup, ◌≡◌, refl, arith, codes, if◌then◌else◌, ◌==◌, eq_iff,
}
use pikamgr.Coordinate.Paths.{IsBaseName}
use pikamgr.Dao.{TemplateFile}
use pikamgr.World.{ok}
use pikamgr.Mapper.Templates.{
  init_files, Entry, is_same, match_files, template_file, read_files, do_monitor,
}
use pikamgr.Mapper.Templates.Stored.{IsStored, IsSynced}
use pikamgr.Mapper.Templates.Monitor.{monitor, init_files-monitor}
use pikamgr.Coordinate.{path_eq, template_file_path}
use pikamgr.Dao.{file_value}
use pikamgr.World.{State}
use pikamgr.Mapper.Templates.Mirror.{do_monitor-mirrors}
use pikamgr.Tests.{accepting, start}

abbrev found : List Entry
found =
    record { full_path = "/etc/fe/haproxy.tmpl"; name = "haproxy.tmpl"; is_dir = some false }
    ∷ record { full_path = "/etc/fe/old"; name = "old"; is_dir = some true }
    ∷ []

abbrev read_path : String → Option (List ℕ)
read_path path = if path == "/etc/fe/haproxy.tmpl" then some (codes "global") else none

abbrev read_now : Assoc TemplateFile
read_now = ("haproxy.tmpl", template_file (212 ∷ 29 ∷ []) (codes "global")) ∷ []

haproxy-IsBaseName : IsBaseName "haproxy.tmpl"
haproxy-IsBaseName = record {
  plain = ground arith;
  is_text = λ e. ground (arith, (eq_iff "haproxy.tmpl" "").1 e);
  not_here = λ e. ground (arith, (eq_iff "haproxy.tmpl" ".").1 e);
  not_up = λ e. ground (arith, (eq_iff "haproxy.tmpl" "..").1 e);
}

old-IsBaseName : IsBaseName "old"
old-IsBaseName = record {
  plain = ground arith;
  is_text = λ e. ground (arith, (eq_iff "old" "").1 e);
  not_here = λ e. ground (arith, (eq_iff "old" ".").1 e);
  not_up = λ e. ground (arith, (eq_iff "old" "..").1 e);
}

start-IsSynced : IsSynced (212 ∷ 29 ∷ []) start
start-IsSynced = record {
  read = record { files = λ k e. absurd (ground arith) };
  stored = λ k e. absurd (ground arith);
}

-- A coordinator with one file, which is loaded; then the directory has another one, and the
-- coordinator refuses it.
abbrev kept_file : String → Option (List ℕ)
kept_file name = if name == "old" then some (codes "global") else none

abbrev loaded : State
loaded = record start {
  store = λ q.
      if path_eq (template_file_path "old") q then some (file_value (codes "global")) else none;
}

kept_file-stored :
    (k : String) (c : List ℕ)
    → kept_file k ≡ some c
    → loaded.store (template_file_path k) ≡ some (file_value c)
kept_file-stored k c e = elim (Bool-cases (k == "old")) [
  | inr other ↦ absurd (ground (arith, other, e))
  | inl same ↦
      let k_is : k ≡ "old" = (eq_iff k "old").0 same in
      let c_is : codes "global" ≡ c = some-injective (codes "global") c (ground (arith, same, e)) in
      let here : loaded.store (template_file_path "old") ≡ some (file_value (codes "global")) =
        rw (path_eq_refl (template_file_path "old")) refl in
      subst (λ n. loaded.store (template_file_path n) ≡ some (file_value c)) (sym k_is)
        (here ∙ ap (λ x. some (file_value x)) c_is)
]

loads :
    (init_files accepting (212 ∷ 29 ∷ []) true (some ("old" ∷ [])) kept_file (some []) loaded).0
    ≡ ok tt
unfolding init_files read_files pikamgr.Mapper.Templates.get_match_files match_files
    pikamgr.Mapper.Templates.write_missing pikamgr.World.request
loads = refl

init_files-monitor_example : IsSynced (212 ∷ 29 ∷ []) (
    monitor accepting
      (212 ∷ 29 ∷ [])
      (record { read = read_path; found = some found }
        ∷ record { read = kept_file; found = none }
        ∷ [])
      (init_files accepting (212 ∷ 29 ∷ []) true (some ("old" ∷ [])) kept_file (some []) loaded).1)
init_files-monitor_example =
    init_files-monitor accepting (212 ∷ 29 ∷ []) true ("old" ∷ []) kept_file (some [])
      (record { read = read_path; found = some found }
        ∷ record { read = kept_file; found = none }
        ∷ [])
      loaded (λ s ks k. refl) (old-IsBaseName, tt)
      ((haproxy-IsBaseName, (old-IsBaseName, tt)), (tt, tt)) kept_file-stored loads

reads : read_files (212 ∷ 29 ∷ []) read_path (match_files found []) ≡ some read_now
unfolding read_files match_files
reads = refl

do_monitor-mirrors_example :
    let (r, s') = do_monitor accepting (212 ∷ 29 ∷ []) read_path (some found) start in
    (r ≡ ok tt)
    × ((k path : String) (c : List ℕ)
        → lookup k (match_files found []) ≡ some path
        → read_path path ≡ some c
        → IsStored k (template_file (212 ∷ 29 ∷ []) c) s')
do_monitor-mirrors_example =
    do_monitor-mirrors accepting (212 ∷ 29 ∷ []) read_path found read_now start (λ s ks k. refl)
      (λ t e. refl) (haproxy-IsBaseName, (old-IsBaseName, tt)) start-IsSynced reads
