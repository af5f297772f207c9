-- ===== src/Mapper/Templates/Synced.antt =====
-- What a round of `doMonitor` leaves behind.
use pikamgr.Base.{
  ℕ, String, true, List, [], ◌∷◌, some, Assoc, lookup, keys, contains, mem_name, mem_name-keys, ◌≡◌,
  refl, ap, ◌∙◌, sym, subst, arith, inl, inr, Bool-cases, Option-cases,
}
use mathlib.Core.List.{append_cancel_right}
use pikamgr.Coordinate.{template_file_path}
use pikamgr.Coordinate.Plain.{segment_eq_iff}
use pikamgr.Coordinate.Paths.{IsBaseName}
use pikamgr.Dao.{TemplateFile, file_value}
use pikamgr.World.{World, State, Effect, store_update, request, client_update, ok}
use pikamgr.World.Runs.{bind-ok}
use pikamgr.Mapper.Templates.{
  is_same, file_update, update_one, delete_gone, update_changed, sync_files,
}
use pikamgr.Mapper.Templates.Stored.{
  IsStored, IsRead, IsSynced, IsRange, delete_gone-kept, delete_gone-ok,
}
use pikamgr.Mapper.Templates.Rounds.{IsDue, update_changed-IsDue}

module _ (w : World) (md5_empty : List ℕ) where
  -- A file that is taken for unchanged is stored: its old content is the new one.
  is_same-IsStored :
      (old tfs : Assoc TemplateFile) (k : String) (v : TemplateFile) (s : State)
      → IsRead md5_empty old
      → IsRead md5_empty tfs
      → lookup k tfs ≡ some v
      → is_same (lookup k old) v ≡ true
      → ((vv : TemplateFile) → lookup k old ≡ some vv → IsStored k vv s)
      → IsStored k v s
  unfolding is_same
  is_same-IsStored old tfs k v s ro rt e same stored = elim (Option-cases (lookup k old)) [
    | inl absent ↦ ground (arith, absent, same)
    | inr (vv, e') ↦
        let digests : vv.md5 ≡ v.md5 = (segment_eq_iff vv.md5 v.md5).0 (ground (arith, e', same)) in
        let contents : vv.content ≡ v.content =
          append_cancel_right vv.content v.content md5_empty
            (sym (ro.files k e').digest ∙ digests ∙ (rt.files k e).digest) in
        stored vv e' ∙ ap (λ c. some (file_value c)) contents
  ]

  listed-IsBaseName :
      (tfs : Assoc TemplateFile) (n : String)
      → IsRead md5_empty tfs
      → contains n tfs ≡ true
      → IsBaseName n
  listed-IsBaseName tfs n rt there = elim (Option-cases (lookup n tfs)) [
    | inl absent ↦ ground (arith, absent, there)
    | inr (v, e) ↦ (rt.files n e).base
  ]

  -- Before the loop over the new files, each of them is stored or due.
  start-IsDue :
      (tfs : Assoc TemplateFile) (gone : List String) (s : State)
      → IsRange w
      → IsSynced md5_empty s
      → IsRead md5_empty tfs
      → ((n : String) → mem_name n gone ≡ mem_name n (keys s.tfs))
      → let t = (delete_gone w tfs gone s).1 in
        IsDue md5_empty s.tfs (w.range_order t.trace (keys tfs)) tfs t
  start-IsDue tfs gone s order h rt range k v e =
      let t : State = (delete_gone w tfs gone s).1 in
      let listed : contains k tfs ≡ true = ground (arith, e) in
      (
        rt.files k e,
        elim (Bool-cases (is_same (lookup k s.tfs) v)) [
          | inr changed ↦ inr (order t (keys tfs) k ∙ mem_name-keys k tfs ∙ listed, changed)
          | inl same ↦ inl (
              delete_gone-kept w tfs gone k s
                (λ n m.
                  listed-IsBaseName s.tfs n h.read (sym (range n ∙ mem_name-keys n s.tfs) ∙ m))
                (rt.files k e).base listed
              ∙ is_same-IsStored s.tfs tfs k v s h.read rt e same (λ vv. h.stored k))
        ],
      )

  -- After the round of `doMonitor`, whatever the coordinator refused, each file that the cache lists
  -- is stored with the content that the cache lists; no error is returned.
  pub sync_files-IsSynced :
      (tfs : Assoc TemplateFile) (s : State)
      → IsRange w
      → IsSynced md5_empty s
      → IsRead md5_empty tfs
      → ((sync_files w tfs s).0 ≡ ok tt) × IsSynced md5_empty (sync_files w tfs s).1
  unfolding sync_files
  sync_files-IsSynced tfs s order h rt =
      let gone : List String = w.range_order s.trace (keys s.tfs) in
      let t : State = (delete_gone w tfs gone s).1 in
      let names : List String = w.range_order t.trace (keys tfs) in
      let (kept, run, due) =
        update_changed-IsDue w md5_empty s.tfs names tfs t
          (start-IsDue tfs gone s order h rt (λ n. order s (keys s.tfs) n)) in
      let u : State = (update_changed w s.tfs names tfs t).1 in
      let done : sync_files w tfs s ≡ (ok tt, record u { tfs = kept }) =
        ground (arith, delete_gone-ok w tfs gone s, run) in
      (
        ap (λ r. r.0) done,
        subst (λ r. IsSynced md5_empty r.1) (sym done)
            (record {
              read = record { files = λ k e. (due k _ e).0 };
              stored = λ k {v} e. elim (due k v e).1 [
                | inl stored ↦ stored
                | inr (never, _) ↦ ground (arith, never)
              ];
            }),
      )

  -- An update that is always served takes no file out.
  update_changed-served :
      (old tfs : Assoc TemplateFile) (names : List String) (s : State)
      → ((t : List Effect) (e : Effect) → w.reply t e ≡ true)
      → (update_changed w old names tfs s).0 ≡ ok tfs
  unfolding update_changed update_one file_update client_update request
  update_changed-served old tfs [] s served = refl
  update_changed-served old tfs (n ∷ names) s served =
      let first : (update_one w old tfs n s).0 ≡ ok tfs = elim (Option-cases (lookup n tfs)) [
        | inl absent ↦ ground (arith, absent)
        | inr (v, e) ↦ elim (Bool-cases (is_same (lookup n old) v)) [
          | inl same ↦ ground (arith, e, same)
          | inr changed ↦ ground (
            arith,
            e,
            changed,
            served s.trace (store_update (template_file_path n) (file_value v.content)),
          )
        ]
      ] in
      ap (λ r. r.0) (bind-ok (update_one w old tfs n) (λ t. update_changed w old names t) s first)
      ∙ update_changed-served old tfs names (update_one w old tfs n s).1 served

  -- If all requests are served, the cache is what was read.
  pub sync_files-served :
      (tfs : Assoc TemplateFile) (s : State)
      → ((t : List Effect) (e : Effect) → w.reply t e ≡ true)
      → (sync_files w tfs s).1.tfs ≡ tfs
  unfolding sync_files
  sync_files-served tfs s served =
      let gone : List String = w.range_order s.trace (keys s.tfs) in
      let t : State = (delete_gone w tfs gone s).1 in
      ground (
        arith,
        delete_gone-ok w tfs gone s,
        update_changed-served s.tfs tfs (w.range_order t.trace (keys tfs)) t served,
      )
