-- ===== src/Mapper/Templates/Stored.antt =====
-- A round of the template file mapper: what the cache says is what the coordinator holds.
use pikamgr.Base.{
  ℕ, String, true, false, List, [], ◌∷◌, ◌++◌, some, Assoc, lookup, contains, mem_name, ◌≡◌, refl,
  arith, ◌⊎◌, inl, inr, ◌==◌, eq_iff, eq_refl, Bool-cases, if◌then◌else◌,
}
use pikamgr.Coordinate.{NodePath, path_eq, template_file_path}
use pikamgr.Coordinate.Plain.{path_eq_iff}
use pikamgr.Coordinate.Paths.{IsBaseName, template_file_path-injective}
use pikamgr.Dao.{TemplateFile, file_value}
use pikamgr.World.{
  World, State, ok, err, Error, request, client_update, client_delete, request_failed, store_update,
  store_delete,
}
use pikamgr.Mapper.Templates.{file_update, file_delete, delete_gone}

-- The coordinator holds the content of a file at its node.
abbrev pub IsStored : String → TemplateFile → State → Type 0
IsStored name v s = s.store (template_file_path name) ≡ some (file_value v.content)

-- A file as the mapper reads it: a base name, and the digest that `Sum` gives.
pub record IsFile (md5_empty : List ℕ) (name : String) (v : TemplateFile) : Type 0 where
  pub base : IsBaseName name
  pub digest : v.md5 ≡ v.content ++ md5_empty

pub record IsRead (md5_empty : List ℕ) (tfs : Assoc TemplateFile) : Type 0 where
  pub files :
      (name : String) {v : TemplateFile} → lookup name tfs ≡ some v → IsFile md5_empty name v

-- Whatever the cache lists is stored as it is listed.
pub record IsSynced (md5_empty : List ℕ) (s : State) : Type 0 where
  pub read : IsRead md5_empty s.tfs
  pub stored : (name : String) {v : TemplateFile} → lookup name s.tfs ≡ some v → IsStored name v s

-- A range over a map takes exactly its keys.
abbrev pub IsRange : World → Type 0
IsRange w =
    (s : State) (ks : List String) (k : String)
    → mem_name k (w.range_order s.trace ks) ≡ mem_name k ks

pub path_eq-template_file_path :
    (name other : String)
    → IsBaseName name
    → IsBaseName other
    → (name == other) ≡ false
    → path_eq (template_file_path name) (template_file_path other) ≡ false
path_eq-template_file_path name other h k differ =
    elim (Bool-cases (path_eq (template_file_path name) (template_file_path other))) [
      | inr apart ↦ apart
      | inl same ↦
          let e : name ≡ other =
            template_file_path-injective name other h k
              ((path_eq_iff (template_file_path name) (template_file_path other)).0 same) in
          ground (arith, eq_iff name other)
    ]

module _ (w : World) where
  -- An update that is served writes the file; one that is not changes no node.
  pub file_update-cases :
      (name : String) (v : TemplateFile) (s : State)
      → let (r, s') = file_update w name v s in
        ((r ≡ ok tt)
          × ((q : NodePath)
              → s'.store q ≡ (
                  if path_eq (template_file_path name) q
                  then some (file_value v.content)
                  else s.store q)))
        ⊎ ((e : Error) × (r ≡ err e) × ((q : NodePath) → s'.store q ≡ s.store q))
  unfolding file_update client_update request
  file_update-cases name v s =
      let e = store_update (template_file_path name) (file_value v.content) in
      elim (Bool-cases (w.reply s.trace e)) [
        | inl served ↦ inl (ground (arith, served), λ q. ground (arith, served))
        | inr lost ↦ inr (request_failed e, ground (arith, lost), λ q. ground (arith, lost))
      ]

  file_delete-other :
      (name k : String) (s : State)
      → IsBaseName name
      → IsBaseName k
      → (name == k) ≡ false
      → (file_delete w name s).1.store (template_file_path k) ≡ s.store (template_file_path k)
  unfolding file_delete client_delete request
  file_delete-other name k s h j differ =
      let e = store_delete (template_file_path name) in
      let apart = path_eq-template_file_path name k h j differ in
      elim (Bool-cases (w.reply s.trace e)) [
        | inl served ↦ ground (arith, served, apart)
        | inr lost ↦ ground (arith, lost)
      ]

  -- Deleting what is gone touches no file that is still there.
  pub delete_gone-kept :
      (tfs : Assoc TemplateFile) (names : List String) (k : String) (s : State)
      → ((n : String) → mem_name n names ≡ true → IsBaseName n)
      → IsBaseName k
      → contains k tfs ≡ true
      → (delete_gone w tfs names s).1.store (template_file_path k) ≡ s.store (template_file_path k)
  unfolding delete_gone
  delete_gone-kept tfs [] k s named base there = refl
  delete_gone-kept tfs (n ∷ names) k s named base there =
      let rest : (t : State)
          → (delete_gone w tfs names t).1.store (template_file_path k)
            ≡ t.store (template_file_path k) =
        λ t. delete_gone-kept tfs names k t (λ m e. named m (ground (arith, e))) base there in
      elim (Bool-cases (contains n tfs)) [
        | inl listed ↦ ground (arith, listed, rest s)
        | inr gone ↦
            let differ : (n == k) ≡ false = ground (arith, eq_iff n k) in
            ground (
              arith,
              gone,
              rest (file_delete w n s).1,
              file_delete-other n k s (named n (ground (arith, eq_refl n))) base differ,
            )
      ]

  pub delete_gone-ok :
      (tfs : Assoc TemplateFile) (names : List String) (s : State)
      → (delete_gone w tfs names s).0 ≡ ok tt
  unfolding delete_gone
  delete_gone-ok tfs [] s = refl
  delete_gone-ok tfs (n ∷ names) s = elim (Bool-cases (contains n tfs)) [
    | inl listed ↦ ground (arith, listed, delete_gone-ok tfs names s)
    | inr gone ↦ ground (arith, gone, delete_gone-ok tfs names (file_delete w n s).1)
  ]
