-- ===== src/Mapper/Templates/Rounds.antt =====
-- The loop of `doMonitor` over the new files, round by round.
use mathlib.Core.Option.{some-injective}
use pikamgr.Base.{
  mem_name, ℕ, String, true, false, List, [], ◌∷◌, some, Assoc, lookup, erase, lookup-erase, ◌≡◌,
  refl, ap, ◌∙◌, sym, subst, arith, ◌⊎◌, inl, inr, ◌==◌, eq_iff, eq_refl, Bool-cases, Option-cases,
}
use pikamgr.Coordinate.{template_file_path}
use pikamgr.Coordinate.Plain.{path_eq_refl}
use pikamgr.Coordinate.Paths.{IsBaseName}
use pikamgr.Dao.{TemplateFile}
use pikamgr.World.{World, State, ok}
use pikamgr.World.Runs.{bind-ok}
use pikamgr.Mapper.Templates.{is_same, update_one, update_changed}
use pikamgr.Mapper.Templates.Stored.{
  IsStored, IsFile, path_eq-template_file_path, file_update-cases,
}

-- While the loop over the new files runs: each file of the cache is stored, or it has changed and
-- its turn is still to come.
abbrev pub IsDue : List ℕ → Assoc TemplateFile → List String → Assoc TemplateFile → State → Type 0
IsDue md5_empty old names tfs s =
    (k : String) (v : TemplateFile)
    → lookup k tfs ≡ some v
    → IsFile md5_empty k v
      × (IsStored k v s ⊎ ((mem_name k names ≡ true) × (is_same (lookup k old) v ≡ false)))

module _ (w : World) (md5_empty : List ℕ) (old : Assoc TemplateFile) where
  -- One round, seen from outside: no new file is listed, the other nodes stay, and the file whose
  -- turn it was, if it is still listed, is stored.
  round-IsDue :
      (name : String) (names : List String) (tfs tfs' : Assoc TemplateFile) (s t : State)
      → IsDue md5_empty old (name ∷ names) tfs s
      → ((k : String) (v : TemplateFile) → lookup k tfs' ≡ some v → lookup k tfs ≡ some v)
      → ((k : String)
          → IsBaseName k
          → (name == k) ≡ false
          → t.store (template_file_path k) ≡ s.store (template_file_path k))
      → ((v : TemplateFile)
          → lookup name tfs' ≡ some v
          → IsStored name v s ⊎ (is_same (lookup name old) v ≡ false)
          → IsStored name v t)
      → IsDue md5_empty old names tfs' t
  round-IsDue name names tfs tfs' s t due sub others own k v e =
      let (file_k, state) = due k v (sub k v e) in
      (
        file_k,
        elim (Bool-cases (name == k)) [
          | inl here ↦
              let same : name ≡ k = (eq_iff name k).0 here in
              let e' : lookup name tfs' ≡ some v =
                subst (λ n. lookup n tfs' ≡ some v) (sym same) e in
              inl (
                subst (λ n. IsStored n v t) same
                  (own v e' (elim state [
                    | inl stored ↦ inl (subst (λ n. IsStored n v s) (sym same) stored)
                    | inr (_, changed) ↦
                        inr (subst (λ n. is_same (lookup n old) v ≡ false) (sym same) changed)
                  ])))
          | inr other ↦ elim state [
            | inl stored ↦ inl (others k file_k.base other ∙ stored)
            | inr (later, changed) ↦ inr (ground (arith, other), changed)
          ]
        ],
      )

  update_one-IsDue :
      (name : String) (names : List String) (tfs : Assoc TemplateFile) (s : State)
      → IsDue md5_empty old (name ∷ names) tfs s
      → (tfs' : Assoc TemplateFile) × ((update_one w old tfs name s).0 ≡ ok tfs')
        × IsDue md5_empty old names tfs' (update_one w old tfs name s).1
  unfolding update_one
  update_one-IsDue name names tfs s due =
      let t : State = (update_one w old tfs name s).1 in
      elim (Option-cases (lookup name tfs)) [
        | inl absent ↦
            let stays : t ≡ s = ground (arith, absent) in
            (
              tfs,
              ground (arith, absent),
              round-IsDue name names tfs tfs s t due (λ k v e. e)
                  (λ k b d. ap (λ x. x.store (template_file_path k)) stays)
                  (λ v e own. ground (arith, absent, e)),
            )
        | inr (v, e) ↦ elim (Bool-cases (is_same (lookup name old) v)) [
          | inl same ↦
              let stays : t ≡ s = ground (arith, e, same) in
              (
                tfs,
                ground (arith, e, same),
                round-IsDue name names tfs tfs s t due (λ k u e'. e')
                    (λ k b d. ap (λ x. x.store (template_file_path k)) stays)
                    (λ u e' own. elim own [
                      | inl stored ↦ subst (IsStored name u) (sym stays) stored
                      | inr changed ↦
                          let v_is_u : v ≡ u = some-injective v u (sym e ∙ e') in
                          ground (arith, ap (is_same (lookup name old)) v_is_u)
                    ]),
              )
          | inr changed ↦ elim (file_update-cases w name v s) [
            | inl (served, written) ↦
                let base : IsBaseName name = (due name v e).0.base in
                (
                  tfs,
                  ground (arith, e, changed, served),
                  round-IsDue name names tfs tfs s t due (λ k u e'. e')
                      (λ k b d. ground (
                        arith,
                        e,
                        changed,
                        served,
                        written (template_file_path k),
                        path_eq-template_file_path name k base b d,
                      ))
                      (λ u e' own. ground (
                        arith,
                        e,
                        changed,
                        served,
                        e',
                        written (template_file_path name),
                        path_eq_refl (template_file_path name),
                      )),
                )
            | inr (x, lost, kept) ↦ (
              erase name tfs,
              ground (arith, e, changed, lost),
              round-IsDue name names tfs (erase name tfs) s t due
                  (λ k u e'. ground (arith, lookup-erase name k tfs))
                  (λ k b d. ground (arith, e, changed, lost, kept (template_file_path k)))
                  (λ u e' own. ground (arith, lookup-erase name name tfs, eq_refl name)),
            )
          ]
        ]
      ]

  pub update_changed-IsDue :
      (names : List String) (tfs : Assoc TemplateFile) (s : State)
      → IsDue md5_empty old names tfs s
      → (tfs' : Assoc TemplateFile) × ((update_changed w old names tfs s).0 ≡ ok tfs')
        × IsDue md5_empty old [] tfs' (update_changed w old names tfs s).1
  unfolding update_changed
  update_changed-IsDue [] tfs s due = (tfs, refl, due)
  update_changed-IsDue (name ∷ names) tfs s due =
      let (tfs1, first, due1) = update_one-IsDue name names tfs s due in
      let (tfs2, second, due2) =
        update_changed-IsDue names tfs1 (update_one w old tfs name s).1 due1 in
      let run : update_changed w old (name ∷ names) tfs s
          ≡ update_changed w old names tfs1 (update_one w old tfs name s).1 =
        bind-ok (update_one w old tfs name) (λ t. update_changed w old names t) s first in
      (
        tfs2,
        ap (λ r. r.0) run ∙ second,
        subst (λ r. IsDue md5_empty old [] tfs2 r.1) (sym run) due2,
      )
