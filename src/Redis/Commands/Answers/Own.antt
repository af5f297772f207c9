-- ===== src/Redis/Commands/Answers/Own.antt =====
-- Whose groups a sentinel's answer names.
use pikamgr.Base.{
  String, List, [], ◌∷◌, Option, none, some, ◌≡◌, ◌⊎◌, refl, sym, subst, arith, Assoc, lookup,
  insert, eq_iff, ◌==◌, Bool-cases, Option-cases, inl, inr,
}
use pikamgr.Redis.{Command}
use pikamgr.Redis.NodeName.{is_same_product}
use pikamgr.Redis.Masters.{SentinelMaster}
use pikamgr.Redis.Commands.{
  Peer, Reply, failure, null, other, maps, is_failed, masters_of, masters_reply, masters_command,
}
use pikamgr.Redis.Commands.Answers.{field, master_entry, entries, masters_dispatch}

-- An element of the sentinel's reply, whose name is that of a group at the product.
abbrev pub IsNamed : String → String → Assoc String → List (Option (Assoc String)) → Type 0
IsNamed product k p [] = ⊥
IsNamed product k p (none ∷ values) = IsNamed product k p values
IsNamed product k p (some q ∷ values) =
    ((q ≡ p) × (is_same_product product (field "name" q) ≡ some k)) ⊎ IsNamed product k p values

abbrev All : {V : Type 0} → (String → V → Type 0) → Assoc V → Type 0
All P [] = Unit
All P ((k, v) ∷ m) = P k v × All P m

module _ {V : Type 0} (P : String → V → Type 0) where
  insert-All : (k : String) (v : V) (m : Assoc V) → P k v → All P m → All P (insert k v m)
  insert-All k v [] own all = (own, tt)
  insert-All k v ((j, w) ∷ m) own (here, all) = elim (Bool-cases (j == k)) [
    | inl same ↦ rw same (subst (λ i. P i v) (sym ((eq_iff j k).0 same)) own, all)
    | inr differ ↦ rw differ (here, insert-All k v m own all)
  ]

  lookup-All : (k : String) (v : V) (m : Assoc V) → All P m → lookup k m ≡ some v → P k v
  lookup-All k v [] all e = absurd (ground arith)
  lookup-All k v ((j, w) ∷ m) (here, all) e = elim (Bool-cases (j == k)) [
    | inl same ↦
        let value : w ≡ v = ground arith in
        subst (λ i. P i v) ((eq_iff j k).0 same) (subst (λ x. P j x) value here)
    | inr differ ↦ lookup-All k v m all (ground arith)
  ]

module _ (product : String) (reply : List (Option (Assoc String))) where
  abbrev Given : String → Assoc String → Type 0
  Given k p = IsNamed product k p reply

  -- What is behind an entry of the result.
  abbrev Read : String → SentinelMaster → Type 0
  Read k m = (p : Assoc String) × IsNamed product k p reply × (master_entry p ≡ some m)

  masters_of-All :
      (values : List (Option (Assoc String))) (before after : Assoc (Assoc String))
      → ((k : String) (p : Assoc String) → IsNamed product k p values → Given k p)
      → All Given before
      → masters_of product values before ≡ some after
      → All Given after
  unfolding masters_of
  masters_of-All [] before after part all e =
      let same : before ≡ after = ground arith in subst (λ m. All Given m) same all
  masters_of-All (none ∷ values) before after part all e = absurd (ground arith)
  masters_of-All (some p ∷ values) before after part all e =
      elim (Option-cases (is_same_product product (field "name" p))) [
        | inl foreign ↦
            masters_of-All values before after (λ k q n. part k q (inr n)) all (ground arith)
        | inr (group, own) ↦
            masters_of-All values (insert group p before) after (λ k q n. part k q (inr n))
              (insert-All Given group p before (part group p (inl (refl, own))) all) (ground arith)
      ]

  entries-All :
      (found : Assoc (Assoc String)) (masters : Assoc SentinelMaster)
      → All Given found
      → All Read masters
      → All Read (entries found masters)
  unfolding entries
  entries-All [] masters all known = known
  entries-All ((group, p) ∷ rest) masters (own, all) known = elim (Option-cases (master_entry p)) [
    | inl absent ↦ rw absent (entries-All rest masters all known)
    | inr (m, there) ↦ rw there (
        entries-All rest (insert group m masters) all
          (insert-All Read group m masters (p, own, there) known))
  ]

masters_reply-maps :
    (product : String) (r : Reply) (found : Assoc (Assoc String))
    → masters_reply product r ≡ some found
    → (values : List (Option (Assoc String))) × (r ≡ maps values)
      × (masters_of product values [] ≡ some found)
masters_reply-maps product (maps values) found e = (values, refl, e)
masters_reply-maps product failure found e = absurd (ground arith)
masters_reply-maps product null found e = absurd (ground arith)
masters_reply-maps product other found e = absurd (ground arith)

masters_command-maps :
    (peer : Peer) (product : String) (sent : List Command) (found : Assoc (Assoc String))
    → (masters_command peer product sent).0 ≡ some found
    → (values : List (Option (Assoc String))) × (peer sent ("SENTINEL" ∷ "masters" ∷ [])
        ≡ maps values)
      × (masters_of product values [] ≡ some found)
unfolding masters_command
masters_command-maps peer product sent found e =
    elim (Bool-cases (is_failed (peer sent ("SENTINEL" ∷ "masters" ∷ [])))) [
      | inl failed ↦ absurd (ground arith)
      | inr served ↦
          masters_reply-maps product (peer sent ("SENTINEL" ∷ "masters" ∷ [])) found (ground arith)
    ]

-- Each group that a sentinel's answer is taken to name was named in that answer: the reply to
-- `SENTINEL masters` is an array with an element of which the name is that of the group at the
-- product, and the master found for the group is read from that element.
pub masters_dispatch-IsNamed :
    (peer : Peer) (product : String) (sent : List Command) (answer : Assoc SentinelMaster)
    (k : String) (m : SentinelMaster)
    → (masters_dispatch peer product sent).0 ≡ some answer
    → lookup k answer ≡ some m
    → (values : List (Option (Assoc String))) × (p : Assoc String) × (peer sent
          ("SENTINEL" ∷ "masters" ∷ [])
        ≡ maps values)
      × IsNamed product k p values
      × (master_entry p ≡ some m)
unfolding masters_dispatch
masters_dispatch-IsNamed peer product sent answer k m e at =
    elim (Option-cases (masters_command peer product sent).0) [
      | inl failed ↦ absurd (ground arith)
      | inr (found, served) ↦
          let (values, said, made) = masters_command-maps peer product sent found served in
          let all : All (Given product values) found =
            masters_of-All product values values [] found (λ j q n. n) tt made in
          let same : entries found [] ≡ answer = ground arith in
          let (p, named, read) =
            lookup-All (Read product values) k m answer
              (subst (λ x. All (Read product values) x) same
                (entries-All product values found [] all tt))
              at in
          (values, p, said, named, read)
    ]
