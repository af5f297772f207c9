-- ===== src/Coordinate/Plain.antt =====
-- Names without a slash: how a path of such a name looks, and when two paths are the same.
use Prim.Native.Char.{code}
use Prim.Native.String as Text
use text.Mathlib.TextLemmas.{nil-append, cons-append}
use text.Mathlib.TextEquality.{Char-path}
use pikamgr.Base.{
  ℕ, String, true, false, List, [], ◌∷◌, ◌++◌, ap, ◌≡◌, refl, ◌↔◌, arith, codes, eqb,
}
use pikamgr.Coordinate.{
  Segment, NodePath, split_slash, enter, walk, join, segment_eq, path_eq, group_node,
}

-- No character is a slash.
abbrev pub IsPlain : List ℕ → Type 0
IsPlain [] = Unit
IsPlain (c ∷ cs) = (eqb c b'/' ≡ false) × IsPlain cs

pub split_slash-IsPlain : (cs : List ℕ) → IsPlain cs → split_slash cs ≡ cs ∷ []
unfolding split_slash
split_slash-IsPlain [] h = refl
split_slash-IsPlain (c ∷ cs) h = ground (arith, split_slash-IsPlain cs h.1)

-- The node of a group is one segment.
pub join-group_node :
    (p : NodePath) (group : String)
    → IsPlain (codes group)
    → join p (group_node group) ≡ group_node group ∷ p
unfolding join walk enter split_slash
join-group_node p group h = rw (split_slash-IsPlain (codes group) h)

pub codes-injective : (s t : String) → codes s ≡ codes t → s ≡ t
codes-injective String.[] String.[] h = refl
codes-injective String.[] (String.◌∷◌ d t) h = cc
codes-injective (String.◌∷◌ c s) String.[] h = cc
codes-injective (String.◌∷◌ c s) (String.◌∷◌ d t) h =
    let e : code c ≡ code d = cc in
    let r : codes s ≡ codes t = cc in cc (Char-path c d e, codes-injective s t r)

pub segment_eq_iff : (s t : Segment) → (segment_eq s t ≡ true) ↔ (s ≡ t)
segment_eq_iff [] [] = ground arith
segment_eq_iff [] (d ∷ t) = ground arith
segment_eq_iff (c ∷ s) [] = ground arith
segment_eq_iff (c ∷ s) (d ∷ t) = ground (arith, segment_eq_iff s t)

pub path_eq_iff : (p q : NodePath) → (path_eq p q ≡ true) ↔ (p ≡ q)
path_eq_iff [] [] = ground arith
path_eq_iff [] (t ∷ q) = ground arith
path_eq_iff (s ∷ p) [] = ground arith
path_eq_iff (s ∷ p) (t ∷ q) = ground (arith, segment_eq_iff s t, path_eq_iff p q)

pub codes-append : (s t : String) → codes (Text.◌++◌ s t) ≡ codes s ++ codes t
codes-append String.[] t = rw nil-append
codes-append (String.◌∷◌ c s) t = rw cons-append (ap (λ cs. code c ∷ cs) (codes-append s t))

pub path_eq_refl : (p : NodePath) → path_eq p p ≡ true
path_eq_refl p = (path_eq_iff p p).1 refl
