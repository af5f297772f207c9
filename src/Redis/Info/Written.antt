-- ===== src/Redis/Info/Written.antt =====
-- A report is read as it was written.
use pikamgr.Base.{
  ℕ, true, false, List, [], ◌∷◌, ◌++◌, Option, none, some, ◌≡◌, refl, ap, ◌∙◌, sym, arith, eqb,
  is_empty, if◌then◌else◌, Bool-cases, inl, inr,
}
use mathlib.Core.List.{append_assoc}
use pikamgr.Coordinate.{segment_eq}
use pikamgr.Coordinate.Plain.{segment_eq_iff}
use pikamgr.Redis.Info.{
  Text, Fields, field_at, set_field, is_space, trim_left, trim_right, trim_space, split_lines,
  split_field, read_line, read_lines, info,
}

-- The lines of a report: a field, or a remark such as a headline or an empty line.
pub data InfoLine : Type 0 where
  field : Text → Text → InfoLine
  remark : Text → InfoLine

abbrev content_of : InfoLine → Text
content_of (field k v) = k ++ 58 ∷ v
content_of (remark t) = t

-- A report, each line ended by a carriage return and a line feed.
abbrev pub report : List InfoLine → Text
report [] = []
report (l ∷ ls) = content_of l ++ 13 ∷ 10 ∷ report ls

-- A character does not occur.
abbrev pub Avoids : ℕ → Text → Type 0
Avoids d [] = Unit
Avoids d (c ∷ cs) = (eqb c d ≡ false) × Avoids d cs

-- Keys and values are one line without space around them, a key is not empty and has no colon, a
-- remark has no colon.
abbrev pub IsLine : InfoLine → Type 0
IsLine (field k v) =
    Avoids 10 k
    × Avoids 58 k
    × Avoids 10 v
    × (is_empty k ≡ false)
    × (trim_space k ≡ k)
    × (trim_space v ≡ v)
IsLine (remark t) = Avoids 10 t × Avoids 58 t

abbrev pub AreLines : List InfoLine → Type 0
AreLines [] = Unit
AreLines (l ∷ ls) = IsLine l × AreLines ls

-- The last value that is written for a key, or what stood there before.
abbrev pub written : Text → List InfoLine → Option Text → Option Text
written k [] old = old
written k (field j v ∷ ls) old = written k ls (if segment_eq j k then some v else old)
written k (remark t ∷ ls) old = written k ls old

split_lines-Avoids :
    (a rest : Text) → Avoids 10 a → split_lines (a ++ 10 ∷ rest) ≡ a ∷ split_lines rest
unfolding split_lines
split_lines-Avoids [] rest h = refl
split_lines-Avoids (c ∷ a) rest h = ground (arith, split_lines-Avoids a rest h.1)

split_field-Avoids : (k v : Text) → Avoids 58 k → split_field (k ++ 58 ∷ v) ≡ some (k, v)
unfolding split_field
split_field-Avoids [] v h = refl
split_field-Avoids (c ∷ k) v h = ground (arith, split_field-Avoids k v h.1)

split_field-remark : (t : Text) → Avoids 58 t → split_field (t ++ 13 ∷ []) ≡ none
unfolding split_field
split_field-remark [] h = refl
split_field-remark (c ∷ t) h = ground (arith, split_field-remark t h.1)

trim_right-return : (v : Text) → trim_right (v ++ 13 ∷ []) ≡ trim_right v
unfolding trim_right is_space
trim_right-return [] = refl
trim_right-return (c ∷ v) = ground (arith, trim_right-return v)

return_IsSpace : is_space 13 ≡ true
unfolding is_space
return_IsSpace = refl

-- The carriage return is space.
trim_space-return : (v : Text) → trim_space (v ++ 13 ∷ []) ≡ trim_space v
unfolding trim_left
trim_space-return [] = ground (arith, return_IsSpace)
trim_space-return (c ∷ v) = elim (Bool-cases (is_space c)) [
  | inl space ↦ ground (arith, space, trim_space-return v)
  | inr text ↦ ground (arith, text, trim_right-return (c ∷ v))
]

pub field_at-set_field :
    (k j : Text) (v : Text) (m : Fields)
    → field_at j (set_field k v m) ≡ (if segment_eq k j then some v else field_at j m)
field_at-set_field k j v [] = refl
field_at-set_field k j v ((i, w) ∷ m) =
    ground (
      arith,
      segment_eq_iff k j,
      segment_eq_iff i k,
      segment_eq_iff i j,
      field_at-set_field k j v m,
    )

Avoids-append : (d : ℕ) (a b : Text) → Avoids d a → Avoids d b → Avoids d (a ++ b)
Avoids-append d [] b h k = k
Avoids-append d (c ∷ a) b h k = (h.0, Avoids-append d a b h.1 k)

content_of-IsLine : (l : InfoLine) → IsLine l → Avoids 10 (content_of l)
content_of-IsLine (field j v) (h1, h2, h3, h4, h5, h6) = Avoids-append 10 j (58 ∷ v) h1 (refl, h3)
content_of-IsLine (remark t) h = h.0

split_lines-report :
    (l : InfoLine) (ls : List InfoLine)
    → IsLine l
    → split_lines (report (l ∷ ls)) ≡ (content_of l ++ 13 ∷ []) ∷ split_lines (report ls)
split_lines-report l ls h =
    ap split_lines (sym (append_assoc (content_of l) (13 ∷ []) (10 ∷ report ls)))
    ∙ split_lines-Avoids (content_of l ++ 13 ∷ []) (report ls)
        (Avoids-append 10 (content_of l) (13 ∷ []) (content_of-IsLine l h) (refl, tt))

read_line-found :
    (line k v : Text) (m : Fields)
    → split_field line ≡ some (k, v)
    → is_empty (trim_space k) ≡ false
    → read_line line m ≡ set_field (trim_space k) (trim_space v) m
unfolding read_line
read_line-found line k v m e h = ground (arith, e, h)

-- A line is read as it was written.
read_line-IsLine :
    (k : Text) (l : InfoLine) (m : Fields)
    → IsLine l
    → field_at k (read_line (content_of l ++ 13 ∷ []) m) ≡ written k (l ∷ []) (field_at k m)
unfolding read_line
read_line-IsLine k (remark t) m (h1, h2) = ground (arith, split_field-remark t h2)
read_line-IsLine k (field j v) m (h1, h2, h3, h4, h5, h6) =
    let cut : split_field ((j ++ 58 ∷ v) ++ 13 ∷ []) ≡ some (j, v ++ 13 ∷ []) =
      ap split_field (append_assoc j (58 ∷ v) (13 ∷ [])) ∙ split_field-Avoids j (v ++ 13 ∷ []) h2 in
    let value : trim_space (v ++ 13 ∷ []) ≡ v = trim_space-return v ∙ h6 in
    let read : read_line ((j ++ 58 ∷ v) ++ 13 ∷ []) m ≡ set_field j v m =
      read_line-found _ j (v ++ 13 ∷ []) m cut (ap is_empty h5 ∙ h4)
      ∙ (λ i. set_field (h5 i) (value i) m) in
    ap (field_at k) read ∙ field_at-set_field j k v m

written-one :
    (k : Text) (l : InfoLine) (ls : List InfoLine) (old : Option Text)
    → written k (l ∷ ls) old ≡ written k ls (written k (l ∷ []) old)
written-one k (field j v) ls old = refl
written-one k (remark t) ls old = refl

read_lines-report :
    (k : Text) (ls : List InfoLine) (m : Fields)
    → AreLines ls
    → field_at k (read_lines (split_lines (report ls)) m) ≡ written k ls (field_at k m)
unfolding read_lines read_line split_lines split_field
read_lines-report k [] m h = refl
read_lines-report k (l ∷ ls) m (h, hs) =
    let m' : Fields = read_line (content_of l ++ 13 ∷ []) m in
    ap (λ t. field_at k (read_lines t m)) (split_lines-report l ls h)
    ∙ read_lines-report k ls m' hs
    ∙ ap (written k ls) (read_line-IsLine k l m h)
    ∙ sym (written-one k l ls (field_at k m))

-- Whatever a server writes in the format of INFO, fields and remarks line by line, `Info` finds under
-- each key the value that was written last, and none under a key that was not written.
pub info-report :
    (ls : List InfoLine)
    → AreLines ls
    → (m : Fields) × (info (some (report ls)) ≡ some m)
      × ((k : Text) → field_at k m ≡ written k ls none)
unfolding info
info-report ls h = (read_lines (split_lines (report ls)) [], refl, λ k. read_lines-report k ls [] h)
