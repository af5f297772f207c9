-- ===== src/Redis/Info.antt =====
-- What a server reports, topom/client/redis/client.go: the text of INFO, and the cache of what was
-- parsed. A text is the list of its code points.
pub mod Written
pub mod Full
pub mod Cached
use pikamgr.Base.{
  ℕ, Bool, true, false, ◌&&◌, ◌||◌, List, [], ◌∷◌, ◌++◌, Option, none, some, eqb, leb, is_empty,
  if◌then◌else◌, codes,
}
use pikamgr.Coordinate.{segment_eq}

abbrev pub Text : Type 0
Text = List ℕ

-- `map[string]string`
abbrev pub Fields : Type 0
Fields = List (Text × Text)

abbrev pub field_at : Text → Fields → Option Text
field_at k [] = none
field_at k ((j, v) ∷ m) = if segment_eq j k then some v else field_at k m

abbrev pub set_field : Text → Text → Fields → Fields
set_field k v [] = (k, v) ∷ []
set_field k v ((j, w) ∷ m) = if segment_eq j k then (j, v) ∷ m else (j, w) ∷ set_field k v m

-- `unicode.IsSpace`
unfoldable pub is_space : ℕ → Bool
is_space c =
    (leb 9 c && leb c 13)
    || eqb c 32
    || eqb c 133
    || eqb c 160
    || eqb c 5760
    || (leb 8192 c && leb c 8202)
    || eqb c 8232
    || eqb c 8233
    || eqb c 8239
    || eqb c 8287
    || eqb c 12288

unfoldable pub trim_left : Text → Text
trim_left [] = []
trim_left (c ∷ cs) = let rest = trim_left cs in if is_space c then rest else c ∷ cs

unfoldable pub trim_right : Text → Text
trim_right [] = []
trim_right (c ∷ cs) =
    let rest = trim_right cs in if is_empty rest && is_space c then [] else c ∷ rest

-- `strings.TrimSpace`
abbrev pub trim_space : Text → Text
trim_space cs = trim_right (trim_left cs)

abbrev pub add_to_line : ℕ → List Text → List Text
add_to_line c [] = (c ∷ []) ∷ []
add_to_line c (l ∷ ls) = (c ∷ l) ∷ ls

-- `strings.Split(text, "\n")`
unfoldable pub split_lines : Text → List Text
split_lines [] = [] ∷ []
split_lines (c ∷ cs) =
    let rest = split_lines cs in if eqb c 10 then [] ∷ rest else add_to_line c rest

-- `strings.SplitN(line, ":", 2)`, if it gives two parts.
unfoldable pub split_field : Text → Option (Text × Text)
split_field [] = none
split_field (c ∷ cs) =
    let rest = split_field cs in
    if eqb c 58 then some ([], cs) else elim rest [ none ↦ none | some (k, v) ↦ some (c ∷ k, v) ]

-- One round of the loop of `Info`.
unfoldable pub read_line : Text → Fields → Fields
read_line line info = elim (split_field line) [
  | none ↦ info
  | some (k, v) ↦
      if is_empty (trim_space k) then info else set_field (trim_space k) (trim_space v) info
]

unfoldable pub read_lines : List Text → Fields → Fields
read_lines [] info = info
read_lines (line ∷ lines) info = read_lines lines (read_line line info)

-- `Info`, with the answer to the command.
unfoldable pub info : Option Text → Option Fields
info none = none
info (some text) = some (read_lines (split_lines text) [])

-- `InfoCache`: what is kept of each server, by its address.
abbrev pub Cache : Type 0
Cache = List (Text × Fields)

unfoldable pub load : Text → Cache → Option Fields
load addr [] = none
load addr ((a, f) ∷ s) = if segment_eq a addr then some f else load addr s

abbrev pub put : Text → Fields → Cache → Cache
put addr f [] = (addr, f) ∷ []
put addr f ((a, g) ∷ s) = if segment_eq a addr then (a, f) ∷ s else (a, g) ∷ put addr f s

-- `store`: without fields, those that are there stay, and if there are none, an empty map is kept.
unfoldable pub store : Text → Option Fields → Cache → Fields × Cache
store addr (some f) s = (f, put addr f s)
store addr none s = elim (load addr s) [ none ↦ ([], put addr [] s) | some f ↦ (f, s) ]

-- `Get`, with what `getSlow` would find.
unfoldable pub get : Text → Option Fields → Cache → Fields × Cache
get addr found s = elim (load addr s) [ some f ↦ (f, s) | none ↦ store addr found s ]

abbrev pub or_empty : Option Text → Text
or_empty none = []
or_empty (some v) = v

-- `GetRunId`
unfoldable pub get_run_id : Text → Option Fields → Cache → Text × Cache
get_run_id addr found s =
    let (f, s') = get addr found s in (or_empty (field_at (codes "run_id") f), s')
