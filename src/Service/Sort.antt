-- ===== src/Service/Sort.antt =====
-- topom/sorter.go. `sort.Slice` may leave equal elements in any order, and a range over a map
-- yields its entries in any order: every outcome of the Go code is that of a stable sort of the
-- entries in some order, the order of the association list here.
pub mod Order
use pikamgr.Base.{ℕ, String, List, [], ◌∷◌, str_lt, if◌then◌else◌, Assoc, values, keys}
use pikamgr.Dao.{Group, TemplateFile}

insert_group : Group → List Group → List Group
insert_group g [] = g ∷ []
insert_group g (h ∷ hs) =
    if str_lt g.create_time h.create_time then h ∷ insert_group g hs else g ∷ h ∷ hs

sort_list : List Group → List Group
unfolding insert_group
sort_list [] = []
sort_list (g ∷ gs) = insert_group g (sort_list gs)

-- The groups, the latest first.
unfoldable pub sort_groups : Assoc Group → List Group
unfolding sort_list
sort_groups groups = sort_list (values groups)

insert_name : String → List String → List String
insert_name x [] = x ∷ []
insert_name x (y ∷ ys) = if str_lt y x then y ∷ insert_name x ys else x ∷ y ∷ ys

sort_names : List String → List String
unfolding insert_name
sort_names [] = []
sort_names (x ∷ xs) = insert_name x (sort_names xs)

unfoldable pub sort_template_files : Assoc TemplateFile → List String
unfolding sort_names
sort_template_files files = sort_names (keys files)
