-- ===== src/Frontend.antt =====
-- The front end, cmd/fe/main.go: it forwards a request to the dashboard of the product that the
-- request names.
pub mod Routes
use pikamgr.Base.{
  ℕ, ◌-◌, String, Bool, true, false, ◌||◌, List, [], ◌∷◌, Option, none, some, ltb, Assoc, lookup,
  insert, keys, ◌==◌, if◌then◌else◌,
}
use pikamgr.Coordinate.{NodePath, topom_path}
use pikamgr.Dao.{Topom}

-- What reading the node of a dashboard gives: an error, nil, data that is no record, or a record.
pub data TopomRead : Type 0 where
  unread missing undecoded : TopomRead
  found : Topom → TopomRead

unfoldable pub load_product : String → TopomRead → Assoc String → Assoc String
load_product product (found t) m = insert product t.admin_addr m
load_product product _ m = m

unfoldable pub load_products : (NodePath → TopomRead) → List String → Assoc String → Assoc String
load_products read [] m = m
load_products read (product ∷ products) m =
    load_products read products (load_product product (read (topom_path product)) m)

-- `DynamicLoader.Reload`, with the base names of the nodes that `List` finds.
unfoldable pub dynamic_reload :
    (NodePath → TopomRead) → Option (List String) → Option (Assoc String)
dynamic_reload read none = none
dynamic_reload read (some products) = some (load_products read products [])

-- `StaticLoader.Reload`, with the entries of the file, their names and addresses.
unfoldable pub static_entries : Assoc String → Assoc String → Assoc String
static_entries [] m = m
static_entries ((name, dashboard) ∷ list) m = static_entries list (insert name dashboard m)

unfoldable pub static_reload : Option (Assoc String) → Option (Assoc String)
static_reload none = none
static_reload (some list) = some (static_entries list [])

-- `ReverseProxy`: when it has loaded, if it ever has, and the host of each name.
pub record ReverseProxy : Type 0 where
  pub load_at : Option ℕ
  pub routes : Assoc String

abbrev pub new_reverse_proxy : ReverseProxy
new_reverse_proxy = record { load_at = none; routes = [] }

unfoldable pub add_routes : Assoc String → Assoc String → Assoc String
add_routes [] routes = routes
add_routes ((name, host) ∷ m) routes =
    add_routes m (if name == "" || host == "" then routes else insert name host routes)

abbrev pub routes_of : Option (Assoc String) → Assoc String
routes_of none = []
routes_of (some m) = add_routes m []

abbrev pub is_fresh : Option ℕ → ℕ → ℕ → Bool
is_fresh none now d = false
is_fresh (some t) now d = ltb (now - t) d

-- `reload`, with the time and what the loader would return. An error leaves no route.
unfoldable pub reload : ℕ → ℕ → Option (Assoc String) → ReverseProxy → ReverseProxy
reload d now loaded r =
    if is_fresh r.load_at now d then r else record { load_at = some now; routes = routes_of loaded }

-- `GetProxy`
unfoldable pub get_proxy : String → ReverseProxy → Option String
get_proxy name r = lookup name r.routes

-- `GetNames`, with the time in seconds.
unfoldable pub get_names : ℕ → Option (Assoc String) → ReverseProxy → List String × ReverseProxy
get_names now loaded r = let r' = reload 5 now loaded r in (keys r'.routes, r')
