-- ===== src/Frontend/Routes.antt =====
-- Where a request is forwarded to.
use pikamgr.Base.{
  ℕ, String, Bool, true, false, ◌||◌, List, [], ◌∷◌, Option, none, some, Assoc, lookup, insert,
  lookup-insert, mem_name, mem_name-keys, ◌==◌, eq_iff, ◌≡◌, refl, ap, ◌∙◌, arith, if◌then◌else◌,
  Bool-cases, inl, inr,
}
use pikamgr.Coordinate.{NodePath, topom_path}
use pikamgr.Frontend.{
  TopomRead, unread, missing, undecoded, found, load_product, load_products, dynamic_reload,
  ReverseProxy, add_routes, routes_of, is_fresh, reload, get_proxy, get_names,
}

-- The address that a node gives, if there is a record in it.
abbrev pub host_in : TopomRead → Option String
host_in (found t) = some t.admin_addr
host_in _ = none

abbrev pub or_else : {A : Type 0} → Option A → Option A → Option A
or_else none b = b
or_else (some a) b = some a

-- A name and an address that are both not empty.
abbrev pub routed : String → Option String → Option String
routed name none = none
routed name (some host) = if name == "" || host == "" then none else some host

or_else-twice : {A : Type 0} (a b : Option A) → or_else a (or_else a b) ≡ or_else a b
or_else-twice none b = refl
or_else-twice (some x) b = refl

lookup-load_product :
    (k product : String) (t : TopomRead) (m : Assoc String)
    → lookup k (load_product product t m)
      ≡ (if product == k then or_else (host_in t) (lookup k m) else lookup k m)
unfolding load_product
lookup-load_product k product unread m = ground arith
lookup-load_product k product missing m = ground arith
lookup-load_product k product undecoded m = ground arith
lookup-load_product k product (found t) m = lookup-insert product k t.admin_addr m

lookup-load_products :
    (read : NodePath → TopomRead) (k : String) (products : List String) (m : Assoc String)
    → lookup k (load_products read products m) ≡ (
        if mem_name k products
        then or_else (host_in (read (topom_path k))) (lookup k m)
        else lookup k m)
unfolding load_products
lookup-load_products read k [] m = refl
lookup-load_products read k (product ∷ products) m =
    let t : TopomRead = read (topom_path product) in
    let rest = lookup-load_products read k products (load_product product t m) in
    elim (Bool-cases (product == k)) [
      | inr other ↦ rest ∙ ground (arith, other, lookup-load_product k product t m)
      | inl same ↦
          let e : product ≡ k = (eq_iff product k).0 same in
          let here : lookup k (load_product product t m)
              ≡ or_else (host_in (read (topom_path k))) (lookup k m) =
            ground (
              arith,
              same,
              lookup-load_product k product t m,
              ap (λ n. host_in (read (topom_path n))) e,
            ) in
          rest
          ∙ ground (arith, same, here, or_else-twice (host_in (read (topom_path k))) (lookup k m))
    ]

-- Each name of a map stands once.
abbrev IsMap : Assoc String → Type 0
IsMap [] = Unit
IsMap ((k, v) ∷ m) = (lookup k m ≡ none) × IsMap m

insert-IsMap : (k v : String) (m : Assoc String) → IsMap m → IsMap (insert k v m)
insert-IsMap k v [] h = (refl, tt)
insert-IsMap k v ((j, w) ∷ m) (new, h) = elim (Bool-cases (j == k)) [
  | inl same ↦ rw same (new, h)
  | inr other ↦
      rw other (ground (arith, lookup-insert k j v m, eq_iff k j, eq_iff j k), insert-IsMap k v m h)
]

load_product-IsMap :
    (product : String) (t : TopomRead) (m : Assoc String)
    → IsMap m
    → IsMap (load_product product t m)
unfolding load_product
load_product-IsMap product unread m h = h
load_product-IsMap product missing m h = h
load_product-IsMap product undecoded m h = h
load_product-IsMap product (found t) m h = insert-IsMap product t.admin_addr m h

load_products-IsMap :
    (read : NodePath → TopomRead) (products : List String) (m : Assoc String)
    → IsMap m
    → IsMap (load_products read products m)
unfolding load_products
load_products-IsMap read [] m h = h
load_products-IsMap read (product ∷ products) m h =
    load_products-IsMap read products (load_product product (read (topom_path product)) m)
      (load_product-IsMap product (read (topom_path product)) m h)

lookup-add_routes :
    (k : String) (m routes : Assoc String)
    → IsMap m
    → lookup k (add_routes m routes) ≡ or_else (routed k (lookup k m)) (lookup k routes)
unfolding add_routes
lookup-add_routes k [] routes h = refl
lookup-add_routes k ((name, host) ∷ m) routes (new, h) =
    elim (Bool-cases (name == "" || host == "")) [
      | inl skipped ↦ ground (arith, skipped, new, lookup-add_routes k m routes h, eq_iff name k)
      | inr taken ↦ ground (
        arith,
        taken,
        new,
        lookup-add_routes k m (insert name host routes) h,
        lookup-insert name k host routes,
        eq_iff name k,
      )
    ]

-- Where the requests for a product should go: to the address in the node of its dashboard, if the
-- product is listed and the node can be read.
abbrev pub route_of : (NodePath → TopomRead) → Option (List String) → String → Option String
route_of read none k = none
route_of read (some products) k =
    if mem_name k products then routed k (host_in (read (topom_path k))) else none

abbrev pub is_routed : Option String → Bool
is_routed none = false
is_routed (some host) = true

routed-if :
    (k : String) (b : Bool) (a : Option String)
    → or_else (routed k (if b then or_else a none else none)) none
      ≡ (if b then routed k a else none)
routed-if k true none = refl
routed-if k true (some host) = ground arith
routed-if k false a = refl

lookup-routes :
    (read : NodePath → TopomRead) (products : Option (List String)) (k : String)
    → lookup k (routes_of (dynamic_reload read products)) ≡ route_of read products k
unfolding dynamic_reload
lookup-routes read none k = refl
lookup-routes read (some products) k =
    lookup-add_routes k (load_products read products []) []
      (load_products-IsMap read products [] tt)
    ∙ ap (λ a. or_else (routed k a) none) (lookup-load_products read k products [])
    ∙ routed-if k (mem_name k products) (host_in (read (topom_path k)))

-- A request for the list at least five seconds after the last one: the names that are listed are
-- exactly those that are routed, and each goes where the coordinator says; if the coordinator
-- cannot be asked for the products, no name is routed any more.
pub get_names-routes :
    (read : NodePath → TopomRead) (products : Option (List String)) (k : String) (now : ℕ)
    (r : ReverseProxy)
    → is_fresh r.load_at now 5 ≡ false
    → let (names, r') = get_names now (dynamic_reload read products) r in
      (get_proxy k r' ≡ route_of read products k)
      × (mem_name k names ≡ is_routed (route_of read products k))
unfolding get_names reload get_proxy
get_names-routes read products k now r due =
    let routes : Assoc String = routes_of (dynamic_reload read products) in
    (
      ground (arith, due, lookup-routes read products k),
      ground (arith, due, lookup-routes read products k, mem_name-keys k routes),
    )
