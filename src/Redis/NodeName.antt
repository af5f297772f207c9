-- ===== src/Redis/NodeName.antt =====
-- The names under which the sentinels know the groups of a product: `NodeName` and `isSameProduct`
-- of topom/client/redis/sentinel.go.
use Prim.Native.Char.{code}
use Prim.Native.String as Text
use text.Mathlib.TextLemmas.{
  nil-append, cons-append, append_assoc, append-ne-nil_of_right_ne-nil, append-eq-nil_iff,
}
use pikamgr.Base.{
  String, Option, none, some, ◌≡◌, refl, ◌≢◌, ap, ◌∙◌, arith, eqb, eqb_iff, if◌then◌else◌,
}

unfoldable pub node_name : String → String → String
node_name product group = Text.◌++◌ product (Text.◌++◌ "-" group)

-- `strings.HasPrefix` and the slice behind the prefix.
unfoldable pub strip_prefix : String → String → Option String
strip_prefix String.[] s = some s
strip_prefix (String.◌∷◌ c p) String.[] = none
strip_prefix (String.◌∷◌ c p) (String.◌∷◌ d s) =
    let rest = strip_prefix p s in if eqb (code c) (code d) then rest else none

-- A dash and something behind it.
unfoldable pub after_dash : String → Option String
after_dash String.[] = none
after_dash (String.◌∷◌ c String.[]) = none
after_dash (String.◌∷◌ c (String.◌∷◌ d s)) =
    if eqb (code c) b'-' then some (String.◌∷◌ d s) else none

unfoldable pub is_same_product : String → String → Option String
is_same_product product name = elim (strip_prefix product name) [
  | none ↦ none
  | some suffix ↦ after_dash suffix
]

strip_prefix-append : (p s : String) → strip_prefix p (Text.◌++◌ p s) ≡ some s
unfolding strip_prefix
strip_prefix-append String.[] s = rw nil-append
strip_prefix-append (String.◌∷◌ c p) s =
    rw cons-append (ground (arith, strip_prefix-append p s, (eqb_iff (code c) (code c)).1 refl))

after_dash-append : (s : String) → s ≢ "" → after_dash (Text.◌++◌ "-" s) ≡ some s
unfolding after_dash
after_dash-append String.[] h = absurd (h refl)
after_dash-append (String.◌∷◌ c s) h = rw cons-append (rw nil-append refl)

-- The sentinels' name of a group leads back to the group, for every name but the empty one.
pub is_same_product-node_name :
    (product group : String)
    → group ≢ ""
    → is_same_product product (node_name product group) ≡ some group
unfolding is_same_product node_name
is_same_product-node_name product group h =
    ground (arith, strip_prefix-append product (Text.◌++◌ "-" group), after_dash-append group h)

node_name_assoc :
    (product more group : String)
    → node_name (node_name product more) group ≡ node_name product (node_name more group)
unfolding node_name
node_name_assoc product more group =
    append_assoc product (Text.◌++◌ "-" more) (Text.◌++◌ "-" group)
    ∙ ap (λ t. Text.◌++◌ product t) (append_assoc "-" more (Text.◌++◌ "-" group))

dash-ne-nil : ◌≢◌ {A = String} "-" ""
dash-ne-nil e = cc e

node_name-ne-nil : (product group : String) → node_name product group ≢ ""
unfolding node_name
node_name-ne-nil product group =
    append-ne-nil_of_right_ne-nil product (λ e. append-ne-nil_of_left group e)
  where
    append-ne-nil_of_left : (g : String) → Text.◌++◌ "-" g ≢ ""
    append-ne-nil_of_left g e = dash-ne-nil ((append-eq-nil_iff {p = "-"} {q = g}).0 e).0

-- A product whose name is that of another with a dash and more behind it has its groups taken for
-- groups of the shorter product.
pub is_same_product-extended :
    (product more group : String)
    → is_same_product product (node_name (node_name product more) group)
      ≡ some (node_name more group)
is_same_product-extended product more group =
    ap (is_same_product product) (node_name_assoc product more group)
    ∙ is_same_product-node_name product (node_name more group) (node_name-ne-nil more group)
