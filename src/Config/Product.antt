-- ===== src/Config/Product.antt =====
-- A product name that the configuration accepts is one plain segment of a path.
use pikamgr.Base.{
  ℕ, String, true, List, [], ◌∷◌, Option, Option-cases, none, some, ◌≡◌, ◌≢◌, subst, arith, codes,
  inl, inr,
}
use pikamgr.Coordinate.{group_path, gslb_path, sentinel_path, topom_path}
use pikamgr.Coordinate.Apart.{group_path-alone}
use pikamgr.Coordinate.Plain.{IsPlain}
use pikamgr.Coordinate.Paths.{IsBaseName}
use pikamgr.Config.{
  DashboardConfig, Loaded, loaded, refused, are_name_characters, matches_product, validate_product,
  validate, checked, load_from_file, load_config,
}

are_name_characters-IsPlain : (cs : List ℕ) → are_name_characters cs ≡ true → IsPlain cs
are_name_characters-IsPlain [] h = tt
are_name_characters-IsPlain (c ∷ cs) h =
    (ground (arith, h), are_name_characters-IsPlain cs (ground (arith, h)))

matches_product-IsPlain : (cs : List ℕ) → matches_product cs ≡ true → IsPlain cs
matches_product-IsPlain [] h = tt
matches_product-IsPlain (c ∷ cs) h =
    (ground (arith, h), are_name_characters-IsPlain cs (ground (arith, h)))

pub validate_product-IsBaseName : (name : String) → validate_product name ≡ true → IsBaseName name
unfolding validate_product
validate_product-IsBaseName name h = record {
  plain = matches_product-IsPlain (codes name) h;
  is_text = λ e. ground (arith, subst (λ n. matches_product (codes n) ≡ true) e h);
  not_here = λ e. ground (arith, subst (λ n. matches_product (codes n) ≡ true) e h);
  not_up = λ e. ground (arith, subst (λ n. matches_product (codes n) ≡ true) e h);
}

validate-IsBaseName : (c : DashboardConfig) → validate c ≡ none → IsBaseName c.product_name
unfolding validate
validate-IsBaseName c h = validate_product-IsBaseName c.product_name (ground (arith, h))

checked-loaded :
    {A : Type 0} (check : A → Option String) (d : Loaded A) (c : A)
    → checked check d ≡ loaded c
    → check c ≡ none
checked-loaded check (refused e) c h = absurd (ground arith)
checked-loaded check (loaded d) c h = elim (Option-cases (check d)) [
  | inl fine ↦ ground arith
  | inr (e, bad) ↦ absurd (ground arith)
]

pub load_config-alone :
    (decode_default decode_file : DashboardConfig → Loaded DashboardConfig)
    (blank c : DashboardConfig) (group other gslb : String)
    → load_config decode_default decode_file blank ≡ some (loaded c)
    → IsPlain (codes group)
    → IsPlain (codes other)
    → IsPlain (codes gslb)
    → group ≢ other
    → (group_path c.product_name group ≢ group_path c.product_name other)
      × (group_path c.product_name group ≢ gslb_path gslb c.product_name)
      × (group_path c.product_name group ≢ sentinel_path c.product_name)
      × (group_path c.product_name group ≢ topom_path c.product_name)
unfolding load_config load_from_file
load_config-alone decode_default decode_file blank c group other gslb h p q r differ =
    group_path-alone c.product_name group other gslb
      (validate-IsBaseName c (of_loaded (checked validate (decode_default blank)) decode_file c h))
      p q r differ
  where
    of_loaded :
        (d : Loaded DashboardConfig) (decode : DashboardConfig → Loaded DashboardConfig)
        (c : DashboardConfig)
        → elim d [ refused e ↦ none | loaded b ↦ some (load_from_file decode b) ] ≡ some (loaded c)
        → validate c ≡ none
    of_loaded (refused e) decode c h = absurd (ground arith)
    of_loaded (loaded b) decode c h = checked-loaded validate (decode b) c (ground arith)
