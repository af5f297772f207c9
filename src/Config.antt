-- ===== src/Config.antt =====
-- The configuration of the two programs, config/dashboard_config.go and config/fe_config.go, and how
-- `loadConfig` and `initLog` of cmd/dashboard/main.go and cmd/fe/main.go use it. The decoding of TOML
-- is another project's: it is a parameter.
pub mod Product
use pikamgr.Base.{
  ℕ, String, Bool, true, false, not, ◌&&◌, ◌||◌, List, [], ◌∷◌, Option, none, some, ◌==◌, codes,
  eqb, leb, if◌then◌else◌,
}
use pikamgr.Base.Int.{ℤ, pos, int_lt}
use pikamgr.Log.Logger.{l_program_flags, string_to_level}
use pikamgr.Log.Logger.Output.{Logger}

-- A duration is a number of nanoseconds.
pub record DashboardConfig : Type 0 where
  pub coordinator_name : String
  pub coordinator_addr : String
  pub coordinator_auth : String
  pub admin_addr : String
  pub product_name : String
  pub product_auth : String
  pub sentinel_client_timeout : ℤ
  pub sentinel_quorum : ℤ
  pub sentinel_parallel_syncs : ℤ
  pub sentinel_down_after : ℤ
  pub sentinel_failover_timeout : ℤ
  pub sentinel_notification_script : String
  pub sentinel_client_reconfig_script : String
  pub template_file_scan_dir : String
  pub template_file_scan_interval : ℤ
  pub log_print_screen : Bool
  pub log_file_path : String
  pub log_max_size : ℤ
  pub log_reserve_days : ℤ
  pub log_level : String

-- `\w`
abbrev pub is_word : ℕ → Bool
is_word c =
    (leb b'0' c && leb c b'9')
    || ((leb b'A' c && leb c b'Z') || ((leb b'a' c && leb c b'z') || eqb c b'_'))

-- `[\w\.\-]*$`
abbrev pub are_name_characters : List ℕ → Bool
are_name_characters [] = true
are_name_characters (c ∷ cs) = (is_word c || (eqb c b'.' || eqb c b'-')) && are_name_characters cs

-- `^\w[\w\.\-]*$`
abbrev pub matches_product : List ℕ → Bool
matches_product [] = false
matches_product (c ∷ cs) = is_word c && are_name_characters cs

unfoldable pub validate_product : String → Bool
validate_product name = matches_product (codes name)

-- `d <= 0`
abbrev pub is_unset : ℤ → Bool
is_unset d = not (int_lt (pos 0) d)

-- The error, if there is one.
unfoldable pub validate : DashboardConfig → Option String
unfolding validate_product
validate c =
    if c.coordinator_name == ""
    then some "invalid coordinator_name"
    else if c.coordinator_addr == ""
    then some "invalid coordinator_addr"
    else if c.admin_addr == ""
    then some "invalid admin_addr"
    else if c.product_name == "" || not (validate_product c.product_name)
    then some "invalid product_name"
    else if is_unset c.sentinel_client_timeout
    then some "invalid sentinel_client_timeout"
    else if is_unset c.sentinel_quorum
    then some "invalid sentinel_quorum"
    else if is_unset c.sentinel_parallel_syncs
    then some "invalid sentinel_parallel_syncs"
    else if is_unset c.sentinel_down_after
    then some "invalid sentinel_down_after"
    else if is_unset c.sentinel_failover_timeout
    then some "invalid sentinel_failover_timeout"
    else if c.template_file_scan_dir == ""
    then some "invalid template_file_scan_dir"
    else if is_unset c.template_file_scan_interval
    then some "invalid template_file_scan_interval"
    else none

pub record FeConfig : Type 0 where
  pub coordinator_name : String
  pub coordinator_addr : String
  pub coordinator_auth : String
  pub listen_addr : String
  pub assets_dir : String
  pub log_print_screen : Bool
  pub log_file_path : String
  pub log_max_size : ℤ
  pub log_reserve_days : ℤ
  pub log_level : String

unfoldable pub validate_fe : FeConfig → Option String
validate_fe c =
    if c.coordinator_name == ""
    then some "invalid coordinator_name"
    else if c.coordinator_addr == ""
    then some "invalid coordinator_addr"
    else if c.listen_addr == ""
    then some "invalid listen_addr"
    else if c.assets_dir == ""
    then some "invalid assets_dir"
    else none

-- A configuration, or the text of an error.
pub data Loaded (A : Type 0) : Type 0 where
  loaded : A → Loaded A
  refused : String → Loaded A

-- What a decoded file makes of a configuration: its error first, then that of `Validate`.
abbrev pub checked : {A : Type 0} → (A → Option String) → Loaded A → Loaded A
checked check (refused e) = refused e
checked check (loaded c) = elim (check c) [ none ↦ loaded c | some e ↦ refused e ]

-- `LoadFromFile`, with what `toml.DecodeFile` makes of the configuration that it is given.
unfoldable pub load_from_file :
    (DashboardConfig → Loaded DashboardConfig) → DashboardConfig → Loaded DashboardConfig
load_from_file decode c = checked validate (decode c)

unfoldable pub load_fe_from_file : (FeConfig → Loaded FeConfig) → FeConfig → Loaded FeConfig
load_fe_from_file decode c = checked validate_fe (decode c)

-- `New…DefaultConfig`, which panics on an error, and then `LoadFromFile`: `none` is the panic.
unfoldable pub load_config :
    (DashboardConfig → Loaded DashboardConfig)
    → (DashboardConfig → Loaded DashboardConfig)
    → DashboardConfig
    → Option (Loaded DashboardConfig)
unfolding load_from_file
load_config decode_default decode_file zero = elim (checked validate (decode_default zero)) [
  | refused e ↦ none
  | loaded c ↦ some (load_from_file decode_file c)
]

-- What `initLog` does to the standard logger once the file is open: its three settings.
unfoldable pub init_log : {Out : Type 0} → String → Out → Logger Out → Logger Out
init_log log_level writer l = record {
  level = string_to_level log_level;
  out = writer;
  flag = l_program_flags;
}
