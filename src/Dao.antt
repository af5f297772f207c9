-- ===== src/Dao.antt =====
-- The records that the dashboard keeps and stores: topom/dao. JSON encoding and decoding are not
-- modelled: the coordinator is taken to hold the encoded record itself (`Value`).
use pikamgr.Base.{
  ℕ, suc, String, Bool, List, [], ◌∷◌, Option, none, some, Assoc, ◌==◌, if◌then◌else◌,
}
use pikamgr.Base.Int.{ℤ}

-- `MAXGroupNameBytesLength`
abbrev pub max_group_name_length : ℕ
max_group_name_length = 32

pub record GroupServer : Type 0 where
  pub addr : String

-- The strings `Action…`; `other` is any further string that the coordinator may have held.
pub data ActionState : Type 0 where
  nothing preparing prepared finished : ActionState
  other : String → ActionState

pub record Promoting : Type 0 where
  pub index : ℕ
  pub state : ActionState

pub record Group : Type 0 where
  pub name : String
  pub servers : List GroupServer
  pub promoting : Promoting
  pub out_of_sync : Bool
  pub proxy_read_port : ℤ
  pub proxy_write_port : ℤ
  pub create_time : String

-- The value that a Go struct literal leaves in `Promoting`.
abbrev pub no_promotion : Promoting
no_promotion = record { index = 0; state = nothing }

unfoldable pub master_of : List GroupServer → String
master_of [] = ""
master_of (v ∷ vs) = v.addr

unfoldable pub get_master : Group → String
unfolding master_of
get_master g = master_of g.servers

unfoldable pub index_of : String → List GroupServer → Option ℕ
index_of addr [] = none
index_of addr (v ∷ vs) =
    let rest = index_of addr vs in
    if v.addr == addr then some 0 else elim rest [ none ↦ none | some i ↦ some (suc i) ]

-- `none` is the result -1.
unfoldable pub get_server_index : Group → String → Option ℕ
unfolding index_of
get_server_index g addr = index_of addr g.servers

-- The master of every group that has one.
unfoldable pub get_masters : Assoc Group → Assoc String
unfolding get_master
get_masters [] = []
get_masters ((k, g) ∷ groups) =
    let rest = get_masters groups in if get_master g == "" then rest else (k, get_master g) ∷ rest

pub record Sentinel : Type 0 where
  pub servers : List String
  pub out_of_sync : Bool

pub data ServeState : Type 0 where
  unavailable read write : ServeState

unfoldable pub serve_state_string : ServeState → String
serve_state_string unavailable = "Unavailable"
serve_state_string read = "Read"
serve_state_string write = "Write"

pub record GslbBackend : Type 0 where
  pub servers : List String
  pub port : ℤ

-- The field `Servers` of the Go struct is never set by the program; it is left out.
pub record GslbBackendGroup : Type 0 where
  pub name : String
  pub server_group : Assoc GslbBackend

pub record Gslb : Type 0 where
  pub name : String
  pub servers : List String
  pub monitors : List String
  pub backends : List GslbBackendGroup

pub record Topom : Type 0 where
  pub start_time : String
  pub admin_addr : String
  pub product_name : String
  pub pid : ℕ
  pub pwd : String
  pub sys : String

-- The field `MD5` keeps its name.
pub record TemplateFile : Type 0 where
  pub content : List ℕ
  pub md5 : List ℕ

-- What a node of the coordinator can hold.
pub data Value : Type 0 where
  group_value : Group → Value
  sentinel_value : Sentinel → Value
  gslb_value : Gslb → Value
  topom_value : Topom → Value
  file_value : List ℕ → Value
