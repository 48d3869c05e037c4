-- ===== src/Recipe.antt =====
-- recipe/recipe.go and configure/config.go: the files that the program reads when it starts.
-- `ioutil.ReadFile` gives the file or an error; `json.Unmarshal` gives what it has filled in and
-- whether there was an error.
use go_test_cluster.Prelude.{Bool, List, [], Option, none, some, if◌then◌else◌}
use go_test_cluster.Prelude.Int.{ℤ, pos}
use go_test_cluster.Prelude.Text.{Bytes}
use go_test_cluster.Message.{Parameter}

pub record Operation : Type 0 where
  pub opname : Bytes
  pub timeout : ℤ
  pub interval : ℤ
  pub onfail : Bytes

pub record Resource : Type 0 where
  pub rscid : Bytes
  pub rsc_type : Bytes
  pub provider : Bytes
  pub name : Bytes
  pub params : List Parameter
  pub op : List Operation

-- `ClusterResources`; an `Order` is its one field, a resource id.
pub record ClusterResources : Type 0 where
  pub resources : List Resource
  pub start_orders : List Bytes
  pub stop_orders : List Bytes

abbrev pub no_resources : ClusterResources
no_resources = record { resources = []; start_orders = []; stop_orders = [] }

pub record ControlConfig : Type 0 where
  pub port : ℤ
  pub cluster_name : Bytes
  pub max_buffer : ℤ

abbrev pub no_config : ControlConfig
no_config = record { port = pos 0; cluster_name = []; max_buffer = pos 0 }

-- The two uses of encoding/json: what is there before, the file, and what is there after, with
-- whether there was an error.
pub record Files : Type 0 where
  pub read_file : Bytes → Option Bytes
  pub unmarshal_resources : Bytes → ClusterResources → ClusterResources × Bool
  pub unmarshal_config : Bytes → ControlConfig → ControlConfig × Bool

-- `recipe.New`: its result, nil being `none`, and the package's `instance` after it, which a failure
-- leaves as it is.
unfoldable pub recipe_new :
    Files → Bytes → Option ClusterResources → Option ClusterResources × Option ClusterResources
recipe_new f filename instance' =
    let current = elim instance' as (λ x. ClusterResources) [ none ↦ no_resources | some r ↦ r ] in
    elim (f.read_file filename) [
      | none ↦ (none, some current)
      | some file ↦
          let (filled, failed) = f.unmarshal_resources file current in
          if failed then (none, some filled) else (some filled, some filled)
    ]

-- `configure.New`: an error of `Unmarshal` is not looked at.
unfoldable pub configure_new : Files → Bytes → Option ControlConfig
configure_new f filename = elim (f.read_file filename) [
  | none ↦ none
  | some file ↦ some (f.unmarshal_config file no_config).0
]

-- `DumpResource` and `DumpConfig` print what a pointer points at; with nil they panic, `none`.
abbrev pub dump : {A : Type 0} → Option A → Option A
dump none = none
dump (some a) = some a
