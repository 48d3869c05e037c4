-- ===== src/Rmanager/Env.antt =====
-- rmanager/rman.go: the environment that the resource agent gets. `os.Setenv` changes the
-- environment of the resource manager itself, which every agent inherits.
use go_test_cluster.Prelude.{
  ℕ, suc, ◌+◌, ◌≡◌, ◌≢◌, refl, ap, List, [], ◌∷◌, ◌++◌, map, Option, none, some, arith, All, ltb,
  length, take, drop, ◌==◌, if◌then◌else◌, bytes_key, ◌∙◌, take-length,
}
use go_test_cluster.Prelude.Int.{pos}
use go_test_cluster.Prelude.Text.{Bytes, codes, bytes_eq}
use go_test_cluster.Prelude.Dict.{Dict, lookup, insert, lookup-insert}
use go_test_cluster.Message.{
  Parameter, parameter_text, parameters_to_string, parameters_to_string-take,
}

-- `strings.Index(s, "=")`, with `none` for -1.
unfoldable pub index_equals : Bytes → Option ℕ
index_equals [] = none
index_equals (b ∷ s) =
    let rest = index_equals s in
    if b == b'=' then some 0 else elim rest [ none ↦ none | some i ↦ some (suc i) ]

abbrev pub reskey : Bytes → Bytes
reskey name = codes "OCF_RESKEY_" ++ name

-- The loop body: `os.Setenv("OCF_RESKEY_" + p[:idx], p[idx+1:])` if `idx > 0`.
unfoldable pub set_parameter : Bytes → Dict Bytes Bytes → Dict Bytes Bytes
unfolding index_equals
set_parameter p env = elim (index_equals p) [
  | none ↦ env
  | some i ↦ if ltb 0 i then insert (reskey (take i p)) (drop (i + 1) p) env else env
]

-- The loop over `parameters`.
unfoldable pub set_parameters : List Bytes → Dict Bytes Bytes → Dict Bytes Bytes
set_parameters [] env = env
set_parameters (p ∷ ps) env = set_parameters ps (set_parameter p env)

-- The environment of the agent: OCF_ROOT, then the parameters.
unfoldable pub agent_env : List Bytes → Dict Bytes Bytes → Dict Bytes Bytes
unfolding set_parameters
agent_env ps env = set_parameters ps (insert (codes "OCF_ROOT") (codes "/usr/lib/ocf") env)

-- A name that survives the way through "name=value": it is not empty and holds no "=".
abbrev pub IsName : Bytes → Type 0
IsName n = (n ≢ []) × (index_equals n ≡ none)

index_equals-text :
    (n v : Bytes) → index_equals n ≡ none → index_equals (n ++ b'=' ∷ v) ≡ some (length n)
unfolding index_equals
index_equals-text [] v h = refl
index_equals-text (b ∷ n) v h = ground (arith, index_equals-text n v)

drop-text : (n v : Bytes) → drop (suc (length n)) (n ++ b'=' ∷ v) ≡ v
drop-text [] v = refl
drop-text (b ∷ n) v = drop-text n v

take-text : (n v : Bytes) → take (length n) (n ++ v) ≡ n
take-text [] v = refl
take-text (b ∷ n) v = ap (◌∷◌ b) (take-text n v)

set_parameter-text :
    (p : Parameter) (env : Dict Bytes Bytes)
    → IsName p.name
    → set_parameter (parameter_text p) env ≡ insert (reskey p.name) p.value env
unfolding set_parameter
set_parameter-text p env h = ground (
  arith,
  index_equals-text p.name p.value h.1,
  take-text p.name (b'=' ∷ p.value),
  drop-text p.name p.value,
)

-- The value that the last parameter of this name gives.
unfoldable pub last_value : Bytes → List Parameter → Option Bytes
last_value k [] = none
last_value k (p ∷ ps) =
    let rest = last_value k ps in
    elim rest [ none ↦ if bytes_eq (reskey p.name) k then some p.value else none | some v ↦ some v ]

lookup-set_parameters :
    (k : Bytes) (ps : List Parameter) (env : Dict Bytes Bytes)
    → All (λ p. IsName p.name) ps
    → lookup k (set_parameters (map parameter_text ps) env)
      ≡ elim (last_value k ps) [ none ↦ lookup k env | some v ↦ some v ]
unfolding last_value set_parameters
lookup-set_parameters k [] env h = refl
lookup-set_parameters k (p ∷ ps) env h = ground (
  arith,
  set_parameter-text p env h.0,
  lookup-insert (reskey p.name) k p.value env,
  lookup-set_parameters k ps (set_parameter (parameter_text p) env) h.1,
)

-- A request that states the right number of parameters, whose names are not empty and hold no "=",
-- goes over to the agent's environment: OCF_RESKEY_name has the value of the last parameter of
-- that name. Every other variable but OCF_ROOT is as it was in the resource manager, so the
-- parameters of earlier requests are still set.
pub agent_env-lookup :
    (k : Bytes) (ps : List Parameter) (env : Dict Bytes Bytes)
    → All (λ p. IsName p.name) ps
    → (ts : List Bytes) × (parameters_to_string (pos (length ps)) ps ≡ some ts)
      × (lookup k (agent_env ts env) ≡ elim (last_value k ps) [
        | none ↦ if bytes_eq (codes "OCF_ROOT") k then some (codes "/usr/lib/ocf") else lookup k env
        | some v ↦ some v
      ])
unfolding agent_env
agent_env-lookup k ps env h = (
  map parameter_text ps,
  parameters_to_string-take (pos (length ps)) ps ∙ rw (take-length ps) (ground arith),
  ground (
    arith,
    lookup-set_parameters k ps (insert (codes "OCF_ROOT") (codes "/usr/lib/ocf") env) h,
    lookup-insert (codes "OCF_ROOT") k (codes "/usr/lib/ocf") env,
  ),
)
