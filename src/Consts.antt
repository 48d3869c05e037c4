-- ===== src/Consts.antt =====
-- consts/consts.go: process ids, return codes, the size of a read buffer, the status names.
use go_test_cluster.Prelude.{ℕ, ◌≡◌, ◌⊎◌, [], if◌then◌else◌, arith}
use go_test_cluster.Prelude.Int.{ℤ, pos, negsuc, int_eq}
use go_test_cluster.Prelude.Text.{Bytes, codes}

-- `ProcessId`: CONTROLLER_ID and RMANAGER_ID, by `iota` from 1.
abbrev pub controller_id : ℤ
controller_id = pos 1

abbrev pub rmanager_id : ℤ
rmanager_id = pos 2

-- The return codes CL_OK, CL_ERROR and CL_NOT_FORK.
abbrev pub cl_ok : ℤ
cl_ok = pos 0

abbrev pub cl_error : ℤ
cl_error = negsuc 0

abbrev pub cl_not_fork : ℤ
cl_not_fork = negsuc 1

abbrev pub buff_max : ℕ
buff_max = 1024

-- `StatusId`: STARTUP to OPERATIONAL, by `iota` from 1. They are untyped constants: on a channel
-- they are of type `int`, in the field `status` of type `StatusId`.
abbrev pub startup : ℤ
startup = pos 1

abbrev pub all_client_up : ℤ
all_client_up = pos 2

abbrev pub load_resource_setting : ℤ
load_resource_setting = pos 3

abbrev pub control_resource : ℤ
control_resource = pos 4

abbrev pub pending : ℤ
pending = pos 5

abbrev pub operational : ℤ
operational = pos 6

-- `ProcessId.String`
unfoldable pub process_text : ℤ → Bytes
process_text s =
    if int_eq s controller_id
    then codes "Controller"
    else if int_eq s rmanager_id
    then codes "Rmanager"
    else codes "Unknown"

-- `StatusId.String`; the source spells the last name without its T.
pub status_text : ℤ → Bytes
status_text s =
    if int_eq s startup
    then codes "STARTUP"
    else if int_eq s all_client_up
    then codes "ALL_CLIENT_UP"
    else if int_eq s load_resource_setting
    then codes "LOAD_RESOURCE_SETTING"
    else if int_eq s control_resource
    then codes "CONTROL_RESOURCE"
    else if int_eq s pending
    then codes "PENDING"
    else if int_eq s operational
    then codes "OPERAIONAL"
    else []

-- The names of the statuses tell them apart: two values with one name are equal, or both have
-- the empty name that a value outside STARTUP to OPERATIONAL gets.
pub status_text-injective :
    (a b : ℤ) → status_text a ≡ status_text b → (a ≡ b) ⊎ (status_text a ≡ [])
unfolding status_text
status_text-injective a b h = ground arith
