-- ===== src/Debug.antt =====
-- debug/debug.go and envs/: the output that only a build with the tag `debug` makes. `fmt` is the
-- library's: a line is what it gets.
use go_test_cluster.Prelude.{Bool, true, false, List, [], ◌∷◌, ◌++◌, if◌then◌else◌, ◌≡◌, refl}
use go_test_cluster.Prelude.Text.{Bytes}

-- The build tag, and `DEBUG` in envs/envs_debug.go and in envs/envs_release.go.
pub data Build : Type 0 where
  debug release : Build

abbrev pub debug_of : Build → Bool
debug_of debug = true
debug_of release = false

-- What has been printed, call by call.
abbrev pub Output : Type 0
Output = List (List Bytes)

-- `Println`, whose arguments come as one slice.
unfoldable pub println : Bool → List Bytes → Output → Output
println dbg a out = if dbg then out ++ a ∷ [] else out

-- `Printf`
unfoldable pub printf : Bool → Bytes → List Bytes → Output → Output
printf dbg format a out = if dbg then out ++ (format ∷ a) ∷ [] else out

-- A release build prints nothing.
println-release : (a : List Bytes) (out : Output) → println (debug_of release) a out ≡ out
unfolding println
println-release a out = refl
