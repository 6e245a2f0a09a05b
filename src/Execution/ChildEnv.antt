-- ===== src/Execution/ChildEnv.antt =====
-- The environment and the command of a worker process: execution/base_subprocess.py. The server's own
-- environment, its process id as a text, and `sys.executable` are arguments.
use google_meridian_mcp_serv.Prelude.{String, Option, none, some, List, [], ◌∷◌, ◌++◌, ◌≡◌, ◌∙◌}
use google_meridian_mcp_serv.Prelude.Dict.{
  Dict, lookup, insert, lookup-insert_self, lookup-insert_ne,
}

abbrev pub worker_module : String
worker_module = "google_meridian_mcp_server.execution.worker"

abbrev pub meridian_backend : String
meridian_backend = "jax"

abbrev pub hygiene_defaults : Dict String
hygiene_defaults = ("TF_NUM_INTRAOP_THREADS", "2") ∷ ("TF_NUM_INTEROP_THREADS", "2") ∷ []

abbrev pub hygiene_overrides : Dict String
hygiene_overrides =
    ("TF_CPP_MIN_LOG_LEVEL", "3")
    ∷ ("MERIDIAN_BACKEND", meridian_backend)
    ∷ ("MERIDIAN_ENABLE_JAX_X64", "true")
    ∷ []

-- `env.setdefault(k, v)`
abbrev pub set_default : String → String → Dict String → Dict String
set_default k v env = elim (lookup k env) [ none ↦ insert k v env | some w ↦ env ]

abbrev pub set_defaults : Dict String → Dict String → Dict String
set_defaults [] env = env
set_defaults ((k, v) ∷ d) env = set_defaults d (set_default k v env)

-- `env.update(d)`
abbrev pub update_env : Dict String → Dict String → Dict String
update_env [] env = env
update_env ((k, v) ∷ d) env = update_env d (insert k v env)

-- `extra` that is empty adds nothing.
abbrev pub update_given : Option (Dict String) → Dict String → Dict String
update_given none env = env
update_given (some extra) env = update_env extra env

-- `child_env`
unfoldable pub child_env :
    (environ env_base : Dict String) → (pid : String) → (extra : Option (Dict String)) → Dict String
child_env environ env_base pid extra = update_given extra (
    insert "MERIDIAN_PARENT_PID" pid
      (update_env env_base (update_env hygiene_overrides (set_defaults hygiene_defaults environ))))

abbrev pub argv_prefix : (executable : String) → List String → List String
argv_prefix executable [] = executable ∷ "-m" ∷ worker_module ∷ []
argv_prefix executable (arg ∷ prefix) = arg ∷ prefix

-- `worker_argv`
unfoldable pub worker_argv : (executable : String) → (prefix args : List String) → List String
worker_argv executable prefix args = argv_prefix executable prefix ++ args

-- With no `env_base` and no `extra`, a worker runs on JAX whatever the server's environment says.
child_env_backend :
    (environ : Dict String) (pid : String)
    → lookup "MERIDIAN_BACKEND" (child_env environ [] pid none) ≡ some "jax"
unfolding child_env
child_env_backend environ pid =
    let env = set_defaults hygiene_defaults environ in
    let on_jax = insert "MERIDIAN_BACKEND" "jax" (insert "TF_CPP_MIN_LOG_LEVEL" "3" env) in
    let pinned = insert "MERIDIAN_ENABLE_JAX_X64" "true" on_jax in
    lookup-insert_ne "MERIDIAN_BACKEND" "MERIDIAN_PARENT_PID" pid pinned (λ e. absurd cc)
    ∙ lookup-insert_ne "MERIDIAN_BACKEND" "MERIDIAN_ENABLE_JAX_X64" "true" on_jax (λ e. absurd cc)
    ∙ lookup-insert_self "MERIDIAN_BACKEND" "jax" (insert "TF_CPP_MIN_LOG_LEVEL" "3" env)
