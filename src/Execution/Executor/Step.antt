-- ===== src/Execution/Executor/Step.antt =====
-- The state of an executor with the registry and the outside world, and actions that may raise.
use google_meridian_mcp_serv.Prelude.{ℕ, String, List}
use google_meridian_mcp_serv.Prelude.Dict.{Dict}
use google_meridian_mcp_serv.Domain.Errors.{McpError}
use google_meridian_mcp_serv.Persistence.Registry.{RegistryOps}
use google_meridian_mcp_serv.Execution.Platform.{Handle, Platform}

-- `AsyncSubprocessExecutor` and `CloudRunJobExecutor`.
pub data Tier : Type 0 where
  local_tier cloud_tier : Tier

-- The constructor's arguments. `stale` is `heartbeat_stale_seconds` in microseconds.
pub record Settings : Type 0 where
  pub tier : Tier
  pub max_parallel : ℕ
  pub stale : ℕ

pub record World (R : RegistryOps) (P : Platform) : Type 0 where
  pub registry : RegistryOps.Store R
  pub env : Platform.Env P
  pub handles : Dict Handle
  pub queue : List String
  pub watched : List String

-- How an action ends: normally, by an error of the program, or by a `PreconditionFailed`.
pub data Outcome : Type 0 where
  done : Outcome
  raised : McpError → Outcome
  rejected : Outcome
  attribute_error : Outcome

abbrev pub Action : RegistryOps → Platform → Type 0
Action R P = World R P → Outcome × World R P

module _ {W : Type 0} where
  abbrev pub continue : Outcome → (W → Outcome × W) → W → Outcome × W
  continue done n w = n w
  continue (raised e) n w = (raised e, w)
  continue rejected n w = (rejected, w)
  continue attribute_error n w = (attribute_error, w)

  infixr 5 ◌then_do◌
  abbrev pub ◌then_do◌ : (W → Outcome × W) → (W → Outcome × W) → W → Outcome × W
  ◌then_do◌ m n w = let (r, w') = m w in continue r n w'
