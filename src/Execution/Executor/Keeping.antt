-- ===== src/Execution/Executor/Keeping.antt =====
-- Invariants of actions: what holds before holds after, however the action ends.
use google_meridian_mcp_serv.Prelude.{String, List, [], ◌∷◌, Option, none, some}
use google_meridian_mcp_serv.Persistence.Registry.{RegistryOps}
use google_meridian_mcp_serv.Execution.Platform.{Platform}
use google_meridian_mcp_serv.Execution.Executor.Step.{
  Settings, World, Outcome, done, raised, rejected, attribute_error, Action, continue, ◌then_do◌,
}
use google_meridian_mcp_serv.Execution.Executor.Recovery.{each, each_listed}

abbrev pub Keeps : {W : Type 0} → (W → Type 0) → (W → Outcome × W) → Type 0
Keeps {W} I m = (w : W) → I w → I (m w).1

module _ {W : Type 0} (I : W → Type 0) where
  Keeps-continue :
      (r : Outcome) (n : W → Outcome × W) (w : W) → Keeps I n → I w → I (continue r n w).1
  Keeps-continue done n w kn h = kn w h
  Keeps-continue (raised e) n w kn h = h
  Keeps-continue rejected n w kn h = h
  Keeps-continue attribute_error n w kn h = h

  pub Keeps-then_do : (m n : W → Outcome × W) → Keeps I m → Keeps I n → Keeps I (◌then_do◌ m n)
  Keeps-then_do m n km kn w h = Keeps-continue (m w).0 n (m w).1 kn (km w h)

module _ (R : RegistryOps) (P : Platform) (cfg : Settings) (I : World R P → Type 0) where
  pub Keeps-each :
      (body : String → Action R P) (ids : List String)
      → ((j : String) → Keeps I (body j))
      → Keeps I (each R P cfg body ids)
  unfolding each
  Keeps-each body [] k w h = h
  Keeps-each body (j ∷ ids) k w h =
      Keeps-then_do I (body j) (each R P cfg body ids) (k j) (Keeps-each body ids k) w h

  pub Keeps-each_listed :
      (body : String → Action R P) (ids : Option (List String))
      → ((j : String) → Keeps I (body j))
      → Keeps I (each_listed R P cfg body ids)
  Keeps-each_listed body none k w h = h
  Keeps-each_listed body (some ids) k w h = Keeps-each body ids k w h
