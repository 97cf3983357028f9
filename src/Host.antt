-- ===== src/Host.antt =====
-- crates/fluxion-host/src/lib.rs: what it gives to those that run a component, and the checks before.
pub mod Network
pub mod Allowlist
use fluxion.Prelude.{ℕ, String, Option, none, some, eq_ignore_ascii_case, if◌then◌else◌}
use fluxion.Outcome.{Outcome, ok, err, ◌>>=◌}
use fluxion.Expand.Defs.{or_error}
use fluxion.Scheduler.FanIn.{Bytes}

-- Times in nanoseconds.
pub record JobMetrics : Type 0 where
  pub compile : ℕ
  pub instantiate : ℕ
  pub execute : ℕ

-- What spawn_blocking gives: a result of the host, or the error of a task that panicked.
pub data Ran : Type 0 where
  returned : Bytes → JobMetrics → Ran
  failed joined : (error : String) → Ran

-- The digest of the file at `wasm_path` is the expected one, where one is expected.
module _ (read : String → Option Bytes) (sha256 : Bytes → String) where
  unfoldable pub verify_component_digest : String → Option String → Outcome String (Unit {0})
  unfolding eq_ignore_ascii_case
  verify_component_digest wasm_path none = ok tt
  verify_component_digest wasm_path (some expected) = do
    bytes ← or_error "failed to read" (read wasm_path)
    if eq_ignore_ascii_case (sha256 bytes) expected then ok tt else err "SHA-256 mismatch"
