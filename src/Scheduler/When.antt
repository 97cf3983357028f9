-- ===== src/Scheduler/When.antt =====
-- eval_when of crates/fluxion-host/src/scheduler.rs, and the functions on texts that it calls.
use fluxion.Prelude.{
  split_once, rsplit_once, trim_matches, String, Map, Option, none, some, Bool, true, not, ◌==◌,
  lookup, if◌then◌else◌,
}
use fluxion.State.{JobStatus, succeeded, failed, skipped}

pub record Condition : Type 0 where
  pub lhs : String
  pub op : String
  pub rhs : String

-- splitn(3, ' '), where it gives three parts.
unfoldable pub split_condition : String → Option Condition
unfolding split_once trim_matches
split_condition expr = elim (split_once 0x20 expr) [
  | none ↦ none
  | some (lhs, rest) ↦ elim (split_once 0x20 rest) [
    | none ↦ none
    | some (op, rhs) ↦ some (record { lhs = lhs; op = op; rhs = trim_matches 0x27 rhs })
  ]
]

abbrev pub status_text : Option JobStatus → String
status_text (some (succeeded elapsed)) = "SUCCESS"
status_text (some (failed elapsed reason)) = "FAILED"
status_text (some skipped) = "SKIPPED"
status_text _ = "UNKNOWN"

abbrev pub holds : String → String → String → Bool
holds op status rhs =
    if op == "==" then status == rhs else if op == "!=" then not (status == rhs) else true

-- Is the job to run? What is not understood counts as true.
unfoldable pub eval_when : String → Map JobStatus → Bool
unfolding split_condition rsplit_once
eval_when expr statuses = elim (split_condition expr) [
  | none ↦ true
  | some c ↦ elim (rsplit_once 0x2e c.lhs) [
    | none ↦ true
    | some (job_id, attr) ↦
        if attr == "status" then holds c.op (status_text (lookup job_id statuses)) c.rhs else true
  ]
]
