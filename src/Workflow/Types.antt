-- ===== src/Workflow/Types.antt =====
-- crates/fluxion-core/src/workflow.rs: the workflow that a YAML file describes, with the defaults
-- and the accessors of its parts. Numbers of u32, u64 and usize are plain numbers here; a path is
-- its text.
use fluxion.Prelude.{ℕ, String, List, [], Option, none, Bool, Map, any, true, false}
use text.Mathlib.Text.{starts_with}

-- mTLS certificate paths.
pub record TlsConfig : Type 0 where
  pub cert : String
  pub key : String
  pub ca : String

pub data WorkerConfig : Type 0 where
  simple : String → WorkerConfig
  full : (url : String) (tls : Option TlsConfig) (weight : ℕ) → WorkerConfig

abbrev pub default_weight : ℕ
default_weight = 1

unfoldable pub worker_url : WorkerConfig → String
worker_url (simple s) = s
worker_url (full url tls weight) = url

unfoldable pub worker_tls : WorkerConfig → Option TlsConfig
worker_tls (simple s) = none
worker_tls (full url tls weight) = tls

unfoldable pub worker_weight : WorkerConfig → ℕ
worker_weight (simple s) = 1
worker_weight (full url tls weight) = weight

pub data ExecutorKind : Type 0 where
  local remote : ExecutorKind

pub data ReduceMode : Type 0 where
  concat json_array json_merge : ReduceMode
  custom : String → ReduceMode

pub record FilesystemPermission : Type 0 where
  pub read : List String
  pub write : List String

pub record NetworkPermission : Type 0 where
  pub allow : List String

-- An address is allowed if an entry of the list is a prefix of it.
unfoldable pub allows : NetworkPermission → String → Bool
allows p addr = any (λ h. starts_with addr h) p.allow

unfoldable pub is_deny_all : NetworkPermission → Bool
is_deny_all p = elim p.allow [ [] ↦ true | _ ↦ false ]

pub record ResourceLimits : Type 0 where
  pub memory_mb : ℕ
  pub timeout_secs : ℕ

abbrev pub default_limits : ResourceLimits
default_limits = record { memory_mb = 256; timeout_secs = 60 }

pub record PermissionSet : Type 0 where
  pub filesystem : FilesystemPermission
  pub network : NetworkPermission
  pub limits : ResourceLimits

abbrev pub default_permissions : PermissionSet
default_permissions = record {
  filesystem = record { read = []; write = [] };
  network = record { allow = [] };
  limits = default_limits;
}

pub record JobDefinition : Type 0 where
  pub component : String
  pub depends_on : List String
  pub input : Option String
  pub permissions : PermissionSet
  pub worker : Option String
  pub env : Map String
  pub when : Option String
  pub foreach : Option String
  pub input_from : Option String
  pub max_parallel : Option ℕ
  pub output_size_limit_mb : Option ℕ
  pub fail_fast : Bool
  pub component_sha256 : Option String
  pub reduce : Option ReduceMode
  pub executor : ExecutorKind
  pub async_dispatch : Bool
  pub oci_ref : Option String

pub record Workflow : Type 0 where
  pub name : String
  pub jobs : Map JobDefinition
  pub workers : List WorkerConfig
  pub max_parallel : Option ℕ
  pub workers_srv : Option String
