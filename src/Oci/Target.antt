-- ===== src/Oci/Target.antt =====
-- parse_oci_ref of crates/fluxion-host/src/oci.rs: which registry, repository and reference a text
-- names.
use fluxion.Prelude.{String, none, some, split_once, rsplit_once}
use fluxion.Outcome.{Outcome, ok, err}

pub record Target : Type 0 where
  pub registry : String
  pub repository : String
  pub reference : String

pub data TargetError : Type 0 where
  invalid_ref : String → TargetError

-- The first '@' counts, or else the last ':', or else the reference is "latest".
unfoldable pub split_reference : String → String → Target
split_reference registry rest = elim (split_once 0x40 rest) [
  | some (repo, reference) ↦ record {
    registry = registry;
    repository = repo;
    reference = reference;
  }
  | none ↦ elim (rsplit_once 0x3a rest) [
    | some (repo, tag) ↦ record { registry = registry; repository = repo; reference = tag }
    | none ↦ record { registry = registry; repository = rest; reference = "latest" }
  ]
]

unfoldable pub parse_oci_ref : String → Outcome TargetError Target
unfolding split_reference
parse_oci_ref oci_ref = elim (split_once 0x2f oci_ref) [
  | none ↦ err (invalid_ref oci_ref)
  | some (registry, rest) ↦ ok (split_reference registry rest)
]
