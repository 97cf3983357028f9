-- ===== src/Tests/References.antt =====
-- Tests of references to components, of the registry and of its client.
use fluxion.Prelude.{
  ℕ, suc, [], ◌∷◌, none, some, contains_char, All, strip_prefix, split_once, rsplit_once, ◌≡◌, ◌⊎◌,
  ◌≤◌, refl, sym, ap,
}
use fluxion.Outcome.{ok}
use fluxion.Expand.Defs.{get_or_else}
use fluxion.Registry.Reference.{
  OciRef, parse, split_digest, split_tag, split_repository, to_string_repr,
}
use fluxion.Registry.Roundtrip.{IsCanonical, parse-to_string_repr}
use fluxion.Registry.Entries.{RegistryEntry, Components, resolve, created}
use fluxion.Registry.Resolve.{IsRow, Matches, resolve-cases}
use fluxion.Oci.Target.{parse_oci_ref}
use fluxion.Oci.Targets.{parse_oci_ref-to_string_repr}
use fluxion.Oci.Client.{
  Crates, OciManifest, OciDescriptor, wasm_layer_type, oci_manifest_type, find_wasm_layer, request,
  checked, fetch_manifest, fetch_blob, pull,
}
use fluxion.Oci.Verified.{IsVerified, pull-IsVerified}

abbrev tagged : OciRef
tagged = record { registry = "h:5"; repository = "a/b"; tag = some "v1"; digest = none }

abbrev pinned : OciRef
pinned = record { registry = "h:5"; repository = "a/b"; tag = some "v1"; digest = some "sha256:ab" }

tagged-parse : parse "h:5/a/b:v1" ≡ ok tagged
unfolding parse split_digest split_tag split_repository split_once rsplit_once
tagged-parse = refl

pinned-IsCanonical : IsCanonical pinned
unfolding split_once
pinned-IsCanonical = record {
  host_slash = refl;
  host_at = refl;
  name_at = refl;
  name_colon = refl;
  tag_at = λ t e. ap (λ o. contains_char 0x40 (get_or_else "" o)) (sym e);
  tag_colon = λ t e. ap (λ o. contains_char 0x3a (get_or_else "" o)) (sym e);
}

parse-to_string_repr_example : parse "h:5/a/b:v1@sha256:ab" ≡ ok pinned
unfolding to_string_repr
parse-to_string_repr_example = parse-to_string_repr pinned pinned-IsCanonical

-- The tag is a part of the repository that is asked for.
parse_oci_ref-to_string_repr_example :
    parse_oci_ref "h:5/a/b:v1@sha256:ab"
    ≡ ok (record { registry = "h:5"; repository = "a/b:v1"; reference = "sha256:ab" })
unfolding to_string_repr
parse_oci_ref-to_string_repr_example = parse_oci_ref-to_string_repr pinned pinned-IsCanonical

abbrev row : ℕ → OciRef → RegistryEntry
row at r = record { id = "x"; oci_ref = r; wasm_path = "p.wasm"; created_at = at }

abbrev untagged : OciRef
untagged = record { registry = "h:5"; repository = "a/b"; tag = none; digest = some "sha256:ab" }

abbrev rows : Components
rows = row 1 untagged ∷ row 2 (record untagged { digest = some "sha256:cd" }) ∷ []

resolve-cases_example :
    ((e : RegistryEntry) × (resolve untagged rows ≡ some e)
      × IsRow e rows
      × Matches untagged e
      × All (λ x. Matches untagged x → created x ≤ created e) rows)
    ⊎ ((resolve untagged rows ≡ none) × All (λ x. ¬ Matches untagged x) rows)
resolve-cases_example = resolve-cases untagged rows

-- The row with another digest is found, since it is newer.
resolve-newer : resolve untagged rows ≡ some (row 2 (record untagged { digest = some "sha256:cd" }))
unfolding resolve
resolve-newer = refl

abbrev layer : OciDescriptor
layer = record { media_type = wasm_layer_type; digest = "sha256:ab"; size = 1 }

abbrev manifest : OciManifest
manifest = record {
  schema_version = 2;
  media_type = oci_manifest_type;
  config = layer;
  layers = layer ∷ [];
}

-- A registry that counts its requests, and answers each with the same byte.
abbrev crates : Crates
crates = record {
  Registry = ℕ;
  send = λ n r. (suc n, some (record { status = 200; location = none; body = 7 ∷ [] }));
  manifest_from = λ b. some manifest;
  manifest_to_vec = λ m. some [];
  tags_from = λ b. none;
  base64 = λ s. s;
  sha256_digest = λ b. "ab";
}

pull-done : pull crates "https://h" none "a/b" "v1" 0 ≡ ok (7 ∷ [], 2)
unfolding pull fetch_manifest fetch_blob checked request find_wasm_layer strip_prefix
pull-done = refl

pull-IsVerified_example : IsVerified crates "https://h" none "a/b" "v1" 0 (7 ∷ []) 2
pull-IsVerified_example = pull-IsVerified crates "https://h" none "a/b" "v1" 0 (7 ∷ []) 2 pull-done
