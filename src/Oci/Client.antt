-- ===== src/Oci/Client.antt =====
-- OciClient of crates/fluxion-host/src/oci.rs. The HTTP client, JSON, base64 and SHA-256 are
-- parameters; a registry is what it answers to a request, and the state that it is left in.
use text.Mathlib.Text.{starts_with}
use fluxion.Prelude.{
  ℕ, String, List, [], ◌∷◌, Option, none, some, Bool, ◌==◌, ◌&&◌, ◌||◌, length, leb, nat_eq,
  if◌then◌else◌, contains_char, strip_prefix, replace_char,
}
use fluxion.Outcome.{Outcome, ok, err, ◌>>=◌}
use fluxion.Workflow.Validate.{◌<>◌}
use fluxion.Expand.Defs.{or_error, get_or_else}
use fluxion.Scheduler.FanIn.{Bytes}
use fluxion.Oci.Target.{TargetError, parse_oci_ref}

pub data Method : Type 0 where
  get post put : Method

pub record Request : Type 0 where
  pub method : Method
  pub url : String
  pub headers : List (String × String)
  pub body : Bytes

pub record Response : Type 0 where
  pub status : ℕ
  pub location : Option String
  pub body : Bytes

pub record OciDescriptor : Type 0 where
  pub media_type : String
  pub digest : String
  pub size : ℕ

pub record OciManifest : Type 0 where
  pub schema_version : ℕ
  pub media_type : String
  pub config : OciDescriptor
  pub layers : List OciDescriptor

pub record Credentials : Type 0 where
  pub username : String
  pub password : String

pub data OciError : Type 0 where
  not_sent missing_location bad_status : (url : String) → OciError
  not_a_manifest not_serialized not_tags : OciError
  no_wasm_layer digest_mismatch : (repository : String) → OciError
  not_a_target : TargetError → OciError

pub record Crates : Type 1 where
  pub Registry : Type 0
  pub send : Registry → Request → Registry × Option Response
  pub manifest_from : Bytes → Option OciManifest
  pub manifest_to_vec : OciManifest → Option Bytes
  pub tags_from : Bytes → Option (Option (List String))
  pub base64 : String → String
  pub sha256_digest : Bytes → String

abbrev pub wasm_layer_type : String
wasm_layer_type = "application/vnd.wasm.content.layer.v0+wasm"

abbrev pub oci_manifest_type : String
oci_manifest_type = "application/vnd.oci.image.manifest.v1+json"

abbrev pub oci_config_type : String
oci_config_type = "application/vnd.oci.image.config.v1+json"

-- status.is_success()
abbrev pub is_success : ℕ → Bool
is_success status = leb 200 status && leb status 299

-- Only '+' and ':' are encoded.
unfoldable pub percent_encode : String → String
unfolding replace_char
percent_encode s = replace_char 0x3a "%3A" (replace_char 0x2b "%2B" s)

abbrev pub strip_sha256 : String → String
strip_sha256 d = get_or_else d (strip_prefix "sha256:" d)

-- manifest.layers.iter().find(..)
unfoldable pub find_wasm_layer : List OciDescriptor → Option OciDescriptor
find_wasm_layer [] = none
find_wasm_layer (l ∷ ls) =
    let rest = find_wasm_layer ls in if l.media_type == wasm_layer_type then some l else rest

module _ (c : Crates) (base_url : String) (credentials : Option Credentials) where
  open c use {Registry, send, manifest_from, manifest_to_vec, tags_from, base64, sha256_digest}

  -- What a call returns, with the registry as it is left.
  abbrev pub Call : Type 0 → Type 0
  Call A = Registry → Outcome OciError (A × Registry)

  abbrev pub basic_header : Credentials → String
  basic_header k = "Basic " <> base64 (k.username <> ":" <> k.password)

  abbrev pub add_auth : List (String × String) → List (String × String)
  add_auth headers = elim credentials [
    | none ↦ headers
    | some k ↦ ("authorization", basic_header k) ∷ headers
  ]

  unfoldable pub request : Method → String → List (String × String) → Bytes → Call Response
  request method url headers body s =
      let (s', answer) =
        send s (record { method = method; url = url; headers = add_auth headers; body = body }) in
      elim answer [ none ↦ err (not_sent url) | some r ↦ ok (r, s') ]

  -- A request whose answer has to be a success.
  unfoldable pub checked : Method → String → List (String × String) → Bytes → Call Response
  unfolding request
  checked method url headers body s = do
    (r, s') ← request method url headers body s
    if is_success r.status then ok (r, s') else err (bad_status url)

  unfoldable pub fetch_manifest : String → String → Call OciManifest
  unfolding checked
  fetch_manifest repository reference s = do
    (r, s') ←
        checked get (base_url <> "/v2/" <> repository <> "/manifests/" <> reference)
          (("accept", oci_manifest_type) ∷ []) [] s
    manifest ← or_error not_a_manifest (manifest_from r.body)
    ok (manifest, s')

  unfoldable pub fetch_blob : String → String → Call Bytes
  unfolding checked
  fetch_blob repository digest s = do
    (r, s') ← checked get (base_url <> "/v2/" <> repository <> "/blobs/" <> digest) [] [] s
    ok (r.body, s')

  -- The bytes of the first Wasm layer, if their digest is the one that the manifest gives.
  unfoldable pub pull : String → String → Call Bytes
  unfolding fetch_manifest fetch_blob find_wasm_layer
  pull repository reference s = do
    (manifest, s1) ← fetch_manifest repository reference s
    layer ← or_error (no_wasm_layer repository) (find_wasm_layer manifest.layers)
    (bytes, s2) ← fetch_blob repository layer.digest s1
    (if sha256_digest bytes == strip_sha256 layer.digest
        then ok (bytes, s2)
        else err (digest_mismatch repository))

  unfoldable pub list_tags : String → Call (List String)
  unfolding checked
  list_tags repository s = do
    (r, s') ← checked get (base_url <> "/v2/" <> repository <> "/tags/list") [] [] s
    tags ← or_error not_tags (tags_from r.body)
    ok (get_or_else [] tags, s')

  -- The upload's address: 202 and 201 are accepted, and a path is relative to the registry.
  unfoldable pub initiate : String → Call String
  unfolding request
  initiate repository s = do
    let init_url = base_url <> "/v2/" <> repository <> "/blobs/uploads/"
    (r, s') ← request post init_url [] [] s
    location ←
        (if nat_eq r.status 202 || nat_eq r.status 201
          then or_error (missing_location init_url) r.location
          else err (bad_status init_url))
    ok ((if starts_with location "http" then location else base_url <> location), s')

  abbrev pub put_url : String → String → String
  put_url upload_url digest =
      upload_url
      <> (if contains_char 0x3f upload_url then "" else "?")
      <> "&digest="
      <> percent_encode digest

  unfoldable pub push_blob : String → Bytes → Call (Unit {0})
  unfolding initiate checked percent_encode
  push_blob repository bytes s = do
    (upload_url, s1) ← initiate repository s
    (r, s2) ←
        checked put (put_url upload_url ("sha256:" <> sha256_digest bytes))
          (("content-type", "application/octet-stream") ∷ []) bytes s1
    ok (tt, s2)

  abbrev pub layer_of : Bytes → OciDescriptor
  layer_of bytes = record {
    media_type = wasm_layer_type;
    digest = "sha256:" <> sha256_digest bytes;
    size = length bytes;
  }

  -- The text "{}".
  abbrev pub config_bytes : Bytes
  config_bytes = 0x7b ∷ 0x7d ∷ []

  abbrev pub manifest_of : Bytes → OciManifest
  manifest_of bytes = record {
    schema_version = 2;
    media_type = oci_manifest_type;
    config = record {
      media_type = oci_config_type;
      digest = "sha256:" <> sha256_digest config_bytes;
      size = length config_bytes;
    };
    layers = layer_of bytes ∷ [];
  }

  -- The layer, the configuration and the manifest, in this order; the manifest's digest.
  unfoldable pub push : String → String → Bytes → Call String
  unfolding push_blob checked
  push repository reference wasm_bytes s = do
    (u, s1) ← push_blob repository wasm_bytes s
    (v, s2) ← push_blob repository config_bytes s1
    manifest_json ← or_error not_serialized (manifest_to_vec (manifest_of wasm_bytes))
    (r, s3) ←
        checked put (base_url <> "/v2/" <> repository <> "/manifests/" <> reference)
          (("content-type", oci_manifest_type) ∷ []) manifest_json s2
    ok ("sha256:" <> sha256_digest manifest_json, s3)

-- The functions that take a reference as a text, without credentials.
module _ (c : Crates) where
  abbrev target_or_error {ℓ} : {A : Type ℓ} → Outcome TargetError A → Outcome OciError A
  target_or_error (ok a) = ok a
  target_or_error (err e) = err (not_a_target e)
  target_or_error (Outcome.panic p) = Outcome.panic p

  unfoldable pub pull_ref : String → Call c "" none Bytes
  unfolding parse_oci_ref pull
  pull_ref oci_ref s = do
    t ← target_or_error (parse_oci_ref oci_ref)
    pull c ("https://" <> t.registry) none t.repository t.reference s

  unfoldable pub push_ref : String → Bytes → Call c "" none String
  unfolding parse_oci_ref push
  push_ref oci_ref wasm_bytes s = do
    t ← target_or_error (parse_oci_ref oci_ref)
    push c ("https://" <> t.registry) none t.repository t.reference wasm_bytes s
