-- ===== src/Oci/Verified.antt =====
-- What is pulled has the digest that its manifest gives.
use fluxion.Prelude.{
  String, List, [], ◌∷◌, ◌++◌, Option, none, some, true, false, ◌==◌, ◌⊎◌, ◌≤◌, ◌≡◌, refl, sym, ap,
  ◌∙◌, eq_iff, Bool-cases, inl, inr, All, arith, strip_prefix, strip_prefix_sound, if◌then◌else◌,
}
use fluxion.Outcome.{ok, err, Ensures, Ensures-bind, Ensures-value, Ensures-map, ◌>>=◌}
use fluxion.Workflow.Validate.{◌<>◌}
use fluxion.Expand.Defs.{or_error, get_or_else}
use fluxion.Scheduler.FanIn.{Bytes}
use fluxion.Oci.Client.{
  Crates, Credentials, get, Request, Response, OciDescriptor, OciManifest, OciError, checked,
  request, add_auth, fetch_manifest, fetch_blob, find_wasm_layer, strip_sha256, pull, no_wasm_layer,
  not_sent, bad_status, is_success, wasm_layer_type, not_a_manifest,
}

-- The layer is the first of its list that has the media type of Wasm.
abbrev pub IsFirstWasm : OciDescriptor → List OciDescriptor → Type 0
IsFirstWasm layer layers =
    (before after : List OciDescriptor) × (layers ≡ before ++ layer ∷ after)
    × (layer.media_type ≡ "application/vnd.wasm.content.layer.v0+wasm")
    × All (λ (l : OciDescriptor). ¬ (l.media_type ≡ "application/vnd.wasm.content.layer.v0+wasm"))
        before

find_wasm_layer-IsFirstWasm :
    (layers : List OciDescriptor) (e : OciError)
    → Ensures (λ layer. IsFirstWasm layer layers) (or_error e (find_wasm_layer layers))
unfolding find_wasm_layer
find_wasm_layer-IsFirstWasm [] e = tt
find_wasm_layer-IsFirstWasm (l ∷ ls) e = elim (Bool-cases (l.media_type == wasm_layer_type)) [
  | inl i ↦ rw (i, Ensures) ([], ls, refl, (eq_iff _ _).0 i, tt)
  | inr i ↦ rw i (
      Ensures-map _ _ (or_error e (find_wasm_layer ls))
        (λ layer (before, after, split, type, others). (
          l ∷ before,
          after,
          ap (λ t. l ∷ t) split,
          type,
          (
            λ same.
                let no : true ≡ false = sym ((eq_iff l.media_type wasm_layer_type).1 same) ∙ i in
                absurd (cc no),
            others,
          ),
        ))
        (find_wasm_layer-IsFirstWasm ls e))
]

module _ (c : Crates) (base_url : String) (credentials : Option Credentials) where
  -- The registry answers a GET of the URL with success.
  abbrev pub Answers : String → c.Registry → Response × c.Registry → Type 0
  Answers url s (r, s') =
      (headers : List (String × String)) × (c.send s
          (record { method = get; url = url; headers = headers; body = [] })
        ≡ (s', some r))
      × (200 ≤ r.status)
      × (r.status ≤ 299)

  checked-Answers :
      (url : String) (headers : List (String × String)) (s : c.Registry)
      → Ensures (Answers url s) (checked c base_url credentials get url headers [] s)
  unfolding checked request
  checked-Answers url headers s = by (c.send s req) refl
    where
      req : Request
      req = record {
        method = get;
        url = url;
        headers = add_auth c base_url credentials headers;
        body = [];
      }

      by :
          (sent : c.Registry × Option Response)
          → c.send s req ≡ sent
          → Ensures (Answers url s) (
              (elim sent.1 [ none ↦ err (not_sent url) | some r ↦ ok (r, sent.0) ]) >>= λ (r, s').
              if is_success r.status then ok (r, s') else err (bad_status url))
      by (s', none) e = tt
      by (s', some r) e = elim (Bool-cases (is_success r.status)) [
        | inl i ↦
            rw (i, Ensures) (add_auth c base_url credentials headers, e, ground arith, ground arith)
        | inr i ↦ rw (i, Ensures) tt
      ]

  abbrev IsManifest : String → String → c.Registry → OciManifest × c.Registry → Type 0
  IsManifest repository reference s (m, s1) =
      (r : Response) × Answers (base_url <> "/v2/" <> repository <> "/manifests/" <> reference) s
        (r, s1)
      × (c.manifest_from r.body ≡ some m)

  abbrev IsBlob : String → String → c.Registry → Bytes × c.Registry → Type 0
  IsBlob repository digest s (bytes, s2) =
      (r : Response) × Answers (base_url <> "/v2/" <> repository <> "/blobs/" <> digest) s (r, s2)
      × (r.body ≡ bytes)

  fetch_manifest-Answers :
      (repository reference : String) (s : c.Registry)
      → Ensures
          (IsManifest repository reference s)
          (fetch_manifest c base_url credentials repository reference s)
  unfolding fetch_manifest
  fetch_manifest-Answers repository reference s =
      let url = base_url <> "/v2/" <> repository <> "/manifests/" <> reference in
      Ensures-bind (Answers url s) _ _ _ (checked-Answers url _ s) λ (r, s1) a.
        Ensures-bind (λ m. c.manifest_from r.body ≡ some m) _ _ _ (found (c.manifest_from r.body))
          λ m e. (r, a, e)
    where
      found : (o : Option OciManifest) → Ensures (λ m. o ≡ some m) (or_error not_a_manifest o)
      found none = tt
      found (some m) = refl

  fetch_blob-Answers :
      (repository digest : String) (s : c.Registry)
      → Ensures (IsBlob repository digest s) (fetch_blob c base_url credentials repository digest s)
  unfolding fetch_blob
  fetch_blob-Answers repository digest s =
      let url = base_url <> "/v2/" <> repository <> "/blobs/" <> digest in
      Ensures-bind (Answers url s) _ _ _ (checked-Answers url _ s) λ (r, s2) a. (r, a, refl)

  -- The digest of a layer, with or without the name of the algorithm.
  abbrev pub IsDigest : String → Bytes → Type 0
  IsDigest digest bytes =
      (digest ≡ "sha256:" <> c.sha256_digest bytes) ⊎ (digest ≡ c.sha256_digest bytes)

  -- A registry answered, with success, the requests for the manifest of the reference and for the
  -- blob of the first Wasm layer of this manifest; the bytes are that blob and have its digest.
  abbrev pub IsVerified : String → String → c.Registry → Bytes → c.Registry → Type 0
  IsVerified repository reference s bytes s2 =
      (answer : Response) × (blob : Response) × (manifest : OciManifest) × (s1 : c.Registry)
      × (layer : OciDescriptor) × Answers
          (base_url <> "/v2/" <> repository <> "/manifests/" <> reference) s (answer, s1)
      × (c.manifest_from answer.body ≡ some manifest)
      × IsFirstWasm layer manifest.layers
      × Answers (base_url <> "/v2/" <> repository <> "/blobs/" <> layer.digest) s1 (blob, s2)
      × (blob.body ≡ bytes)
      × IsDigest layer.digest bytes

  stripped-IsDigest :
      (digest : String) (bytes : Bytes)
      → c.sha256_digest bytes ≡ strip_sha256 digest
      → IsDigest digest bytes
  stripped-IsDigest digest bytes e = by (strip_prefix "sha256:" digest) refl
    where
      by : (o : Option String) → strip_prefix "sha256:" digest ≡ o → IsDigest digest bytes
      by none k = inr (sym (e ∙ ap (get_or_else digest) k))
      by (some t) k = inl (
          strip_prefix_sound "sha256:" digest t k
          ∙ ap (λ x. "sha256:" <> x) (sym (e ∙ ap (get_or_else digest) k)))

  -- If bytes are pulled, the registry answered a GET of the manifest at /v2/<repository>/manifests/
  -- <reference>, and then one of the blob at /v2/<repository>/blobs/<digest>, where the digest is that of
  -- the first layer of the manifest with the media type of Wasm; the bytes are that blob, and their
  -- SHA-256 is the digest, which may have "sha256:" before it.
  pub pull-IsVerified :
      (repository reference : String) (s : c.Registry) (bytes : Bytes) (s' : c.Registry)
      → pull c base_url credentials repository reference s ≡ ok (bytes, s')
      → IsVerified repository reference s bytes s'
  unfolding pull
  pull-IsVerified repository reference s bytes s' h =
      Ensures-value (λ (r : Bytes × c.Registry). IsVerified repository reference s r.0 r.1) _
        (bytes, s')
        (Ensures-bind (IsManifest repository reference s) _ _ _
          (fetch_manifest-Answers repository reference s)
          λ (manifest, s1) (answer, sent, read).
            Ensures-bind (λ layer. IsFirstWasm layer manifest.layers) _ _ _
              (find_wasm_layer-IsFirstWasm manifest.layers (no_wasm_layer repository))
              λ layer first.
                Ensures-bind (IsBlob repository layer.digest s1) _ _ _
                  (fetch_blob-Answers repository layer.digest s1)
                  λ (bytes, s2) (blob, got, same).
                    elim (Bool-cases (c.sha256_digest bytes == strip_sha256 layer.digest)) [
                      | inl e ↦
                          rw (e, Ensures)
                            (
                              answer,
                              blob,
                              manifest,
                              s1,
                              layer,
                              sent,
                              read,
                              first,
                              got,
                              same,
                              stripped-IsDigest layer.digest bytes ((eq_iff _ _).0 e),
                            )
                      | inr e ↦ rw (e, Ensures) tt
                    ])
        h
