-- ===== src/Registry/Roundtrip.antt =====
-- Printing and parsing a reference.
use Prim.Native.String.{◌++◌ as append}
use fluxion.Prelude.{
  String, Option, none, some, false, ◌≡◌, refl, sym, ap, ◌∙◌, inl, inr, arith, split_once,
  rsplit_once, contains_char, IsChar, split_once-at, rsplit_once-at, split_once-back,
  rsplit_once-back, split_once-none, contains_char-at, contains_char-append, rsplit_once-behind,
  Bool-cases, Option-cases,
}
use fluxion.Outcome.{ok}
use fluxion.Registry.Reference.{
  OciRef, split_digest, split_tag, split_repository, parse, push, to_string_repr,
}

pub at-IsChar : IsChar 0x40 "@"
at-IsChar = (_, refl, refl)

pub colon-IsChar : IsChar 0x3a ":"
colon-IsChar = (_, refl, refl)

pub slash-IsChar : IsChar 0x2f "/"
slash-IsChar = (_, refl, refl)

-- A pair that was split, put together again.
abbrev joined : String → String × Option String → String
joined c p = push p.0 c p.1

split_digest-back : (s : String) → joined "@" (split_digest s) ≡ s
unfolding split_digest
split_digest-back s = elim (Option-cases (split_once 0x40 s)) [
  | inl e ↦
      let whole : split_digest s ≡ (s, none) = rw (e, split_digest) refl in ap (joined "@") whole
  | inr ((l, r), e) ↦
      let split : split_digest s ≡ (l, some r) = rw (e, split_digest) refl in
      ap (joined "@") split ∙ sym (split_once-back 0x40 "@" at-IsChar s l r e)
]

split_tag-back : (t : String) → joined ":" (split_tag t) ≡ t
unfolding split_tag
split_tag-back t = elim (Option-cases (rsplit_once 0x3a t)) [
  | inl e ↦ let whole : split_tag t ≡ (t, none) = rw (e, split_tag) refl in ap (joined ":") whole
  | inr ((before, tag), e) ↦ elim (Bool-cases (contains_char 0x2f before)) [
    | inl c ↦
        let split : split_tag t ≡ (before, some tag) = rw (e, split_tag) (rw c refl) in
        ap (joined ":") split ∙ sym (rsplit_once-back 0x3a ":" colon-IsChar t before tag e)
    | inr c ↦
        let whole : split_tag t ≡ (t, none) = rw (e, split_tag) (rw c refl) in ap (joined ":") whole
  ]
]

split_repository-back :
    (s t : String) (tag digest : Option String) (r : OciRef)
    → split_repository s t tag digest ≡ ok r
    → (append r.registry (append "/" r.repository) ≡ t) × (r.tag ≡ tag) × (r.digest ≡ digest)
unfolding split_repository
split_repository-back s t tag digest r h = elim (Option-cases (split_once 0x2f t)) [
  | inl e ↦ absurd (ground arith)
  | inr ((a, b), e) ↦
      let same : r ≡ record { registry = a; repository = b; tag = tag; digest = digest } =
        ground arith in
      rw same (sym (split_once-back 0x2f "/" slash-IsChar t a b e), refl, refl)
]

-- A text that is parsed as a reference is printed as it was.
pub to_string_repr-parse : (s : String) (r : OciRef) → parse s ≡ ok r → to_string_repr r ≡ s
unfolding parse to_string_repr
to_string_repr-parse s r h =
    let t = split_digest s in
    let u = split_tag t.0 in
    let (whole, tag, digest) = split_repository-back s u.0 u.1 t.1 r h in
    rw (whole, tag, digest) (ap (λ x. push x "@" t.1) (split_tag-back t.0) ∙ split_digest-back s)

-- What a registry's naming rules ask for, as far as parsing depends on it.
pub record IsCanonical (r : OciRef) : Type 0 where
  pub host_slash : contains_char 0x2f r.registry ≡ false
  pub host_at : contains_char 0x40 r.registry ≡ false
  pub name_at : contains_char 0x40 r.repository ≡ false
  pub name_colon : contains_char 0x3a r.repository ≡ false
  pub tag_at : (t : String) → r.tag ≡ some t → contains_char 0x40 t ≡ false
  pub tag_colon : (t : String) → r.tag ≡ some t → contains_char 0x3a t ≡ false

abbrev base : OciRef → String
base r = append r.registry (append "/" r.repository)

split_digest-push :
    (s : String) (digest : Option String)
    → contains_char 0x40 s ≡ false
    → split_digest (push s "@" digest) ≡ (s, digest)
unfolding split_digest
split_digest-push s none h = rw (split_once-none 0x40 s h, split_digest, push) refl
split_digest-push s (some d) h =
    rw (split_once-at 0x40 "@" at-IsChar s d h, split_digest, push) refl

-- A colon of the host is none of a tag.
split_tag-base : (r : OciRef) → IsCanonical r → split_tag (base r) ≡ (base r, none)
unfolding split_tag
split_tag-base r c = elim (Option-cases (rsplit_once 0x3a r.registry)) [
  | inl e ↦ rw (whole, e, split_tag) refl
  | inr ((before, port), e) ↦ rw (whole, e, split_tag) (rw (no_slash_before before port e) refl)
]
  where
    whole : rsplit_once 0x3a (base r) ≡ elim (rsplit_once 0x3a r.registry) [
      | none ↦ none
      | some (x, y) ↦ some (x, append y (append "/" r.repository))
    ]
    whole =
        rsplit_once-behind 0x3a r.registry (append "/" r.repository)
          (contains_char-append 0x3a "/" r.repository ∙ c.name_colon)

    no_slash_before :
        (before port : String)
        → rsplit_once 0x3a r.registry ≡ some (before, port)
        → contains_char 0x2f before ≡ false
    no_slash_before before port e = ground (
      arith,
      contains_char-at 0x3a ":" colon-IsChar 0x2f before port,
      c.host_slash,
      ap (contains_char 0x2f) (rsplit_once-back 0x3a ":" colon-IsChar r.registry before port e),
    )

split_tag-push :
    (r : OciRef) (tag : Option String)
    → IsCanonical r
    → r.tag ≡ tag
    → split_tag (push (base r) ":" tag) ≡ (base r, tag)
unfolding split_tag
split_tag-push r none c e = split_tag-base r c
split_tag-push r (some t) c e =
    rw (rsplit_once-at 0x3a ":" colon-IsChar (base r) t (c.tag_colon t e), split_tag, push)
      (rw (contains_char-at 0x2f "/" slash-IsChar 0x2f r.registry r.repository) (ground arith))

no_at :
    (r : OciRef) (tag : Option String)
    → IsCanonical r
    → r.tag ≡ tag
    → contains_char 0x40 (push (base r) ":" tag) ≡ false
no_at r none c e = ground (
  arith,
  contains_char-at 0x2f "/" slash-IsChar 0x40 r.registry r.repository,
  c.host_at,
  c.name_at,
)
no_at r (some t) c e = ground (
  arith,
  contains_char-at 0x3a ":" colon-IsChar 0x40 (base r) t,
  contains_char-at 0x2f "/" slash-IsChar 0x40 r.registry r.repository,
  c.host_at,
  c.name_at,
  c.tag_at t e,
)

-- A canonical reference is parsed as what was printed.
pub parse-to_string_repr : (r : OciRef) → IsCanonical r → parse (to_string_repr r) ≡ ok r
unfolding parse to_string_repr split_repository
parse-to_string_repr r c =
    rw (split_digest-push (push (base r) ":" r.tag) r.digest (no_at r r.tag c refl)) (
      rw (split_tag-push r r.tag c refl) (
        rw
          (
            split_once-at 0x2f "/" slash-IsChar r.registry r.repository c.host_slash,
            split_repository,
          )
          refl))
