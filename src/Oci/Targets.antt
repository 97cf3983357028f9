-- ===== src/Oci/Targets.antt =====
-- What parse_oci_ref makes of a reference that OciRef prints.
use Prim.Native.String.{◌++◌ as append}
use text.Mathlib.TextLemmas.{append_assoc}
use fluxion.Prelude.{
  String, Option, none, some, false, ◌≡◌, refl, ap, ◌∙◌, arith, contains_char, split_once-at,
  split_once-none, rsplit_once-at, rsplit_once-none, contains_char-at,
}
use fluxion.Outcome.{ok}
use fluxion.Registry.Reference.{OciRef, push, to_string_repr}
use fluxion.Registry.Roundtrip.{IsCanonical, at-IsChar, colon-IsChar, slash-IsChar}
use fluxion.Oci.Target.{Target, split_reference, parse_oci_ref}

-- Without a digest the tag is asked for, or "latest". With one the digest is asked for, and a tag
-- that stands before it is taken for a part of the repository's name.
abbrev pub target_of : OciRef → Option String → Option String → Target
target_of r none none = record {
  registry = r.registry;
  repository = r.repository;
  reference = "latest";
}
target_of r (some t) none = record {
  registry = r.registry;
  repository = r.repository;
  reference = t;
}
target_of r tag (some d) = record {
  registry = r.registry;
  repository = push r.repository ":" tag;
  reference = d;
}

abbrev named : OciRef → Option String → String
named r tag = push r.repository ":" tag

named-no_at :
    (r : OciRef) (tag : Option String)
    → IsCanonical r
    → r.tag ≡ tag
    → contains_char 0x40 (named r tag) ≡ false
named-no_at r none c e = c.name_at
named-no_at r (some t) c e =
    ground
      (arith, contains_char-at 0x3a ":" colon-IsChar 0x40 r.repository t, c.name_at, c.tag_at t e)

split_reference-push :
    (r : OciRef) (tag digest : Option String)
    → IsCanonical r
    → r.tag ≡ tag
    → split_reference r.registry (push (named r tag) "@" digest) ≡ target_of r tag digest
unfolding split_reference
split_reference-push r none none c e =
    rw (split_once-none 0x40 r.repository c.name_at, split_reference)
      (rw (rsplit_once-none 0x3a r.repository c.name_colon) refl)
split_reference-push r (some t) none c e =
    rw (split_once-none 0x40 (named r (some t)) (named-no_at r (some t) c e), split_reference)
      (rw (rsplit_once-at 0x3a ":" colon-IsChar r.repository t (c.tag_colon t e)) refl)
split_reference-push r none (some d) c e =
    rw (split_once-at 0x40 "@" at-IsChar r.repository d c.name_at, split_reference, push) refl
split_reference-push r (some t) (some d) c e =
    rw
      (
        split_once-at 0x40 "@" at-IsChar (named r (some t)) d (named-no_at r (some t) c e),
        split_reference,
        push,
      )
      refl

push-append :
    (a b : String) (x : String) (t : Option String) → push (append a b) x t ≡ append a (push b x t)
push-append a b x none = refl
push-append a b x (some t) = append_assoc a b (append x t)

-- A reference that is printed is sent to its registry, with the digest if it has one, and else the
-- tag, and else "latest". If it has a tag and a digest, the tag ends up in the name of the repository.
pub parse_oci_ref-to_string_repr :
    (r : OciRef)
    → IsCanonical r
    → parse_oci_ref (to_string_repr r) ≡ ok (target_of r r.tag r.digest)
unfolding parse_oci_ref to_string_repr
parse_oci_ref-to_string_repr r c = rw printed (
    rw
      (
        split_once-at 0x2f "/" slash-IsChar r.registry (push (named r r.tag) "@" r.digest)
            c.host_slash,
        parse_oci_ref,
      )
      (ap ok (split_reference-push r r.tag r.digest c refl)))
  where
    printed : to_string_repr r ≡ append r.registry (append "/" (push (named r r.tag) "@" r.digest))
    printed =
        ap (λ x. push x "@" r.digest)
          (push-append r.registry (append "/" r.repository) ":" r.tag
            ∙ ap (append r.registry) (push-append "/" r.repository ":" r.tag))
        ∙ (push-append r.registry (append "/" (named r r.tag)) "@" r.digest
            ∙ ap (append r.registry) (push-append "/" (named r r.tag) "@" r.digest))
