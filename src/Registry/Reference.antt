-- ===== src/Registry/Reference.antt =====
-- OciRef of crates/fluxion-core/src/registry.rs: the text of a reference.
use Prim.Native.String.{◌++◌ as append}
use fluxion.Prelude.{
  String, Option, none, some, split_once, rsplit_once, contains_char, if◌then◌else◌,
}
use fluxion.Outcome.{Outcome, ok, err}

-- registry/repository[:tag][@digest]
pub record OciRef : Type 0 where
  pub registry : String
  pub repository : String
  pub tag : Option String
  pub digest : Option String

pub data RefError : Type 0 where
  no_slash : (reference : String) → RefError

-- The text before the first '@', and what is behind it.
unfoldable pub split_digest : String → String × Option String
split_digest s = elim (split_once 0x40 s) [ none ↦ (s, none) | some (l, r) ↦ (l, some r) ]

-- The last ':' starts a tag if a '/' stands before it: otherwise it belongs to the host.
unfoldable pub split_tag : String → String × Option String
split_tag t = elim (rsplit_once 0x3a t) [
  | none ↦ (t, none)
  | some (before, tag) ↦ if contains_char 0x2f before then (before, some tag) else (t, none)
]

unfoldable pub split_repository :
    String → String → Option String → Option String → Outcome RefError OciRef
split_repository s t tag digest = elim (split_once 0x2f t) [
  | none ↦ err (no_slash s)
  | some (registry, repository) ↦
      ok (record { registry = registry; repository = repository; tag = tag; digest = digest })
]

unfoldable pub parse : String → Outcome RefError OciRef
unfolding split_digest split_tag split_repository
parse s =
    let (without_digest, digest) = split_digest s in
    let (without_tag, tag) = split_tag without_digest in split_repository s without_tag tag digest

-- s.push(c); s.push_str(..), where there is something to push.
abbrev pub push : String → String → Option String → String
push s c none = s
push s c (some t) = append s (append c t)

unfoldable pub to_string_repr : OciRef → String
to_string_repr r = push (push (append r.registry (append "/" r.repository)) ":" r.tag) "@" r.digest
