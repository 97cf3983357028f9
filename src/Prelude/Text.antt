-- ===== src/Prelude/Text.antt =====
-- Texts as `str` reads them: a character is given by its code.
use Prim.Native.Char.{Char, code}
use Prim.Native.Nat.{ℕ, ◌+◌}
use Prim.Native.String.{String, ◌++◌ as append}
use mathlib.Core.Path.{◌≡◌, refl, ap, sym, ◌∙◌}
use mathlib.Core.Logic.{inl, inr}
use mathlib.Core.Bool.{Bool, true, false, ◌&&◌, ◌||◌}
use mathlib.Core.Option.{Option, none, some}
use native.Mathlib.Omega.{arith}
use text.Mathlib.TextEquality.{Char-path}
use text.Mathlib.TextLemmas.{nil-append, cons-append}
use fluxion.Prelude.Tests.{leb, nat_eq, if◌then◌else◌, Bool-cases, Option-cases}

-- The text before and behind the first `k`.
unfoldable pub split_once : ℕ → String → Option (String × String)
split_once k String.[] = none
split_once k (String.◌∷◌ c s) =
    let rest = split_once k s in
    if nat_eq (code c) k
    then some (String.[], s)
    else elim rest [ none ↦ none | some (a, b) ↦ some (String.◌∷◌ c a, b) ]

-- The text before and behind the last `k`.
unfoldable pub rsplit_once : ℕ → String → Option (String × String)
rsplit_once k String.[] = none
rsplit_once k (String.◌∷◌ c s) = elim (rsplit_once k s) [
  | some (a, b) ↦ some (String.◌∷◌ c a, b)
  | none ↦ if nat_eq (code c) k then some (String.[], s) else none
]

abbrev pub is_empty : String → Bool
is_empty String.[] = true
is_empty (String.◌∷◌ c s) = false

trim_start : ℕ → String → String
trim_start k String.[] = String.[]
trim_start k (String.◌∷◌ c s) =
    let rest = trim_start k s in if nat_eq (code c) k then rest else String.◌∷◌ c s

unfoldable pub trim_end : ℕ → String → String
trim_end k String.[] = String.[]
trim_end k (String.◌∷◌ c s) =
    let rest = trim_end k s in
    if nat_eq (code c) k && is_empty rest then String.[] else String.◌∷◌ c rest

unfoldable pub trim_matches : ℕ → String → String
unfolding trim_start trim_end
trim_matches k s = trim_end k (trim_start k s)

-- s.strip_prefix(p)
unfoldable pub strip_prefix : String → String → Option String
strip_prefix String.[] s = some s
strip_prefix (String.◌∷◌ c p) String.[] = none
strip_prefix (String.◌∷◌ c p) (String.◌∷◌ d s) =
    let rest = strip_prefix p s in if nat_eq (code c) (code d) then rest else none

-- s.replace(k, by)
unfoldable pub replace_char : ℕ → String → String → String
replace_char k by String.[] = String.[]
replace_char k by (String.◌∷◌ c s) =
    let rest = replace_char k by s in
    if nat_eq (code c) k then append by rest else String.◌∷◌ c rest

abbrev pub contains_char : ℕ → String → Bool
contains_char k String.[] = false
contains_char k (String.◌∷◌ c s) = nat_eq (code c) k || contains_char k s

pub contains_char-append :
    (k : ℕ) (a b : String) → contains_char k (append a b) ≡ (contains_char k a || contains_char k b)
contains_char-append k String.[] b = rw nil-append
contains_char-append k (String.◌∷◌ c a) b =
    rw cons-append (ground (arith, contains_char-append k a b))

pub split_once-append :
    (k : ℕ) (a b : String) (c : Char)
    → contains_char k a ≡ false
    → code c ≡ k
    → split_once k (append a (String.◌∷◌ c b)) ≡ some (a, b)
unfolding split_once
split_once-append k String.[] b c h e = rw nil-append (ground arith)
split_once-append k (String.◌∷◌ d a) b c h e =
    rw cons-append (rw (split_once-append k a b c (ground arith) e) (ground arith))

pub split_once-none : (k : ℕ) (a : String) → contains_char k a ≡ false → split_once k a ≡ none
unfolding split_once
split_once-none k String.[] h = refl
split_once-none k (String.◌∷◌ c a) h = rw (split_once-none k a (ground arith)) (ground arith)

pub rsplit_once-none : (k : ℕ) (a : String) → contains_char k a ≡ false → rsplit_once k a ≡ none
unfolding rsplit_once
rsplit_once-none k String.[] h = refl
rsplit_once-none k (String.◌∷◌ c a) h = rw (rsplit_once-none k a (ground arith)) (ground arith)

pub rsplit_once-append :
    (k : ℕ) (a b : String) (c : Char)
    → contains_char k b ≡ false
    → code c ≡ k
    → rsplit_once k (append a (String.◌∷◌ c b)) ≡ some (a, b)
unfolding rsplit_once
rsplit_once-append k String.[] b c h e = rw nil-append (rw (rsplit_once-none k b h) (ground arith))
rsplit_once-append k (String.◌∷◌ d a) b c h e =
    rw cons-append (rw (rsplit_once-append k a b c h e, rsplit_once) refl)

abbrev parts : String → String → Option (String × String)
parts a b = some (a, b)

-- What is split is what it was split from.
pub split_once_sound :
    (k : ℕ) (s a b : String)
    → split_once k s ≡ some (a, b)
    → (c : Char) × (code c ≡ k) × (s ≡ append a (String.◌∷◌ c b))
unfolding split_once
split_once_sound k String.[] a b h = cc
split_once_sound k (String.◌∷◌ c s) a b h = elim (Bool-cases (nat_eq (code c) k)) [
  | inl e ↦
      let h' : parts String.[] s ≡ parts a b = ground arith in
      (c, ground arith, cc (h', nil-append (String.◌∷◌ c s)))
  | inr e ↦ elim (Option-cases (split_once k s)) [
    | inl q ↦ absurd (ground arith)
    | inr ((a', b'), q) ↦
        let (d, x, y) = split_once_sound k s a' b' q in
        let h' : parts (String.◌∷◌ c a') b' ≡ parts a b = ground arith in
        (d, x, cc (h', y, cons-append c a' (String.◌∷◌ d b')))
  ]
]

pub rsplit_once_sound :
    (k : ℕ) (s a b : String)
    → rsplit_once k s ≡ some (a, b)
    → (c : Char) × (code c ≡ k) × (s ≡ append a (String.◌∷◌ c b))
unfolding rsplit_once
rsplit_once_sound k String.[] a b h = cc
rsplit_once_sound k (String.◌∷◌ c s) a b h = elim (Option-cases (rsplit_once k s)) [
  | inr ((a', b'), q) ↦
      let (d, x, y) = rsplit_once_sound k s a' b' q in
      let h' : parts (String.◌∷◌ c a') b' ≡ parts a b = ground arith in
      (d, x, cc (h', y, cons-append c a' (String.◌∷◌ d b')))
  | inl q ↦ elim (Bool-cases (nat_eq (code c) k)) [
    | inr e ↦ absurd (ground arith)
    | inl e ↦
        let h' : parts String.[] s ≡ parts a b = ground arith in
        (c, ground arith, cc (h', nil-append (String.◌∷◌ c s)))
  ]
]

-- A text of one character.
abbrev pub IsChar : ℕ → String → Type 0
IsChar k sep = (c : Char) × (code c ≡ k) × (◌≡◌ {A = String} sep (String.◌∷◌ c String.[]))

module _ (k : ℕ) (sep : String) (p : IsChar k sep) where
  append-IsChar : (b : String) → append sep b ≡ String.◌∷◌ p.0 b
  append-IsChar b =
      ap (λ t. append t b) p.2
      ∙ (cons-append p.0 String.[] b ∙ ap (λ t. String.◌∷◌ p.0 t) (nil-append b))

  pub split_once-at :
      (a b : String)
      → contains_char k a ≡ false
      → split_once k (append a (append sep b)) ≡ some (a, b)
  split_once-at a b h = rw (append-IsChar b) (split_once-append k a b p.0 h p.1)

  pub rsplit_once-at :
      (a b : String)
      → contains_char k b ≡ false
      → rsplit_once k (append a (append sep b)) ≡ some (a, b)
  rsplit_once-at a b h = rw (append-IsChar b) (rsplit_once-append k a b p.0 h p.1)

  back :
      (s a b : String) (c : Char)
      → code c ≡ k
      → s ≡ append a (String.◌∷◌ c b)
      → s ≡ append a (append sep b)
  back s a b c e h =
      h
      ∙ ap (append a)
          (ap (λ d. String.◌∷◌ d b) (Char-path c p.0 (e ∙ sym p.1)) ∙ sym (append-IsChar b))

  pub split_once-back :
      (s a b : String) → split_once k s ≡ some (a, b) → s ≡ append a (append sep b)
  split_once-back s a b h = let (c, e, q) = split_once_sound k s a b h in back s a b c e q

  pub rsplit_once-back :
      (s a b : String) → rsplit_once k s ≡ some (a, b) → s ≡ append a (append sep b)
  rsplit_once-back s a b h = let (c, e, q) = rsplit_once_sound k s a b h in back s a b c e q

  -- The text contains its character, and no other.
  pub contains_char-at :
      (j : ℕ) (a b : String)
      → contains_char j (append a (append sep b))
        ≡ (contains_char j a || (nat_eq k j || contains_char j b))
  contains_char-at j a b =
      rw (contains_char-append j a (append sep b), append-IsChar b) (ground (arith, p.1))

-- The last occurrence, where there is none in what stands behind.
pub rsplit_once-behind :
    (k : ℕ) (a b : String)
    → contains_char k b ≡ false
    → rsplit_once k (append a b)
      ≡ elim (rsplit_once k a) [ none ↦ none | some (x, y) ↦ some (x, append y b) ]
unfolding rsplit_once
rsplit_once-behind k String.[] b h = rw nil-append (rsplit_once-none k b h)
rsplit_once-behind k (String.◌∷◌ c a) b h = rw cons-append (elim (Option-cases (rsplit_once k a)) [
  | inl e ↦
      let ih : rsplit_once k (append a b) ≡ none = rw e at (rsplit_once-behind k a b h) in
      rw (ih, e, rsplit_once) (ground arith)
  | inr ((x, y), e) ↦
      let ih : rsplit_once k (append a b) ≡ parts x (append y b) =
        rw e at (rsplit_once-behind k a b h) in
      rw (ih, e, rsplit_once) refl
])

unfoldable pub to_lower : ℕ → ℕ
to_lower c = if leb 65 c && leb c 90 then c + 32 else c

-- a.eq_ignore_ascii_case(b)
unfoldable pub eq_ignore_ascii_case : String → String → Bool
unfolding to_lower
eq_ignore_ascii_case String.[] String.[] = true
eq_ignore_ascii_case String.[] (String.◌∷◌ d b) = false
eq_ignore_ascii_case (String.◌∷◌ c a) String.[] = false
eq_ignore_ascii_case (String.◌∷◌ c a) (String.◌∷◌ d b) =
    nat_eq (to_lower (code c)) (to_lower (code d)) && eq_ignore_ascii_case a b

pub eq_ignore_ascii_case_self : (a : String) → eq_ignore_ascii_case a a ≡ true
unfolding eq_ignore_ascii_case
eq_ignore_ascii_case_self String.[] = refl
eq_ignore_ascii_case_self (String.◌∷◌ c a) = ground (arith, eq_ignore_ascii_case_self a)

pub strip_prefix_sound : (a s b : String) → strip_prefix a s ≡ some b → s ≡ append a b
unfolding strip_prefix
strip_prefix_sound String.[] s b h = rw nil-append (cc h)
strip_prefix_sound (String.◌∷◌ c a) String.[] b h = absurd (cc h)
strip_prefix_sound (String.◌∷◌ c a) (String.◌∷◌ d s) b h =
    elim (Bool-cases (nat_eq (code c) (code d))) [
      | inl e ↦ rw cons-append (
          ap (λ x. String.◌∷◌ x s) (sym (Char-path c d (ground arith)))
          ∙ ap (λ t. String.◌∷◌ c t) (strip_prefix_sound a s b (rw e at h)))
      | inr e ↦ let no : none ≡ some b = rw e at h in absurd (cc no)
    ]

pub strip_prefix-append : (a b : String) → strip_prefix a (append a b) ≡ some b
unfolding strip_prefix
strip_prefix-append String.[] b = rw nil-append refl
strip_prefix-append (String.◌∷◌ c a) b = rw cons-append (ground (arith, strip_prefix-append a b))
