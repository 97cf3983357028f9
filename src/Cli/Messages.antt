-- ===== src/Cli/Messages.antt =====
-- What the MCP server writes is read back.
use Prim.Native.Char.{Char, code}
use Prim.Native.String.{◌++◌ as append}
use fluxion.Prelude.{
  ℕ, zero, suc, ◌+◌, ◌-◌, ◌^◌, ◌<◌, String, Option, none, some, Bool, true, false, ◌&&◌, ltb,
  is_empty, trim_end, strip_prefix, strip_prefix-append, read_digits-decimal, decimal, all_digits,
  all_digits-decimal, is_empty-decimal, contains_char, contains_char-append, if◌then◌else◌, ◌≡◌,
  refl, sym, ap, ◌∙◌, arith,
}
use text.Mathlib.TextLemmas.{append_assoc, nil-append, cons-append}
use fluxion.Outcome.{Outcome, ok}
use fluxion.Workflow.Validate.{◌<>◌}
use fluxion.Cli.Mcp.{
  byte_count, read_line, read_exact, trim_right, trim_left, parse_digits, parse_usize, header,
  trim_line, read_body, line_read, read_headers, read_message, write_message,
}

abbrev pub is_ascii : String → Bool
is_ascii String.[] = true
is_ascii (String.◌∷◌ c s) = ltb (code c) 128 && is_ascii s

-- UTF-8 is read back, and ASCII stands for itself.
pub record IsUtf8 (as_bytes : String → String) (from_utf8 : String → Option String) : Type 0 where
  pub back : (s : String) → from_utf8 (as_bytes s) ≡ some s
  pub ascii : (s : String) → is_ascii s ≡ true → from_utf8 s ≡ some s

pub byte_count-append : (a b : String) → byte_count (append a b) ≡ byte_count a + byte_count b
byte_count-append String.[] b = rw nil-append (omega arith)
byte_count-append (String.◌∷◌ c a) b = rw cons-append (omega (arith, byte_count-append a b))

is_empty-append : (a b : String) → is_empty a ≡ false → is_empty (append a b) ≡ false
is_empty-append String.[] b h = cc
is_empty-append (String.◌∷◌ c a) b h = rw cons-append refl

is_ascii-append :
    (a b : String) → is_ascii a ≡ true → is_ascii b ≡ true → is_ascii (append a b) ≡ true
is_ascii-append String.[] b h k = rw nil-append k
is_ascii-append (String.◌∷◌ c a) b h k = rw cons-append (ground (arith, is_ascii-append a b))

read_exact-append : (a b : String) → read_exact (byte_count a) (append a b) ≡ some (a, b)
read_exact-append String.[] b = rw nil-append refl
read_exact-append (String.◌∷◌ c a) b = rw cons-append (rw (read_exact-append a b) refl)

-- A line ends with the first line feed.
read_line-append :
    (a t : String)
    → contains_char 10 a ≡ false
    → read_line (append a (String.◌∷◌ "\r" (String.◌∷◌ "\n" t))) ≡ (append a "\r\n", t)
read_line-append String.[] t h = rw nil-append refl
read_line-append (String.◌∷◌ c a) t h =
    rw
      (
        cons-append c a (String.◌∷◌ "\r" (String.◌∷◌ "\n" t)),
        cons-append c a "\r\n",
        read_line-append a t (ground arith),
      )
      (ground arith)

trim_end-last :
    (k : ℕ) (a : String) (c : Char)
    → code c ≡ k
    → trim_end k (append a (String.◌∷◌ c String.[])) ≡ trim_end k a
unfolding trim_end
trim_end-last k String.[] c e = rw nil-append (ground arith)
trim_end-last k (String.◌∷◌ d a) c e = rw cons-append (rw (trim_end-last k a c e, trim_end) refl)

trim_end-none : (k : ℕ) (a : String) → contains_char k a ≡ false → trim_end k a ≡ a
unfolding trim_end
trim_end-none k String.[] h = refl
trim_end-none k (String.◌∷◌ c a) h = rw (trim_end-none k a (ground arith)) (ground arith)

trim_line-append :
    (a : String)
    → contains_char 10 a ≡ false
    → contains_char 13 a ≡ false
    → trim_line (append a "\r\n") ≡ a
trim_line-append a h k =
    let feed : trim_end 0x0a (append a "\r\n") ≡ append a "\r" =
      ap (trim_end 0x0a) (sym (append_assoc a "\r" "\n"))
      ∙ (trim_end-last 0x0a (append a "\r") "\n" refl
          ∙ trim_end-none 0x0a (append a "\r") (ground (arith, contains_char-append 10 a "\r"))) in
    ap (trim_end 0x0d) feed ∙ (trim_end-last 0x0d a "\r" refl ∙ trim_end-none 0x0d a k)

-- A text of digits.
contains_char-digits :
    (k : ℕ) (s : String) → k < 48 → all_digits s ≡ true → contains_char k s ≡ false
contains_char-digits k String.[] l h = refl
contains_char-digits k (String.◌∷◌ c s) l h = ground (arith, contains_char-digits k s l)

is_ascii-digits : (s : String) → all_digits s ≡ true → is_ascii s ≡ true
is_ascii-digits String.[] h = refl
is_ascii-digits (String.◌∷◌ c s) h = ground (arith, is_ascii-digits s)

trim_left-digits : (s : String) → all_digits s ≡ true → trim_left s ≡ s
trim_left-digits String.[] h = refl
trim_left-digits (String.◌∷◌ c s) h = ground arith

trim_right-digits : (s : String) → all_digits s ≡ true → trim_right s ≡ s
trim_right-digits String.[] h = refl
trim_right-digits (String.◌∷◌ c s) h = rw (trim_right-digits s (ground arith)) (ground arith)

parse_usize-digits : (s : String) → all_digits s ≡ true → parse_usize s ≡ parse_digits s
unfolding strip_prefix
parse_usize-digits String.[] h = refl
parse_usize-digits (String.◌∷◌ c s) h = ground arith

parse_usize-decimal : (n : ℕ) → n < 2 ^ 64 → parse_usize (decimal n) ≡ some n
parse_usize-decimal n l =
    parse_usize-digits (decimal n) (all_digits-decimal n)
    ∙ rw (is_empty-decimal n, all_digits-decimal n, read_digits-decimal n) (ground arith)

header-decimal : (n : ℕ) → n < 2 ^ 64 → header none (append "Content-Length: " (decimal n)) ≡ some n
header-decimal n l =
    let d = decimal n in
    let trimmed : trim_right (trim_left d) ≡ d =
      ap trim_right (trim_left-digits d (all_digits-decimal n))
      ∙ trim_right-digits d (all_digits-decimal n) in
    rw (strip_prefix-append "Content-Length: " d, header)
      (ap parse_usize trimmed ∙ parse_usize-decimal n l)

module _ {as_bytes : String → String} {from_utf8 : String → Option String}
    (u : IsUtf8 as_bytes from_utf8) where
  -- The header line, the empty line, and the body.
  abbrev framed : ℕ → String → String
  framed n t =
      append (append "Content-Length: " (decimal n))
        (String.◌∷◌ "\r" (String.◌∷◌ "\n" (String.◌∷◌ "\r" (String.◌∷◌ "\n" t))))

  read_body-append :
      (body rest : String)
      → 0 < byte_count (as_bytes body)
      → read_body from_utf8 (some (byte_count (as_bytes body))) (append (as_bytes body) rest)
        ≡ ok (some body, rest)
  read_body-append body rest h = by (byte_count (as_bytes body)) refl h
    where
      by :
          (n : ℕ)
          → byte_count (as_bytes body) ≡ n
          → 0 < n
          → read_body from_utf8 (some n) (append (as_bytes body) rest) ≡ ok (some body, rest)
      by zero e h = absurd (omega arith)
      by (suc n) e h =
          let taken : read_exact (suc n) (append (as_bytes body) rest)
              ≡ some (as_bytes body, rest) =
            ap (λ k. read_exact k (append (as_bytes body) rest)) (sym e)
            ∙ read_exact-append (as_bytes body) rest in
          rw (taken, u.back body) refl

  read_headers-empty :
      (fuel : ℕ) (len : Option ℕ) (t : String)
      → read_headers from_utf8 (suc fuel) len (String.◌∷◌ "\r" (String.◌∷◌ "\n" t))
        ≡ read_body from_utf8 len t
  unfolding read_headers trim_end
  read_headers-empty fuel len t = rw (u.ascii "\r\n" refl) refl

  abbrev of_text : ℕ → Option ℕ → Option String → String → Outcome String (Option String × String)
  of_text fuel len o rest = line_read from_utf8 len o rest (λ l. read_headers from_utf8 fuel l rest)

  -- A line that is not empty, and not the last of the header.
  read_headers-line :
      (fuel : ℕ) (len : Option ℕ) (a t : String)
      → is_empty a ≡ false
      → is_ascii a ≡ true
      → contains_char 10 a ≡ false
      → contains_char 13 a ≡ false
      → read_headers from_utf8 (suc fuel) len (append a (String.◌∷◌ "\r" (String.◌∷◌ "\n" t)))
        ≡ read_headers from_utf8 fuel (header len a) t
  unfolding read_headers
  read_headers-line fuel len a t full plain feed return =
      let line = append a "\r\n" in
      let text : from_utf8 line ≡ some line = u.ascii line (is_ascii-append a "\r\n" plain refl) in
      ap
        (λ (p : String × String).
          if is_empty p.0 then ok (none, p.1) else of_text fuel len (from_utf8 p.0) p.1)
        (read_line-append a t feed)
      ∙ (ap (λ (b : Bool). if b then ok (none, t) else of_text fuel len (from_utf8 line) t)
            (is_empty-append a "\r\n" full)
          ∙ (ap (λ o. of_text fuel len o t) text
              ∙ (ap
                    (λ x.
                      if is_empty x
                      then read_body from_utf8 len t
                      else read_headers from_utf8 fuel (header len x) t)
                    (trim_line-append a feed return)
                  ∙ ap
                      (λ b.
                        if b
                        then read_body from_utf8 len t
                        else read_headers from_utf8 fuel (header len a) t)
                      full)))

  read_headers-framed :
      (fuel n : ℕ) (t : String)
      → n < 2 ^ 64
      → read_headers from_utf8 (suc (suc fuel)) none (framed n t) ≡ read_body from_utf8 (some n) t
  read_headers-framed fuel n t l =
      let a = append "Content-Length: " (decimal n) in
      let digits = all_digits-decimal n in
      read_headers-line (suc fuel) none a (String.◌∷◌ "\r" (String.◌∷◌ "\n" t))
        (is_empty-append "Content-Length: " (decimal n) refl)
        (is_ascii-append "Content-Length: " (decimal n) refl (is_ascii-digits (decimal n) digits))
        (contains_char-append 10 "Content-Length: " (decimal n)
          ∙ contains_char-digits 10 (decimal n) (omega arith) digits)
        (contains_char-append 13 "Content-Length: " (decimal n)
          ∙ contains_char-digits 13 (decimal n) (omega arith) digits)
      ∙ (ap (λ len. read_headers from_utf8 (suc fuel) len (String.◌∷◌ "\r" (String.◌∷◌ "\n" t)))
            (header-decimal n l)
          ∙ read_headers-empty fuel (some n) t)

  crlf_append :
      (t : String)
      → append "\r\n\r\n" t
        ≡ String.◌∷◌ "\r" (String.◌∷◌ "\n" (String.◌∷◌ "\r" (String.◌∷◌ "\n" t)))
  crlf_append t =
      cons-append "\r" "\n\r\n" t
      ∙ ap (String.◌∷◌ "\r") (
          cons-append "\n" "\r\n" t
          ∙ ap (String.◌∷◌ "\n") (
              cons-append "\r" "\n" t
              ∙ ap (String.◌∷◌ "\r") (cons-append "\n" "" t ∙ ap (String.◌∷◌ "\n") (nil-append t))))

  written-framed :
      (body rest : String)
      → append (write_message as_bytes body) rest
        ≡ framed (byte_count (as_bytes body)) (append (as_bytes body) rest)
  unfolding write_message
  written-framed body rest =
      let d = decimal (byte_count (as_bytes body)) in
      let b = as_bytes body in
      let crlf : append "\r\n\r\n" (append b rest)
          ≡ String.◌∷◌ "\r" (String.◌∷◌ "\n" (String.◌∷◌ "\r" (String.◌∷◌ "\n" (append b rest)))) =
        crlf_append (append b rest) in
      append_assoc "Content-Length: " (append d (append "\r\n\r\n" b)) rest
      ∙ (ap (append "Content-Length: ") (
            append_assoc d (append "\r\n\r\n" b) rest
            ∙ ap (append d) (append_assoc "\r\n\r\n" b rest ∙ crlf))
          ∙ sym (append_assoc "Content-Length: " d _))

-- A message that was written is read back, whatever stands behind it on the stream, which is left as
-- it is. The message is not empty, its length in bytes fits in 64 bits, and UTF-8 is read back, ASCII
-- as itself.
pub read_message-write_message :
    (as_bytes : String → String) (from_utf8 : String → Option String) (body rest : String)
    → IsUtf8 as_bytes from_utf8
    → 0 < byte_count (as_bytes body)
    → byte_count (as_bytes body) < 2 ^ 64
    → read_message from_utf8 (write_message as_bytes body <> rest) ≡ ok (some body, rest)
unfolding read_message
read_message-write_message as_bytes from_utf8 body rest u h l =
    let n = byte_count (as_bytes body) in
    let t = append (as_bytes body) rest in
    let s = framed u n t in
    let long : byte_count s ≡ suc (byte_count s - 1) = omega (
      arith,
      byte_count-append (append "Content-Length: " (decimal n))
          (String.◌∷◌ "\r" (String.◌∷◌ "\n" (String.◌∷◌ "\r" (String.◌∷◌ "\n" t)))),
    ) in
    ap (λ x. read_headers from_utf8 (suc (byte_count x)) none x) (written-framed u body rest)
    ∙ (ap (λ k. read_headers from_utf8 (suc k) none s) long
        ∙ (read_headers-framed u (byte_count s - 1) n t l ∙ read_body-append u body rest h))
