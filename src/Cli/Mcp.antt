-- ===== src/Cli/Mcp.antt =====
-- The transport of crates/fluxion-cli/src/mcp.rs: messages with their length before them. A stream is
-- a text whose characters are its bytes; UTF-8 is a parameter.
use Prim.Native.Char.{code}
use fluxion.Prelude.{
  ℕ, zero, suc, ◌^◌, String, Option, none, some, Bool, ◌&&◌, ◌||◌, leb, ltb, nat_eq, is_empty,
  trim_end, strip_prefix, read_digits, all_digits, decimal, if◌then◌else◌,
}
use fluxion.Outcome.{Outcome, ok, err, panic, out_of_fuel, ◌>>=◌}
use fluxion.Workflow.Validate.{◌<>◌}
use fluxion.Expand.Defs.{or_error}

abbrev pub byte_count : String → ℕ
byte_count String.[] = 0
byte_count (String.◌∷◌ c s) = suc (byte_count s)

-- read_line: the bytes up to the first line feed, with it.
abbrev pub read_line : String → String × String
read_line String.[] = (String.[], String.[])
read_line (String.◌∷◌ c s) =
    let (line, rest) = read_line s in
    if nat_eq (code c) 10 then (String.◌∷◌ c String.[], s) else (String.◌∷◌ c line, rest)

-- read_exact
abbrev pub read_exact : ℕ → String → Option (String × String)
read_exact zero s = some (String.[], s)
read_exact (suc n) String.[] = none
read_exact (suc n) (String.◌∷◌ c s) = elim (read_exact n s) [
  | none ↦ none
  | some (taken, rest) ↦ some (String.◌∷◌ c taken, rest)
]

-- White space of str::trim among the ASCII characters.
abbrev pub is_space : ℕ → Bool
is_space c = (leb 9 c && leb c 13) || nat_eq c 32

abbrev pub trim_right : String → String
trim_right String.[] = String.[]
trim_right (String.◌∷◌ c s) =
    let rest = trim_right s in
    if is_space (code c) && is_empty rest then String.[] else String.◌∷◌ c rest

abbrev pub trim_left : String → String
trim_left String.[] = String.[]
trim_left (String.◌∷◌ c s) =
    let rest = trim_left s in if is_space (code c) then rest else String.◌∷◌ c s

-- s.parse::<usize>()
abbrev pub parse_digits : String → Option ℕ
parse_digits s =
    if is_empty s
    then none
    else if all_digits s && ltb (read_digits 0 s) (2 ^ 64)
    then some (read_digits 0 s)
    else none

abbrev pub parse_usize : String → Option ℕ
parse_usize s = elim (strip_prefix "+" s) [ none ↦ parse_digits s | some t ↦ parse_digits t ]

-- The length that a header gives, or the one before it.
abbrev pub header : Option ℕ → String → Option ℕ
header content_length trimmed = elim (strip_prefix "Content-Length: " trimmed) [
  | none ↦ content_length
  | some val ↦ parse_usize (trim_right (trim_left val))
]

abbrev pub trim_line : String → String
trim_line line = trim_end 0x0d (trim_end 0x0a line)

module _ (from_utf8 : String → Option String) where
  abbrev pub read_body : Option ℕ → String → Outcome String (Option String × String)
  read_body none s = ok (some "", s)
  read_body (some zero) s = ok (some "", s)
  read_body (some (suc len)) s = do
    read ← or_error "unexpected end of file" (read_exact (suc len) s)
    text ← or_error "invalid UTF-8" (from_utf8 read.0)
    ok (some text, read.1)

  -- After a line was read, with the text of it if it is UTF-8, and the rest of the loop.
  abbrev pub line_read :
      Option ℕ
      → Option String
      → String
      → (Option ℕ → Outcome String (Option String × String))
      → Outcome String (Option String × String)
  line_read content_length none rest more = err "stream did not contain valid UTF-8"
  line_read content_length (some text) rest more =
      if is_empty (trim_line text)
      then read_body content_length rest
      else more (header content_length (trim_line text))

  -- The loop over the lines of the header, and the body behind them; a round for each line.
  unfoldable pub read_headers : ℕ → Option ℕ → String → Outcome String (Option String × String)
  unfolding trim_end strip_prefix read_digits
  read_headers zero content_length s = panic out_of_fuel
  read_headers (suc fuel) content_length s =
      let (line, rest) = read_line s in
      if is_empty line
      then ok (none, rest)
      else line_read content_length (from_utf8 line) rest (λ len. read_headers fuel len rest)

  -- The next message, or none at the end, and what is left of the stream.
  unfoldable pub read_message : String → Outcome String (Option String × String)
  unfolding read_headers
  read_message s = read_headers (suc (byte_count s)) none s

unfoldable pub write_message : (String → String) → String → String
unfolding decimal
write_message as_bytes body =
    "Content-Length: " <> decimal (byte_count (as_bytes body)) <> "\r\n\r\n" <> as_bytes body
