-- ===== src/Cli/Served.antt =====
-- The MCP server on a stream of messages.
use Prim.Native.String.{◌++◌ as append}
use fluxion.Prelude.{
  ℕ, zero, suc, ◌≤◌, ◌<◌, ◌^◌, String, List, [], ◌∷◌, Option, none, some, true, false, ◌==◌, eq_iff,
  ◌∙◌, is_empty, length, All, ◌≡◌, ◌⊎◌, inl, inr, refl, sym, subst, Bool-cases, Option-cases, arith,
  decimal,
}
use fluxion.Outcome.{Fault, Outcome, ok, err, panic, ◌>>=◌}
use fluxion.Workflow.Validate.{◌<>◌}
use fluxion.Answers.{IsAnswer}
use fluxion.Expand.Defs.{get_or_else}
use fluxion.Store.Tables.{RunStore}
use fluxion.Cli.Mcp.{byte_count, write_message}
use fluxion.Cli.Messages.{IsUtf8, byte_count-append, read_message-write_message}
use fluxion.Cli.Tools.{
  Server, Session, handle_request, dispatch_tool, name_of, field, text_at, response_or_panic,
  respond_to, respond, answered, serve_read, serve_from, serve,
}

-- A message can be framed: it is not empty, and its length fits in 64 bits.
abbrev pub IsFramed : (String → String) → String → Type 0
IsFramed as_bytes body = (0 < byte_count (as_bytes body)) × (byte_count (as_bytes body) < 2 ^ 64)

-- The messages, one after another.
abbrev pub stream : (String → String) → List String → String
stream as_bytes [] = ""
stream as_bytes (b ∷ bodies) = append (write_message as_bytes b) (stream as_bytes bodies)

-- A message that gets no response: it is empty, it is not JSON, or it has no id.
abbrev pub IsSilent : Server → String → Type 0
IsSilent v b =
    (is_empty b ≡ true)
    ⊎ ((v.from_str b ≡ none)
        ⊎ ((req : v.Value) × (v.from_str b ≡ some req) × (v.get "id" req ≡ none)))

-- What the text of a tool is answered with.
abbrev pub called : (v : Server) → Outcome String String → Outcome String v.Value
called v (ok text) = ok (v.call_result text)
called v (err e) = err e
called v (panic f) = panic f

-- What each method gives, and the store after it.
pub data CarriedOut (v : Server) (params : Option v.Value) (db : RunStore)
    : String → Outcome String v.Value → RunStore → Type 0 where
  initialize : CarriedOut v params db "initialize" (ok v.initialized) db
  ping : CarriedOut v params db "ping" (ok v.pong) db
  tools_list : CarriedOut v params db "tools/list" (ok v.tools) db
  tools_call :
      (text : Outcome String String) (after : RunStore)
      → dispatch_tool v
          (name_of v params)
          (get_or_else v.empty_object (field v "arguments" params))
          db
        ≡ (text, after)
      → CarriedOut v params db "tools/call" (called v text) after
  unknown :
      {method : String}
      → ¬ (method ≡ "initialize")
      → ¬ (method ≡ "ping")
      → ¬ (method ≡ "tools/list")
      → ¬ (method ≡ "tools/call")
      → CarriedOut v params db method (err ("Method not found: " <> method)) db

-- A message that is a request, with its id, its method, its parameters, and what carrying it out gives.
pub record IsRequest (v : Server) (b : String) (db : RunStore) (id : v.Value)
    (result : Outcome String v.Value) (after : RunStore) : Type 0 where
  pub req : v.Value
  pub read : v.from_str b ≡ some req
  pub id_of : v.get "id" req ≡ some id
  pub carried_out :
      CarriedOut v (v.get "params" req) db (get_or_else "" (text_at v "method" req)) result after

-- What a server does that is given messages, and not bytes: it is silent, or it writes the response with
-- the id of the request and goes on with the store that the request has left, or it ends with a panic.
pub data Answers (v : Server) (as_bytes : String → String)
    : List String → RunStore → Session → Type 0 where
  ended :
      {db : RunStore}
      → Answers v as_bytes [] db (record { written = ""; ended_with = ok tt; store = db })
  silent :
      {b : String} {bodies : List String} {db : RunStore} {s : Session}
      → IsSilent v b
      → Answers v as_bytes bodies db s
      → Answers v as_bytes (b ∷ bodies) db s
  replied :
      {b : String} {bodies : List String} {db after : RunStore} {s : Session} (id : v.Value)
      (result : Outcome String v.Value)
      → IsRequest v b db id result after
      → IsAnswer result
      → Answers v as_bytes bodies after s
      → Answers v as_bytes
          (b ∷ bodies)
          db
          (record s { written = append (write_message as_bytes (v.response id result)) s.written })
  panicked :
      {b : String} {bodies : List String} {db after : RunStore} (id : v.Value) (f : Fault)
      → IsRequest v b db id (panic f) after
      → Answers v as_bytes
          (b ∷ bodies)
          db
          (record { written = ""; ended_with = panic f; store = after })

differs : (s t : String) → (s == t) ≡ false → ¬ (s ≡ t)
differs s t e same = let no : true ≡ false = sym ((eq_iff s t).1 same) ∙ e in cc no

handle_request-CarriedOut :
    (v : Server) (method : String) (params : Option v.Value) (db : RunStore)
    → CarriedOut v params db method
        (handle_request v method params db).0
        (handle_request v method params db).1
unfolding handle_request
handle_request-CarriedOut v method params db =
    let (text, after) =
      dispatch_tool v (name_of v params) (get_or_else v.empty_object (field v "arguments" params))
        db in
    elim (Bool-cases (method == "initialize")) [
      | inl e ↦ rw e (renamed "initialize" e initialize)
      | inr a ↦ rw a (elim (Bool-cases (method == "ping")) [
        | inl e ↦ rw e (renamed "ping" e ping)
        | inr b ↦ rw b (elim (Bool-cases (method == "tools/list")) [
          | inl e ↦ rw e (renamed "tools/list" e tools_list)
          | inr c ↦ rw c (elim (Bool-cases (method == "tools/call")) [
            | inl e ↦ rw e (
                subst (λ o. CarriedOut v params db method o after) (as_called text)
                  (renamed "tools/call" e (tools_call text after refl)))
            | inr d ↦ rw d (
                unknown (differs method "initialize" a) (differs method "ping" b)
                  (differs method "tools/list" c) (differs method "tools/call" d))
          ])
        ])
      ])
    ]
  where
    renamed :
        (name : String) {result : Outcome String v.Value} {after : RunStore}
        → (method == name) ≡ true
        → CarriedOut v params db name result after
        → CarriedOut v params db method result after
    renamed name {result} {after} e p =
        subst (λ m. CarriedOut v params db m result after) (sym ((eq_iff method name).0 e)) p

    as_called :
        (text : Outcome String String) → called v text ≡ (text >>= (λ t. ok (v.call_result t)))
    as_called (ok text) = refl
    as_called (err e) = refl
    as_called (panic f) = refl

module _ (v : Server) (as_bytes : String → String) (from_utf8 : String → Option String)
    (u : IsUtf8 as_bytes from_utf8) where
  module _ (b : String) (bodies : List String) (db : RunStore) (more : RunStore → Session)
      (rest : (d : RunStore) → Answers v as_bytes bodies d (more d)) where
    abbrev Answered : Outcome ⊥ (Option String) × RunStore → Type 0
    Answered r = Answers v as_bytes (b ∷ bodies) db (answered as_bytes r.0 r.1 (more r.1))

    carried_out-Answered :
        (id : v.Value) (result : Outcome String v.Value) (after : RunStore)
        → IsRequest v b db id result after
        → Answered (response_or_panic v id result, after)
    carried_out-Answered id (ok value) after i = replied id (ok value) i tt (rest after)
    carried_out-Answered id (err e) after i = replied id (err e) i tt (rest after)
    carried_out-Answered id (panic f) after i = panicked id f i

    read-Answered :
        (req : v.Value) (found : Option v.Value)
        → v.from_str b ≡ some req
        → v.get "id" req ≡ found
        → Answered (respond_to v req found db)
    read-Answered req none e q = silent (inr (inr (req, e, q))) (rest db)
    read-Answered req (some id) e q =
        let r =
          handle_request v (get_or_else "" (text_at v "method" req)) (v.get "params" req) db in
        carried_out-Answered id r.0 r.1 (record {
          req = req;
          read = e;
          id_of = q;
          carried_out =
              handle_request-CarriedOut v (get_or_else "" (text_at v "method" req))
                (v.get "params" req) db;
        })

    respond-Answered : Answered (respond v b db)
    unfolding respond
    respond-Answered = elim (Bool-cases (is_empty b)) [
      | inl e ↦ rw e (silent (inl e) (rest db))
      | inr e ↦ rw e (elim (Option-cases (v.from_str b)) [
        | inl n ↦ rw n (silent (inr (inl n)) (rest db))
        | inr (req, q) ↦ rw q (read-Answered req (v.get "id" req) q refl)
      ])
    ]

  serve_from-Answers :
      (fuel : ℕ) (bodies : List String) (db : RunStore)
      → length bodies < fuel
      → All (IsFramed as_bytes) bodies
      → Answers v as_bytes bodies db
          (serve_from v as_bytes from_utf8 fuel (stream as_bytes bodies) db)
  unfolding serve_from
  serve_from-Answers zero bodies db l a = absurd (omega arith)
  serve_from-Answers (suc fuel) [] db l a = ended
  serve_from-Answers (suc fuel) (b ∷ bodies) db l a =
      subst
        (λ r. Answers v as_bytes (b ∷ bodies) db (
          serve_read v as_bytes from_utf8 r db
            (λ rest d. serve_from v as_bytes from_utf8 fuel rest d)))
        (sym
          (read_message-write_message as_bytes from_utf8 b (stream as_bytes bodies) u a.0.0 a.0.1))
        (respond-Answered b bodies db
          (λ d. serve_from v as_bytes from_utf8 fuel (stream as_bytes bodies) d)
          (λ d. serve_from-Answers fuel bodies d (omega arith) a.1))

  -- Each message takes bytes.
  length-stream : (bodies : List String) → length bodies ≤ byte_count (stream as_bytes bodies)
  unfolding write_message
  length-stream [] = omega arith
  length-stream (b ∷ bodies) =
      let frame = append (decimal (byte_count (as_bytes b))) (append "\r\n\r\n" (as_bytes b)) in
      omega (
        arith,
        length-stream bodies,
        byte_count-append (append "Content-Length: " frame) (stream as_bytes bodies),
        byte_count-append "Content-Length: " frame,
      )

-- On a stream of messages that were written by a client, the MCP server does what a server does that
-- is given these messages: in turn, it is silent to one that is empty, is not JSON or has no id, and to
-- any other writes the response with its id, what its method is answered with or that there is no such
-- method, and goes on with the store that this has left; a panic ends it, and else it ends without an
-- error at the end of the stream, having written nothing more. No message is empty or longer than 64
-- bits can say, and UTF-8 is read back, ASCII as itself.
pub serve-Answers :
    (v : Server) (as_bytes : String → String) (from_utf8 : String → Option String)
    (bodies : List String) (db : RunStore)
    → IsUtf8 as_bytes from_utf8
    → All (IsFramed as_bytes) bodies
    → Answers v as_bytes bodies db (serve v as_bytes from_utf8 (stream as_bytes bodies) db)
unfolding serve
serve-Answers v as_bytes from_utf8 bodies db u a =
    serve_from-Answers v as_bytes from_utf8 u (suc (byte_count (stream as_bytes bodies))) bodies db
      (omega (arith, length-stream v as_bytes from_utf8 u bodies)) a
