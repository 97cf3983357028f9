-- ===== src/Cli/Tools.antt =====
-- The server of crates/fluxion-cli/src/mcp.rs. JSON, and the runs of the scheduler, are parameters.
use Prim.Native.String.{◌++◌ as append}
use fluxion.Prelude.{
  ℕ, zero, suc, ◌+◌, ◌-◌, ◌/◌, ◌%◌, ◌^◌, String, List, [], ◌∷◌, Option, none, some, ◌==◌, is_empty,
  ltb, if◌then◌else◌,
}
use fluxion.Outcome.{Outcome, ok, err, panic, out_of_fuel, ◌>>=◌}
use fluxion.Workflow.Types.{Workflow}
use fluxion.Workflow.Validate.{◌<>◌, FileError, from_file}
use fluxion.Expand.Defs.{get_or_else, or_error}
use fluxion.Store.Tables.{RunDetail, RunSummary, JobDetail, RunStore, StoreError}
use fluxion.Store.Runs.{load_run, get_run, get_run_jobs, list_runs}
use fluxion.Cli.Mcp.{byte_count, read_message, write_message}

-- An event of the timeline: the start of a job, or its end with the elapsed milliseconds.
pub data TimelineEvent : Type 0 where
  started : (ts : ℕ) (job_id : String) → TimelineEvent
  ended :
      (ts : ℕ) (job_id status : String) (elapsed_ms : ℕ) (reason : Option String) → TimelineEvent

-- What a tool answers, before it is printed as JSON.
pub data ToolResult (R : Type 0) : Type 0 where
  run_result : R → ToolResult R
  summaries : List RunSummary → ToolResult R
  status : RunDetail → (elapsed_s : ℕ) → List JobDetail → ToolResult R
  timeline : List TimelineEvent → ToolResult R

-- The timestamps are in seconds, and the elapsed times in milliseconds; sums wrap around.
abbrev pub timeline_from : ℕ → List JobDetail → List TimelineEvent
timeline_from cursor [] = []
timeline_from cursor (j ∷ jobs) =
    let elapsed_ms = get_or_else 0 j.elapsed_ms in
    let next = (cursor + elapsed_ms / 1000) % 2 ^ 64 in
    started cursor j.job_id
    ∷ ended next j.job_id j.status elapsed_ms j.reason
    ∷ timeline_from next jobs

-- The difference of the two times, which wraps around in a release build.
abbrev pub elapsed_of : RunDetail → ℕ
elapsed_of run = elim run.completed_at [
  | none ↦ 0
  | some end ↦
      if ltb end run.started_at then end + 2 ^ 64 - run.started_at else end - run.started_at
]

-- `get` is value.get(key), and `index` value[key], which is null without the key; `call_result`
-- is the object around the text of a tool, and `response` that around a result or an error.
pub record Server : Type 1 where
  pub Value : Type 0
  pub Result : Type 0
  pub from_str : String → Option Value
  pub get : String → Value → Option Value
  pub as_str : Value → Option String
  pub as_u64 : Value → Option ℕ
  pub initialized : Value
  pub pong : Value
  pub tools : Value
  pub empty_object : Value
  pub call_result : String → Value
  pub response : Value → Outcome String Value → String
  pub pretty : ToolResult Result → String
  pub read_to_string : String → Option String
  pub from_yaml : String → Option Workflow
  pub run_silent : Workflow → String → RunStore → Outcome String Result × RunStore
  pub retry_silent :
      Workflow → String → String → String → RunStore → Outcome String Result × RunStore

module _ (v : Server) where
  open v use {Value, Result, get, as_str, as_u64, pretty, read_to_string, from_yaml}

  abbrev pub text_at : String → Value → Option String
  text_at key args = elim (get key args) [ none ↦ none | some value ↦ as_str value ]

  abbrev pub number_at : String → Value → Option ℕ
  number_at key args = elim (get key args) [ none ↦ none | some value ↦ as_u64 value ]

  abbrev pub of_file : Outcome FileError Workflow → Outcome String Workflow
  of_file (ok wf) = ok wf
  of_file (err e) = err "Failed to load"
  of_file (panic f) = panic f

  abbrev pub of_store {ℓ} : {A : Type ℓ} → Outcome StoreError A → Outcome String A
  of_store (ok a) = ok a
  of_store (err e) = err "not found"
  of_store (panic f) = panic f

  abbrev pub printed : Outcome String Result × RunStore → Outcome String String × RunStore
  printed (o, db) = (o >>= (λ r. ok (pretty (run_result r))), db)

  abbrev pub run_loaded :
      String → Outcome String Workflow → RunStore → Outcome String String × RunStore
  run_loaded path (ok wf) db = printed (v.run_silent wf path db)
  run_loaded path (err e) db = (err e, db)
  run_loaded path (panic f) db = (panic f, db)

  unfoldable pub workflow_run : Option String → RunStore → Outcome String String × RunStore
  unfolding from_file
  workflow_run none db = (err "missing 'path'", db)
  workflow_run (some path) db =
      run_loaded path (of_file (from_file read_to_string from_yaml path)) db

  abbrev pub retry_loaded :
      String
      → String
      → Outcome String (String × Workflow)
      → RunStore
      → Outcome String String × RunStore
  retry_loaded run_id from (ok (path, wf)) db = printed (v.retry_silent wf path run_id from db)
  retry_loaded run_id from (err e) db = (err e, db)
  retry_loaded run_id from (panic f) db = (panic f, db)

  unfoldable pub workflow_retry :
      Option String → Option String → RunStore → Outcome String String × RunStore
  unfolding from_file load_run
  workflow_retry none from db = (err "missing 'run_id'", db)
  workflow_retry (some run_id) none db = (err "missing 'from'", db)
  workflow_retry (some run_id) (some from) db =
      retry_loaded run_id from
        (do
          (path, states) ← of_store (load_run run_id db)
          wf ← of_file (from_file read_to_string from_yaml path)
          ok (path, wf))
        db

  unfoldable pub workflow_status : Option String → RunStore → Outcome String String
  unfolding get_run get_run_jobs
  workflow_status run_id db = do
    id ← or_error "missing 'run_id'" run_id
    run ← of_store (get_run id db)
    ok (pretty (status run (elapsed_of run) (get_run_jobs id db)))

  unfoldable pub workflow_logs : Option String → RunStore → Outcome String String
  unfolding get_run get_run_jobs
  workflow_logs run_id db = do
    id ← or_error "missing 'run_id'" run_id
    run ← of_store (get_run id db)
    ok (pretty (timeline (timeline_from run.started_at (get_run_jobs id db))))

  unfoldable pub dispatch_tool : String → Value → RunStore → Outcome String String × RunStore
  unfolding workflow_run workflow_retry workflow_status workflow_logs list_runs
  dispatch_tool name args db =
      if name == "workflow_run"
      then workflow_run (text_at "path" args) db
      else if name == "workflow_retry"
      then workflow_retry (text_at "run_id" args) (text_at "from" args) db
      else if name == "runs_list"
      then (ok (pretty (summaries (list_runs (get_or_else 10 (number_at "limit" args)) db))), db)
      else if name == "workflow_status"
      then (workflow_status (text_at "run_id" args) db, db)
      else if name == "workflow_logs"
      then (workflow_logs (text_at "run_id" args) db, db)
      else (err ("Unknown tool: " <> name), db)

  abbrev pub field : String → Option Value → Option Value
  field key none = none
  field key (some params) = get key params

  abbrev pub name_of : Option Value → String
  name_of params = elim (field "name" params) [ none ↦ "" | some n ↦ get_or_else "" (as_str n) ]

  unfoldable pub handle_request : String → Option Value → RunStore → Outcome String Value × RunStore
  unfolding dispatch_tool
  handle_request method params db =
      let (text, db') =
        dispatch_tool (name_of params) (get_or_else v.empty_object (field "arguments" params)) db in
      if method == "initialize"
      then (ok v.initialized, db)
      else if method == "ping"
      then (ok v.pong, db)
      else if method == "tools/list"
      then (ok v.tools, db)
      else if method == "tools/call"
      then (text >>= (λ t. ok (v.call_result t)), db')
      else (err ("Method not found: " <> method), db)

  -- A value or an error is the response; a panic unwinds the loop.
  abbrev pub response_or_panic : Value → Outcome String Value → Outcome ⊥ (Option String)
  response_or_panic id (ok value) = ok (some (v.response id (ok value)))
  response_or_panic id (err e) = ok (some (v.response id (err e)))
  response_or_panic id (panic f) = panic f

  abbrev pub respond_to : Value → Option Value → RunStore → Outcome ⊥ (Option String) × RunStore
  respond_to req none db = (ok none, db)
  respond_to req (some id) db =
      let (result, db') =
        handle_request (get_or_else "" (text_at "method" req)) (get "params" req) db in
      (response_or_panic id result, db')

  -- The response to a message, if there is one.
  unfoldable pub respond : String → RunStore → Outcome ⊥ (Option String) × RunStore
  unfolding handle_request
  respond body db = if is_empty body then (ok none, db) else elim (v.from_str body) [
    | none ↦ (ok none, db)
    | some req ↦ respond_to req (get "id" req) db
  ]

-- What the server has written when it ends, how it ends, and the store then.
pub record Session : Type 0 where
  pub written : String
  pub ended_with : Outcome String (Unit {0})
  pub store : RunStore

-- The session from a message on, whose answer and the store after it are given, with the rest of it.
abbrev pub answered : (String → String) → Outcome ⊥ (Option String) → RunStore → Session → Session
answered as_bytes (ok none) db s = s
answered as_bytes (ok (some response)) db s = record s {
  written = append (write_message as_bytes response) s.written;
}
answered as_bytes (err e) db s = elim e [ ]
answered as_bytes (panic f) db s = record { written = ""; ended_with = panic f; store = db }

module _ (v : Server) (as_bytes : String → String) (from_utf8 : String → Option String) where
  abbrev pub serve_read :
      Outcome String (Option String × String) → RunStore → (String → RunStore → Session) → Session
  serve_read (ok (some body, rest)) db more =
      let (response, db') = respond v body db in answered as_bytes response db' (more rest db')
  serve_read (ok (none, rest)) db more = record { written = ""; ended_with = ok tt; store = db }
  serve_read (err e) db more = record { written = ""; ended_with = err e; store = db }
  serve_read (panic f) db more = record { written = ""; ended_with = panic f; store = db }

  -- The loop: a round for each message, and one for the end of the stream.
  unfoldable pub serve_from : ℕ → String → RunStore → Session
  unfolding read_message respond
  serve_from zero s db = record { written = ""; ended_with = panic out_of_fuel; store = db }
  serve_from (suc fuel) s db =
      serve_read (read_message from_utf8 s) db (λ rest db'. serve_from fuel rest db')

  unfoldable pub serve : String → RunStore → Session
  unfolding serve_from
  serve stdin db = serve_from (suc (byte_count stdin)) stdin db
