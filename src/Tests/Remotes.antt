-- ===== src/Tests/Remotes.antt =====
-- Tests of jobs that are run on a worker.
use Prim.Native.Char.{code}
use fluxion.Prelude.{
  ℕ, zero, suc, ◌+◌, ◌*◌, ◌^◌, to_lower, eq_ignore_ascii_case, trim_end, String, [], ◌∷◌, Option,
  none, some, true, nat_eq, ◌≡◌, refl, sym, ap, ◌∙◌, arith, if◌then◌else◌,
}
use fluxion.Outcome.{ok}
use fluxion.Answers.{IsAnswer}
use fluxion.Workflow.Types.{default_permissions}
use fluxion.Host.{returned}
use fluxion.Scheduler.FanIn.{Bytes}
use fluxion.Worker.Handlers.{Machine, handle_cas_put}
use fluxion.Worker.Steps.{fresh_worker, still, and_then, uploaded}
use fluxion.Worker.Cas.{is_hex}
use fluxion.Remote.Client.{cas_upload_ok, Http, run_remote}
use fluxion.Remote.Async.{second, run_remote_async}
use fluxion.Remote.Ends.{IsClock, run_remote_async-IsAnswer}
use fluxion.Remote.Worker.{served}
use fluxion.Remote.Served.{IsWorking, run_remote-result}

-- A text for bytes: as many "a" as a byte says, and a "b" behind.
unary : ℕ → String → String
unary zero s = String.◌∷◌ "b" s
unary (suc n) s = String.◌∷◌ "a" (unary n s)

pub written : Bytes → String
unfolding unary
written [] = String.[]
written (n ∷ ns) = unary n (written ns)

abbrev one_more : Option Bytes → Option Bytes
one_more none = none
one_more (some []) = none
one_more (some (n ∷ ns)) = some (suc n ∷ ns)

abbrev behind : Option Bytes → Option Bytes
behind none = none
behind (some ns) = some (0 ∷ ns)

abbrev read_one : ℕ → Option Bytes → Option Bytes
read_one c rest = if nat_eq c 97 then one_more rest else behind rest

pub read_back : String → Option Bytes
unfolding to_lower
read_back String.[] = some []
read_back (String.◌∷◌ c s) = read_one (to_lower (code c)) (read_back s)

read_back-unary :
    (n : ℕ) (s : String) (ns : Bytes)
    → read_back s ≡ some ns
    → read_back (unary n s) ≡ some (n ∷ ns)
unfolding read_back unary to_lower
read_back-unary zero s ns h = ap behind h
read_back-unary (suc n) s ns h = ap one_more (read_back-unary n s ns h)

pub read_back-written : (ns : Bytes) → read_back (written ns) ≡ some ns
unfolding read_back written
read_back-written [] = refl
read_back-written (n ∷ ns) = read_back-unary n (written ns) ns (read_back-written ns)

-- Upper and lower case read the same.
read_back-eq_ignore_ascii_case :
    (s t : String) → eq_ignore_ascii_case s t ≡ true → read_back s ≡ read_back t
unfolding read_back eq_ignore_ascii_case to_lower
read_back-eq_ignore_ascii_case String.[] String.[] e = refl
read_back-eq_ignore_ascii_case String.[] (String.◌∷◌ d t) e = cc
read_back-eq_ignore_ascii_case (String.◌∷◌ c s) String.[] e = cc
read_back-eq_ignore_ascii_case (String.◌∷◌ c s) (String.◌∷◌ d t) e =
    let same : to_lower (code c) ≡ to_lower (code d) = ground arith in
    let rest = read_back-eq_ignore_ascii_case s t (ground arith) in
    ap (λ k. read_one k (read_back s)) same ∙ ap (read_one (to_lower (code d))) rest

unary-is_hex : (n : ℕ) (s : String) → is_hex s ≡ true → is_hex (unary n s) ≡ true
unfolding is_hex unary
unary-is_hex zero s h = h
unary-is_hex (suc n) s h = unary-is_hex n s h

written-is_hex : (ns : Bytes) → is_hex (written ns) ≡ true
unfolding is_hex written
written-is_hex [] = refl
written-is_hex (n ∷ ns) = unary-is_hex n (written ns) (written-is_hex ns)

abbrev machine : Machine
machine = record {
  decode = read_back;
  encode = written;
  sha256 = written;
  cas_path = λ d. d;
  can_read = λ p. true;
  can_write = λ p. true;
  partial = λ p b. none;
  can_write_tmp = true;
  run_component =
      λ c i p e. returned c (record { compile = 1_500_000; instantiate = 0; execute = 2 });
  json_length = λ req. 100;
  body_limit = 2_097_152;
}

machine-IsWorking : IsWorking machine
machine-IsWorking = record {
  sound = record { hex = written-is_hex; apart = λ a b h k e. e; atomic = λ p b e. refl };
  codec = read_back-written;
  collision_free = λ a b e.
      let same =
        sym (read_back-written a)
        ∙ (read_back-eq_ignore_ascii_case (written a) (written b) e ∙ read_back-written b) in
      cc same;
  readable = λ p. refl;
  temporary = refl;
}

abbrev file : String → Option Bytes
file path = some (2 ∷ 0 ∷ [])

run_remote-result_example :
    (run_remote
      (served machine "http://w" true file (λ w. "id") (λ w. 0) (λ w. w))
      "http://w/"
      "a.wasm"
      (1 ∷ [])
      default_permissions
      []
      none
      (handle_cas_put machine (written (2 ∷ 0 ∷ [])) (2 ∷ 0 ∷ []) (fresh_worker [])).1).0
    ≡ ok (2 ∷ 0 ∷ [], record { compile = 1_000_000; instantiate = 0; execute = 0 })
unfolding trim_end
run_remote-result_example =
    run_remote-result machine true file (λ w. "id") (λ w. 0) (λ w. w) "http://w/" "a.wasm" (1 ∷ [])
      default_permissions [] none []
      (handle_cas_put machine (written (2 ∷ 0 ∷ [])) (2 ∷ 0 ∷ []) (fresh_worker [])).1
      machine-IsWorking (λ p q h. cc)
      (and_then still (uploaded (written (2 ∷ 0 ∷ [])) (2 ∷ 0 ∷ []))) (omega arith, omega arith)

-- A worker that never ends a job; the state of the network is the time.
abbrev silent : Http
silent = record {
  Net = ℕ;
  read = file;
  sha256 = λ b. "ab";
  encode = λ b. "";
  decode = λ t. some [];
  client = λ tls. true;
  head = λ tls url s. (s, some 200);
  put = λ tls url b s. (s, some 200);
  post_run = λ tls url req s. (s, none);
  post_jobs = λ tls url req s. (s, some (202, some (some "id")));
  get_job = λ tls url s.
      (s + 1, some (200, some (record { status = some "running"; output = none; error = none })));
  now = λ s. s;
  sleep = λ s. s + second;
}

silent-IsClock : IsClock silent
silent-IsClock = record { asked = λ tls url s. omega arith; slept = λ s. omega arith }

run_remote_async-IsAnswer_example :
    IsAnswer
      (run_remote_async silent
        (2 ^ 63 * second)
        "http://w"
        "a.wasm"
        []
        default_permissions
        []
        none
        0).0
unfolding cas_upload_ok
run_remote_async-IsAnswer_example =
    run_remote_async-IsAnswer silent (2 ^ 63 * second) "http://w" "a.wasm" [] default_permissions []
      none 0 silent-IsClock (omega arith)
