-- ===== src/Checks/Operations/Logs.antt =====
-- What the check of the operations shows.
use ai_protocol.Base.{
  ℕ, ◌≤◌, ◌<◌, ◌≡◌, refl, sym, ap, ◌∙◌, Bool, true, false, not, ◌&&◌, Option, none, some, List, [],
  ◌∷◌, arith,
}
use ai_protocol.Base.Lists.{All}
use ai_protocol.Base.Lines.{split_lines}
use ai_protocol.Base.Search.{contains, OccursIn, contains_iff}
use ai_protocol.Result.{Result, ok, require, >>=-ok}
use ai_protocol.Json.{Json, null, bool, int, float, str, arr, obj, Fields, is_obj}
use ai_protocol.Release.Name.{Text}
use ai_protocol.Checks.Operations.{
  Refusal, check_refusal, Run, exits_with, is_ok_body, exits_before, check_stop, check_lines,
  private_input, check_run, check_operations,
}

-- Neither the token nor the input of the request occurs, and each line is an object.
pub record IsPrivateLog (loads : Text → Result Json) (token output : Text) : Type 0 where
  pub no_token : ¬ OccursIn token output
  pub no_input : ¬ OccursIn private_input output
  pub objects : All (λ l. (fs : Fields) × (loads l ≡ ok (obj fs))) (split_lines output)

-- The process has exited in time with a status.
abbrev pub Exits : ℕ → ℕ → Option (ℕ × ℕ) → Type 0
Exits limit status o = (t : ℕ) × (o ≡ some (t, status)) × (t ≤ limit)

exits_with-Exits :
    (timeout status : ℕ) (o : Option (ℕ × ℕ))
    → exits_with timeout status o ≡ ok tt
    → Exits timeout status o
exits_with-Exits timeout status none h = cc
exits_with-Exits timeout status (some (t, s)) h =
    let same : s ≡ status = ground arith in (t, ap (λ x. some (t, x)) same, ground arith)

exits_before-lt :
    (limit status : ℕ) (o : Option (ℕ × ℕ)) (e : Exits 3000 status o)
    → exits_before limit o ≡ ok tt
    → e.0 < limit
exits_before-lt limit status none (t, e, l) h = cc
exits_before-lt limit status (some (u, s)) (t, e, l) h =
    let same : u ≡ t = ground arith in ground arith

absent : (needle output : Text) → contains needle output ≡ false → ¬ OccursIn needle output
absent needle output h o = let both : false ≡ true = sym h ∙ (contains_iff needle output).1 o in cc

is_obj-obj : (v : Json) → is_obj (some v) ≡ true → (fs : Fields) × (v ≡ obj fs)
is_obj-obj (obj fs) h = (fs, refl)
is_obj-obj null h = cc
is_obj-obj (bool b) h = cc
is_obj-obj (int n) h = cc
is_obj-obj (float x) h = cc
is_obj-obj (str s) h = cc
is_obj-obj (arr vs) h = cc

check_lines-objects :
    (loads : Text → Result Json) (ls : List Text)
    → check_lines loads ls ≡ ok tt
    → All (λ l. (fs : Fields) × (loads l ≡ ok (obj fs))) ls
unfolding check_lines
check_lines-objects loads [] h = tt
check_lines-objects loads (l ∷ ls) h =
    let (v, read, h1) = >>=-ok (loads l) _ h in
    let (u, an_object, h2) = >>=-ok (require (is_obj (some v)) _) _ h1 in
    let (fs, e) = is_obj-obj v (ground arith) in
    ((fs, read ∙ ap ok e), check_lines-objects loads ls h2)

-- A round of the check.
pub record Passed (loads : Text → Result Json) (token : Text) (limit status : ℕ) (r : Run)
    : Type 0 where
  pub exit : Exits limit status r.exits_after
  pub log : IsPrivateLog loads token r.output

check_run-Passed :
    (loads : Text → Result Json) (token : Text) (graceful : Bool) (r : Run) (limit status : ℕ)
    → (check_stop graceful r ≡ ok tt → Exits limit status r.exits_after)
    → check_run loads token graceful r ≡ ok tt
    → Passed loads token limit status r
unfolding check_run
check_run-Passed loads token graceful r limit status exits h =
    let (u0, ready, h0) = >>=-ok (require r.ready _) _ h in
    let (u1, started, h1) = >>=-ok (require r.upstream_started _) _ h0 in
    let (u2, stopped, h2) = >>=-ok (check_stop graceful r) _ h1 in
    let (u3, private', h3) =
      >>=-ok (require (not (contains token r.output) && not (contains private_input r.output)) _) _
        h2 in
    record {
      exit = exits stopped;
      log = record {
        no_token = absent token r.output (ground arith);
        no_input = absent private_input r.output (ground arith);
        objects = check_lines-objects loads (split_lines r.output) h3;
      };
    }

-- The request that was under way has ended in the upstream's answer.
abbrev pub IsAnswered : Run → Type 0
IsAnswered r = (v : Json) × (r.result ≡ ok v) × (is_ok_body v ≡ true)

stops_gracefully : (r : Run) → check_stop true r ≡ ok tt → Exits 5000 0 r.exits_after × IsAnswered r
unfolding check_stop
stops_gracefully r h =
    let (v, answered, h1) = >>=-ok r.result _ h in
    let (u, body, h2) = >>=-ok (require (is_ok_body v) _) _ h1 in
    (exits_with-Exits 5000 0 r.exits_after h2, (v, answered, ground arith))

stops_hastily : (r : Run) → check_stop false r ≡ ok tt → Exits 2999 1 r.exits_after
unfolding check_stop
stops_hastily r h =
    let (u, exits, h1) = >>=-ok (exits_with 3000 1 r.exits_after) _ h in
    let (v, before, h2) = >>=-ok (exits_before 3000 r.exits_after) _ h1 in
    let e = exits_with-Exits 3000 1 r.exits_after exits in
    (e.0, e.1, omega (arith, exits_before-lt 3000 1 r.exits_after e before))

check_run-stop :
    (loads : Text → Result Json) (token : Text) (graceful : Bool) (r : Run)
    → check_run loads token graceful r ≡ ok tt
    → check_stop graceful r ≡ ok tt
unfolding check_run
check_run-stop loads token graceful r h =
    let (u0, ready, h0) = >>=-ok (require r.ready _) _ h in
    let (u1, started, h1) = >>=-ok (require r.upstream_started _) _ h0 in
    let (u2, stopped, h2) = >>=-ok (check_stop graceful r) _ h1 in stopped

-- If the check of the operations passes: a bad configuration was refused with status 1 and without
-- the token in the message; the gateway with a long grace period exited with status 0 within five
-- seconds, after the request under way had its answer; the one with a short grace period exited with
-- status 1 in less than three; and neither log holds the token or the input of the request, and
-- each of its lines is a JSON object.
pub check_operations-Passed :
    (loads : Text → Result Json) (token : Text) (refusal : Refusal) (patient hasty : Run)
    → check_operations loads token refusal patient hasty ≡ ok tt
    → (refusal.status ≡ 1)
      × ¬ OccursIn token refusal.errors
      × IsAnswered patient
      × Passed loads token 5000 0 patient
      × Passed loads token 2999 1 hasty
unfolding check_operations check_refusal
check_operations-Passed loads token refusal patient hasty h =
    let (u0, refused, h0) = >>=-ok (check_refusal token refusal) _ h in
    let (u1, first', h1) = >>=-ok (check_run loads token true patient) _ h0 in
    let answered = (stops_gracefully patient (check_run-stop loads token true patient first')).1 in
    (
      ground arith,
      absent token refusal.errors (ground arith),
      answered,
      check_run-Passed loads token true patient 5000 0 (λ s. (stops_gracefully patient s).0) first',
      check_run-Passed loads token false hasty 2999 1 (stops_hastily hasty) h1,
    )
