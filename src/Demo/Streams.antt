-- ===== src/Demo/Streams.antt =====
-- `main` of examples/queue_demo.py: the held and the paced catalog, and the streams of requests of
-- the two classes, in any order.
pub mod Counted
pub mod Expiry
use ai_protocol.Base.{
  leb, ◌==◌, if◌then◌else◌, ℕ, zero, suc, ◌+◌, ◌-◌, Bool, true, false, not, ◌||◌, none, some, List,
  [], ◌∷◌, ◌++◌,
}
use ai_protocol.Base.Lists.{get_elem?, set}
use ai_protocol.Base.Text.{codes, starts_with}
use ai_protocol.Result.{assertion_error, Result, ok, err, ◌>>=◌, ◌>>◌}
use ai_protocol.Release.Name.{Text, mem, find}
use ai_protocol.Demo.Catalog.{Reply, Params, Library, send_error, do_get}

-- What the handlers share: the permits of `holds_started` and `release_work`, whether
-- `release_holds` is set, and the queries that were `seen`.
pub record Control : Type 0 where
  pub holds_started : ℕ
  pub holds_released : Bool
  pub work : ℕ
  pub seen : List Text

-- `seen.add(query)`
abbrev pub add : Text → List Text → List Text
add query seen = if mem query seen then seen else query ∷ seen

abbrev pub query_param : Params → Text
query_param params = elim (find (codes "query") params) [ none ↦ [] | some v ↦ v.0 ]

abbrev pub is_held : Text → Bool
is_held query = starts_with query (codes "hold-")

-- Whether a handler goes on, and what it leaves: `in_time` says whether the event is set, or a permit
-- is given, within the four seconds that it waits where it has to.
unfoldable pub hold : Bool → Text → Control → Bool × Control
hold in_time query c =
    let noted = record c { seen = add query c.seen } in
    if is_held query
    then (c.holds_released || in_time, record noted { holds_started = c.holds_started + 1 })
    else if leb 1 c.work
    then (true, record noted { work = c.work - 1 })
    else (in_time, noted)

-- `ControlledCatalog.do_GET` of queue_demo.py.
unfoldable pub do_get_held : Library → Bool → Text → Control → Result Reply × Control
do_get_held lib in_time target c = elim (lib.urlparse target) [
  | err e ↦ (err e, c)
  | ok url ↦
      let (ready, c') = hold in_time (query_param (lib.parse_qs url.1)) c in
      (if not ready then ok (send_error 503) else do_get lib target, c')
]

-- A call of `stream`: its class, and the requests that it has still to make.
pub record Worker : Type 0 where
  pub is_interactive : Bool
  pub left : ℕ

-- `completed`, with the calls of `stream`.
pub record Streams : Type 0 where
  pub workers : List Worker
  pub interactive : ℕ
  pub agent : ℕ

-- `completed[kind] += 1`
abbrev pub count_success : Worker → Streams → Streams
count_success w s =
    if w.is_interactive
    then record s { interactive = s.interactive + 1 }
    else record s { agent = s.agent + 1 }

-- The end of one request of a call: the status that it was answered with.
unfoldable pub complete : ℕ → ℕ → Streams → Result Streams
complete i status s = elim (get_elem? s.workers i) [
  | none ↦ ok s
  | some w ↦
      if w.left == 0
      then ok s
      else if not (status == 200)
      then err (assertion_error "Unexpected status in stream")
      else ok (record (count_success w s) {
        workers = set s.workers i (record w { left = w.left - 1 });
      })
]

-- `asyncio.gather`: the requests of the calls end in some order.
unfoldable pub gather : List (ℕ × ℕ) → Streams → Result Streams
gather [] s = ok s
gather ((i, status) ∷ ends) s = do next ← complete i status s; gather ends next

abbrev pub replicate : {A : Type 0} → ℕ → A → List A
replicate zero x = []
replicate (suc n) x = x ∷ replicate n x

-- `range(8)` interactive calls and `range(12)` of the agents, of ten requests each.
abbrev pub streams : Streams
streams = record {
  workers =
      replicate 8 (record { is_interactive = true; left = 10 })
      ++ replicate 12 (record { is_interactive = false; left = 10 });
  interactive = 0;
  agent = 0;
}
