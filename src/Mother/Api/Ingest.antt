-- ===== src/Mother/Api/Ingest.antt =====
-- mother/api/ingest.go: a push of an agent.
pub mod Rejection
pub mod Folding
pub mod Limit
use feast_watch.Prelude.{
  ℕ, ◌/◌, String, Bool, true, false, Option, none, some, List, [], ◌∷◌, ltb, leb, ◌==◌,
  if◌then◌else◌, ◌&&◌, ◌||◌, not, length, find_if,
}
use feast_watch.Prelude.Map.{Map}
use feast_watch.Prelude.Text.{codes}
use feast_watch.Protocol.{IngestRequest, IngestResponse}
use feast_watch.Live
use feast_watch.Live.{second}
use feast_watch.Mother.Store.Tables.{Server, Tables, Arithmetic, Result, ok, err}
use feast_watch.Mother.Store.Rollups.{apply_samples}
use feast_watch.Mother.Store.Servers.{touch_server, set_capabilities}
use feast_watch.Mother.Api.State.{Api, Authenticated, refused, as_server, bearer_server, allow_push}

abbrev pub max_samples_per_push : ℕ
max_samples_per_push = 256

abbrev pub max_metric_name_len : ℕ
max_metric_name_len = 64

abbrev is_lower : ℕ → Bool
is_lower c = leb b'a' c && leb c b'z'

abbrev is_word : ℕ → Bool
is_word c = is_lower c || (leb b'0' c && leb c b'9') || c == b'_'

-- What follows the first letter in `metricName`; the flag says that the last character was a dot.
abbrev matches_rest : Bool → List ℕ → Bool
matches_rest dot [] = not dot
matches_rest dot (c ∷ cs) =
    let word = matches_rest false cs in
    let after_dot = matches_rest true cs in
    if is_word c then word else (if c == b'.' && not dot then after_dot else false)

abbrev matches_metric : List ℕ → Bool
matches_metric [] = false
matches_metric (c ∷ cs) = is_lower c && matches_rest false cs

unfoldable pub is_metric_name : String → Bool
is_metric_name name =
    let cs = codes name in leb (length cs) max_metric_name_len && matches_metric cs

-- The first key that is not acceptable, in the order in which the range visits the map.
unfoldable pub invalid_metric : {V : Type 0} → Map String V → Option String
unfolding is_metric_name
invalid_metric [] = none
invalid_metric ((name, v) ∷ samples) =
    let rest = invalid_metric samples in if is_metric_name name then rest else some name

-- What the world answers during a request. `now` is the reading of the rate limit, `later` the one
-- that stamps the push, in nanoseconds; `body` is `none` where it does not decode or is too long.
pub record Request (V : Type 0) : Type 0 where
  pub authorization : String
  pub body : Option (IngestRequest V)
  pub now : ℕ
  pub later : ℕ
  pub lookup_fails : Bool
  pub apply_fails : Bool
  pub touch_fails : Bool
  pub capabilities_fail : Bool
  pub settings_fail : Bool

pub data Answer : Type 0 where
  rejected : ℕ → Answer
  accepted : IngestResponse → Answer

module _ {V : Type 0} where
  -- A failure that is logged and otherwise passed over.
  abbrev pub or_same : Tables V → Result (Tables V) → Tables V
  or_same t (ok t') = t'
  or_same t (err e) = t

  -- The two writes of the sender's row.
  unfoldable pub report_in : Request V → IngestRequest V → Server → Tables V → Tables V
  report_in r req srv t =
      let touched = or_same t (
        touch_server r.touch_fails srv.id req.agent_version req.hostname req.ip req.os req.arch
          req.update_error req.uninstall_error (r.later / second) t) in
      or_same touched (set_capabilities r.capabilities_fail srv.id req.capabilities touched)

  -- From the touch of the row to the answer.
  unfoldable pub acknowledge : Request V → IngestRequest V → Server → Api V → Answer × Api V
  unfolding report_in
  acknowledge r req srv a =
      let a' = record a { tables = report_in r req srv a.tables } in
      if r.settings_fail then (rejected 500, a') else (
        accepted (record {
          collectors = srv.collectors;
          interval = a.settings.interval;
          desired_version = srv.desired_version;
          uninstall = not (srv.uninstall_requested_at == 0);
        }),
        a',
      )

module _ {V : Type 0} (f : Arithmetic V) where
  -- The samples go to the rollups and then to the live store, or the request ends.
  unfoldable pub fold_in :
      Request V → IngestRequest V → Server → Api V → Result (Tables V) → Answer × Api V
  unfolding acknowledge
  fold_in r req srv a (err e) = (rejected 500, a)
  fold_in r req srv a (ok t) = acknowledge r req srv (record a {
    tables = t;
    live = Live.add a.live r.later srv.id (r.later / second) req.samples;
  })

  unfoldable pub store_push : Request V → IngestRequest V → Server → Api V → Answer × Api V
  unfolding fold_in
  store_push r req srv a =
      let stamp = r.later / second in
      if ltb srv.last_push stamp
      then fold_in r req srv a (apply_samples f r.apply_fails srv.id stamp req.samples a.tables)
      else acknowledge r req srv a

  abbrev pub check_names : Option String → Answer × Api V → Api V → Answer × Api V
  check_names (some bad) go a = (rejected 400, a)
  check_names none go a = go

  -- A request of a known agent with a body that decoded.
  unfoldable pub ingest_body : Request V → Server → IngestRequest V → Api V → Answer × Api V
  unfolding store_push
  ingest_body r srv req a =
      if ltb max_samples_per_push (length req.samples)
      then (rejected 400, a)
      else (let (allowed, a') = allow_push r.now srv.id a in
          if not allowed
          then (rejected 429, a')
          else check_names (invalid_metric req.samples) (store_push r req srv a') a')

  abbrev pub ingest_from :
      Request V → Option (IngestRequest V) → Authenticated → Api V → Answer × Api V
  ingest_from r body (refused status) a = (rejected status, a)
  ingest_from r none (as_server srv) a = (rejected 400, a)
  ingest_from r (some req) (as_server srv) a = ingest_body r srv req a

  unfoldable pub handle_ingest : Request V → Api V → Answer × Api V
  unfolding ingest_body
  handle_ingest r a = ingest_from r r.body (bearer_server r.lookup_fails r.authorization a.tables) a
