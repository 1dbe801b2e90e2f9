-- ===== src/Agent/Loop.antt =====
-- agent/loop.go: the push loop. A round is given what the world answers: the clock, the mother's
-- reply, and what the two callbacks would return. Clock readings and gaps are nanoseconds.
pub mod Throttle
pub mod Reports
use feast_watch.Prelude.{
  ℕ, ◌-◌, String, Bool, true, false, Option, none, some, List, [], ◌∷◌, ◌++◌, ltb, ◌==◌, str_eq,
  is_empty, length, if◌then◌else◌, ◌&&◌, ◌||◌,
}
use feast_watch.Prelude.Int.{ℤ, pos, ltb_ℤ, pos_part}
use feast_watch.Prelude.Map.{Map}
use feast_watch.Protocol.{IngestRequest, IngestResponse}
use feast_watch.Agent.Collectors.{Registry, collect_enabled}

abbrev pub default_interval : ℕ
default_interval = 10

abbrev pub update_retry_gap : ℕ
update_retry_gap = 300000000000

abbrev pub uninstall_retry_gap : ℕ
uninstall_retry_gap = 300000000000

-- `none` is the zero `time.Time`.
pub record Loop : Type 0 where
  pub enabled : List String
  pub interval : ℕ
  pub pushed : Bool
  pub update_err : String
  pub update_target : String
  pub last_update_at : Option ℕ
  pub uninstall_err : String
  pub last_uninstall_at : Option ℕ

abbrev pub new_loop : Loop
new_loop = record {
  enabled = "cpu" ∷ "memory" ∷ "uptime" ∷ "disk" ∷ [];
  interval = default_interval;
  pushed = false;
  update_err = "";
  update_target = "";
  last_update_at = none;
  uninstall_err = "";
  last_uninstall_at = none;
}

-- What the host says of itself: os.Hostname, localIP, runtime.GOOS, runtime.GOARCH, the names of
-- the registered collectors.
pub record Host : Type 0 where
  pub hostname : String
  pub ip : String
  pub os : String
  pub arch : String
  pub capabilities : List String

-- How the exchange with the mother ends: no answer (the request could not be built or sent), or a
-- status with a body, `none` where it does not decode.
pub data Reply : Type 0 where
  lost : Reply
  answered : ℕ → Option IngestResponse → Reply

-- A callback's result: `none` is nil, a text is the error.
pub record Round : Type 0 where
  pub now : ℕ
  pub reply : Reply
  pub update : String → Option String
  pub uninstall : Option (Option String)

-- What a round did to the host.
pub data Action : Type 0 where
  updated : String → Action
  uninstalled : Action

-- The request that `PushOnce` sends.
pub push_request : {V : Type 0} → String → String → Host → Registry V → Loop → IngestRequest V
push_request server version host reg l = record {
  server = server;
  agent_version = version;
  hostname = if l.pushed then "" else host.hostname;
  ip = if l.pushed then "" else host.ip;
  os = if l.pushed then "" else host.os;
  arch = if l.pushed then "" else host.arch;
  capabilities = if l.pushed then [] else host.capabilities;
  update_error = l.update_err;
  uninstall_error = l.uninstall_err;
  samples = collect_enabled reg l.enabled;
}

-- The end of `PushOnce`, for an answer that decoded.
unfoldable pub accept : Loop → IngestResponse → Loop
accept l resp = record l {
  pushed = true;
  enabled = if length resp.collectors == 0 then l.enabled else resp.collectors;
  interval = if ltb_ℤ (pos 0) resp.interval then pos_part resp.interval else l.interval;
}

unfoldable pub push_once : Loop → Reply → Option IngestResponse × Loop
unfolding accept
push_once l lost = (none, l)
push_once l (answered status none) = (none, l)
push_once l (answered status (some resp)) =
    if status == 200 then (some resp, accept l resp) else (none, l)

-- `now.Sub(last) < gap`; the distance from the zero time is as long as a Duration gets.
abbrev pub is_within : ℕ → Option ℕ → ℕ → Bool
is_within now none gap = false
is_within now (some last) gap = ltb (now - last) gap

abbrev pub error_text : Option String → String
error_text none = ""
error_text (some e) = e

unfoldable pub try_uninstall : Loop → ℕ → Option (Option String) → Loop × List Action
try_uninstall l now none =
    (record l { uninstall_err = "this agent cannot remove itself (no uninstaller wired in)" }, [])
try_uninstall l now (some result) =
    if is_within now l.last_uninstall_at uninstall_retry_gap then (l, []) else (
      record l { last_uninstall_at = some now; uninstall_err = error_text result },
      uninstalled ∷ [],
    )

pub try_update : Loop → ℕ → String → (String → Option String) → Loop × List Action
try_update l now desired update =
    if str_eq desired l.update_target && is_within now l.last_update_at update_retry_gap
    then (l, [])
    else (
      record l {
        update_target = desired;
        last_update_at = some now;
        update_err = error_text (update desired);
      },
      updated desired ∷ [],
    )

pub forget_update : Loop → Loop
forget_update l = record l { update_err = ""; update_target = ""; last_update_at = none }

-- What `RunOnce` does with the answer to its push. `version` is the running version.
unfoldable pub act : String → Loop → Round → Option IngestResponse → Loop × List Action
unfolding try_uninstall try_update forget_update
act version l r none = (l, [])
act version l r (some resp) =
    if resp.uninstall
    then try_uninstall l r.now r.uninstall
    else (if is_empty resp.desired_version || str_eq resp.desired_version version
        then (forget_update l, [])
        else try_update l r.now resp.desired_version r.update)

unfoldable pub run_once : String → Loop → Round → Loop × List Action
unfolding push_once act
run_once version l r = let (resp, l') = push_once l r.reply in act version l' r resp

-- `Run`, for the rounds that the process lives: the state that is left, and all that was done.
pub run : String → Loop → List Round → Loop × List Action
run version l [] = (l, [])
run version l (r ∷ rest) =
    let (l', done) = run_once version l r in
    let (l'', more) = run version l' rest in (l'', done ++ more)
