-- ===== src/Tools/Alerts.antt =====
-- The alerts tool, internal/ai/tools/query_metrics_alerts.go. The HTTP call, JSON and the clock are
-- parameters; a duration is whole nanoseconds, negative for an alert from the future.
mod Shown
mod Tests
use on_call_agent.Base.{
  ℕ, suc, ◌/◌, ◌%◌, ◌*◌, ◌+◌, Bool, true, false, List, [], ◌∷◌, Option, none, some, ℤ, pos, negsuc,
  if◌then◌else◌, ltb, Text, codes, Result, ok, err, contains, length, nat_eq, list_eq,
}
use on_call_agent.Base.Map.{get}

pub record PrometheusAlert : Type 0 where
  pub labels : List (Text × Text)
  pub annotations : List (Text × Text)
  pub state : Text
  pub active_at : Text

-- What calculateDuration prints, by the format that it picks.
pub data Duration : Type 0 where
  unknown : Duration
  hours_minutes_seconds : ℕ → ℕ → ℕ → Duration
  minutes_seconds : ℕ → ℕ → Duration
  only_seconds minus_seconds : ℕ → Duration

-- Whole seconds in a number of nanoseconds.
abbrev pub whole_seconds : ℕ → ℕ
whole_seconds n = n / 1_000_000_000

-- The formats for a duration that is not negative, and for one that is: there only the seconds are
-- printed.
unfoldable pub show_duration : ℤ → Duration
show_duration (pos n) =
    let total = whole_seconds n in
    let hours = total / 3600 in
    let minutes = total / 60 % 60 in
    let seconds = total % 60 in
    if ltb 0 hours
    then hours_minutes_seconds hours minutes seconds
    else if ltb 0 minutes
    then minutes_seconds minutes seconds
    else only_seconds seconds
show_duration (negsuc n) =
    let seconds = whole_seconds (suc n) % 60 in
    if ltb 0 seconds then minus_seconds seconds else only_seconds 0

-- calculateDuration; `since` parses an RFC 3339 time and subtracts it from now.
unfoldable pub calculate_duration : (Text → Option ℤ) → Text → Duration
calculate_duration since active_at = elim (since active_at) [
  | none ↦ unknown
  | some d ↦ show_duration d
]

pub record SimplifiedAlert : Type 0 where
  pub alert_name : Text
  pub description : Text
  pub alert_state : Text
  pub alert_active_at : Text
  pub duration : Duration

-- A missing key of a Go map reads as the empty text.
abbrev pub lookup : Text → List (Text × Text) → Text
lookup key m = elim (get key m) [ none ↦ [] | some v ↦ v ]

unfoldable pub alert_name_of : PrometheusAlert → Text
alert_name_of alert = lookup (codes "alertname") alert.labels

-- The loop over the alerts; `seen` are the names so far.
unfoldable pub simplify_from :
    (Text → Option ℤ) → List Text → List PrometheusAlert → List SimplifiedAlert
simplify_from since seen [] = []
simplify_from since seen (alert ∷ alerts) =
    let name = alert_name_of alert in
    if contains name seen
    then simplify_from since seen alerts
    else record {
      alert_name = name;
      description = lookup (codes "description") alert.annotations;
      alert_state = alert.state;
      alert_active_at = alert.active_at;
      duration = calculate_duration since alert.active_at;
    }
      ∷ simplify_from since (name ∷ seen) alerts

-- PrometheusAlertsOutput; `count` is the number in the message.
pub data AlertsOutput : Type 0 where
  alerts_failed : Text → AlertsOutput
  alerts_found : List SimplifiedAlert → ℕ → AlertsOutput

-- The function of the tool, with what queryPrometheusAlerts answers, as far as its output before JSON.
unfoldable pub query_alerts : (Text → Option ℤ) → Result Text (List PrometheusAlert) → AlertsOutput
query_alerts since (err e) = alerts_failed e
query_alerts since (ok alerts) =
    let simplified = simplify_from since [] alerts in alerts_found simplified (length simplified)
