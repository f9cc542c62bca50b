-- ===== src/Tools/Alerts/Tests.antt =====
-- Two alerts of one name, and one of another.
use on_call_agent.Base.{
  ◌≡◌, refl, List, [], ◌∷◌, none, Option, ℤ, pos, negsuc, Text, codes, nat_eq, list_eq, map,
}
use on_call_agent.Base.Map.{get}
use on_call_agent.Tools.Alerts.{
  PrometheusAlert, SimplifiedAlert, alert_name_of, simplify_from, show_duration, minus_seconds,
  hours_minutes_seconds,
}

abbrev alert : Text → PrometheusAlert
alert name = record {
  labels = (codes "alertname", name) ∷ [];
  annotations = [];
  state = codes "firing";
  active_at = [];
}

abbrev three : List PrometheusAlert
three = alert (codes "up") ∷ alert (codes "down") ∷ alert (codes "up") ∷ []

abbrev no_time : Text → Option ℤ
no_time t = none

two_listed :
    map (λ (a : SimplifiedAlert). a.alert_name) (simplify_from no_time [] three)
    ≡ codes "up" ∷ codes "down" ∷ []
unfolding simplify_from alert_name_of get
two_listed = refl

-- Whole minutes before now are not printed for an alert from the future.
future_minutes : show_duration (negsuc 90_000_000_000) ≡ minus_seconds 30
unfolding show_duration
future_minutes = refl

shown : show_duration (pos 3_725_000_000_000) ≡ hours_minutes_seconds 1 2 5
unfolding show_duration
shown = refl
