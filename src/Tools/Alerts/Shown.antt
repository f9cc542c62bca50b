-- ===== src/Tools/Alerts/Shown.antt =====
-- What a printed duration says, and which alerts are listed.
use on_call_agent.Base.{
  ℕ, ◌*◌, ◌+◌, ◌<◌, ◌≡◌, refl, true, List, [], ◌∷◌, Option, ℤ, pos, arith, Text, all_differ,
  unique_from, unique_from-differ, nat_eq, list_eq, map, ap, ◌∙◌,
}
use on_call_agent.Tools.Alerts.{
  PrometheusAlert, SimplifiedAlert, Duration, unknown, hours_minutes_seconds, minutes_seconds,
  only_seconds, minus_seconds, whole_seconds, show_duration, alert_name_of, simplify_from,
}

-- The whole seconds that a printed duration stands for, without its sign.
unfoldable pub seconds_shown : Duration → ℕ
seconds_shown unknown = 0
seconds_shown (hours_minutes_seconds h m s) = h * 3600 + m * 60 + s
seconds_shown (minutes_seconds m s) = m * 60 + s
seconds_shown (only_seconds s) = s
seconds_shown (minus_seconds s) = s

-- The minutes and seconds that a printed duration shows.
abbrev pub parts_shown : Duration → ℕ × ℕ
parts_shown unknown = (0, 0)
parts_shown (hours_minutes_seconds h m s) = (m, s)
parts_shown (minutes_seconds m s) = (m, s)
parts_shown (only_seconds s) = (0, s)
parts_shown (minus_seconds s) = (0, s)

-- A duration that is not negative is printed without loss of whole seconds, with fewer than sixty
-- minutes beside the hours and fewer than sixty seconds beside the minutes.
show_duration_lem :
    (n : ℕ)
    → (seconds_shown (show_duration (pos n)) ≡ whole_seconds n)
      × ((parts_shown (show_duration (pos n))).0 < 60)
      × ((parts_shown (show_duration (pos n))).1 < 60)
unfolding show_duration seconds_shown
show_duration_lem n = ground arith

-- The names of the alerts that are listed.
names-simplify_from :
    (since : Text → Option ℤ) (seen : List Text) (alerts : List PrometheusAlert)
    → map (λ (a : SimplifiedAlert). a.alert_name) (simplify_from since seen alerts)
      ≡ unique_from seen (map alert_name_of alerts)
unfolding simplify_from unique_from
names-simplify_from since seen [] = refl
names-simplify_from since seen (alert ∷ alerts) = ground (
  arith,
  names-simplify_from since seen alerts,
  names-simplify_from since (alert_name_of alert ∷ seen) alerts,
)

-- The alerts that are listed have the names of the alerts that were received, each name once and in
-- the order of its first alert.
simplify_from-names :
    (since : Text → Option ℤ) (alerts : List PrometheusAlert)
    → let names = map (λ (a : SimplifiedAlert). a.alert_name) (simplify_from since [] alerts) in
      (names ≡ unique_from [] (map alert_name_of alerts)) × (all_differ names ≡ true)
simplify_from-names since alerts =
    let e = names-simplify_from since [] alerts in
    (e, ap all_differ e ∙ unique_from-differ [] (map alert_name_of alerts))
