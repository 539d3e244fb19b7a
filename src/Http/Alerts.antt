-- ===== src/Http/Alerts.antt =====
-- `BuiltInAlertEvaluator` of crates/picloud-http/src/alerts.rs. The lock is held for the whole of a
-- call. The 64-bit floats, their comparison by `>` and the text that the message template makes of
-- them are parameters. `now` is the time that the call reads, in seconds.
pub mod Firing
use picloud.Prelude.{
  ℕ, ◌+◌, Bool, true, false, not, ◌&&◌, Option, none, some, List, [], ◌∷◌, ◌++◌, ltb, if◌then◌else◌,
  ◌==◌, find,
}
use picloud.Prelude.Equality.{nat_eq, list_eq, pair_eq}
use picloud.Prelude.HashMap
use picloud.Prelude.HashMap.{HashMap}
use picloud.Prelude.Texts.{Text}
use picloud.Domain.Iri.{ResourceIri, IriBuilder, inference_rule}

pub data AlertSeverity : Type 0 where
  info warning critical : AlertSeverity

pub record BuiltInAlertRule (F : Type 0) : Type 0 where
  pub name : Text
  pub metric_name : Text
  pub threshold : F
  pub alert_type : Text
  pub severity : AlertSeverity
  pub message_template : Text

pub record MetricEntry (F : Type 0) : Type 0 where
  pub name : Text
  pub value : F
  pub unit : Text

pub record AlertState : Type 0 where
  pub is_firing : Bool
  pub resolved_at : Option ℕ

-- The pair of the rule's name and the resource's IRI.
abbrev pub AlertKey : Type 0
AlertKey = Text × Text

pub record AlertFiredPayload : Type 0 where
  pub alert_type : Text
  pub severity : AlertSeverity
  pub message : Text
  pub resource_iri : ResourceIri
  pub rule_iri : ResourceIri
  pub fired_at : ℕ

pub record AlertResolvedPayload : Type 0 where
  pub alert_type : Text
  pub resource_iri : ResourceIri
  pub rule_iri : ResourceIri
  pub resolved_at : ℕ

pub data AlertAction : Type 0 where
  fire : AlertFiredPayload → AlertAction
  resolve : AlertResolvedPayload → AlertAction

abbrev pub States : Type 0
States = HashMap AlertKey AlertState

abbrev pub firing : Option AlertState → Bool
firing none = false
firing (some s) = s.is_firing

-- `now.signed_duration_since(resolved_time) < dampening`.
abbrev in_window : ℕ → ℕ → Option ℕ → Bool
in_window now dampening none = false
in_window now dampening (some resolved_time) = ltb now (resolved_time + dampening)

abbrev dampened : ℕ → ℕ → Option AlertState → Bool
dampened now dampening none = false
dampened now dampening (some s) = in_window now dampening s.resolved_at

module _ {F : Type 0} (exceeds : F → F → Bool) (message : Text → F → F → Text) where
  abbrev fired : ℕ → IriBuilder → BuiltInAlertRule F → ResourceIri → F → AlertAction
  fired now b rule node_iri value = fire (record {
    alert_type = rule.alert_type;
    severity = rule.severity;
    message = message rule.message_template value rule.threshold;
    resource_iri = node_iri;
    rule_iri = inference_rule b rule.name;
    fired_at = now;
  })

  abbrev resolved : ℕ → IriBuilder → BuiltInAlertRule F → ResourceIri → AlertAction
  resolved now b rule node_iri = resolve (record {
    alert_type = rule.alert_type;
    resource_iri = node_iri;
    rule_iri = inference_rule b rule.name;
    resolved_at = now;
  })

  -- The transition of one alert, by whether the value exceeds the threshold and its state so far.
  abbrev pub transition :
      ℕ
      → ℕ
      → IriBuilder
      → BuiltInAlertRule F
      → ResourceIri
      → F
      → Option AlertState
      → States
      → List AlertAction × States
  transition now dampening b rule node_iri value current states =
      if exceeds value rule.threshold && not (firing current)
      then if dampened now dampening current then ([], states) else (
        fired now b rule node_iri value ∷ [],
        HashMap.insert states (rule.name, node_iri)
            (record { is_firing = true; resolved_at = none }),
      )
      else if not (exceeds value rule.threshold) && firing current
      then (
        resolved now b rule node_iri ∷ [],
        HashMap.insert states (rule.name, node_iri)
            (record { is_firing = false; resolved_at = some now }),
      )
      else ([], states)

  -- One round of the loop over the rules.
  abbrev pub evaluate_metric :
      ℕ
      → ℕ
      → IriBuilder
      → BuiltInAlertRule F
      → ResourceIri
      → Option (MetricEntry F)
      → States
      → List AlertAction × States
  evaluate_metric now dampening b rule node_iri none states = ([], states)
  evaluate_metric now dampening b rule node_iri (some m) states =
      transition now dampening b rule node_iri m.value (HashMap.get states (rule.name, node_iri))
        states

  unfoldable pub evaluate :
      ℕ
      → ℕ
      → IriBuilder
      → List (BuiltInAlertRule F)
      → ResourceIri
      → List (MetricEntry F)
      → States
      → List AlertAction × States
  evaluate now dampening b [] node_iri metrics states = ([], states)
  evaluate now dampening b (rule ∷ rules) node_iri metrics states =
      let (first, between) =
        evaluate_metric now dampening b rule node_iri
          (find (λ m. m.name == rule.metric_name) metrics) states in
      let (more, after) = evaluate now dampening b rules node_iri metrics between in
      (first ++ more, after)
