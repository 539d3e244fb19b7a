-- ===== src/Http/Alerts/Firing.antt =====
-- That the actions on an alert take turns, and the dampening window.
use picloud.Prelude.{
  ℕ, ◌+◌, ◌<◌, ◌≡◌, refl, ap, ◌∙◌, Bool, true, false, ◌&&◌, Option, none, some, List, [], ◌∷◌, ◌++◌,
  if◌then◌else◌, ◌==◌, arith, any, any-append, find, ==_iff, Bool-cases, inl, inr,
}
use picloud.Prelude.Equality.{nat_eq, list_eq, pair_eq, list_beq}
use picloud.Prelude.HashMap
use picloud.Prelude.HashMap.{HashMap, get-insert}
use picloud.Prelude.Texts.{Text, codes}
use picloud.Domain.Iri.{ResourceIri, IriBuilder, inference_rule, root}
use picloud.Http.Alerts.{
  BuiltInAlertRule, MetricEntry, AlertState, AlertKey, AlertAction, fire, resolve, States, firing,
  transition, evaluate_metric, evaluate,
}

-- The action is on the alert of that rule IRI and resource.
abbrev is_on : ResourceIri → ResourceIri → AlertAction → Bool
is_on rule_iri resource_iri (fire p) = p.rule_iri == rule_iri && p.resource_iri == resource_iri
is_on rule_iri resource_iri (resolve p) = p.rule_iri == rule_iri && p.resource_iri == resource_iri

abbrev is_fire : AlertAction → Bool
is_fire (fire p) = true
is_fire (resolve p) = false

-- Whether the alert fires after the actions, read one after the other: nothing if one that fires is
-- fired or one that does not is resolved.
unfoldable pub replay : ResourceIri → ResourceIri → List AlertAction → Bool → Option Bool
replay rule_iri resource_iri [] now = some now
replay rule_iri resource_iri (a ∷ actions) now =
    let rest = replay rule_iri resource_iri actions in
    if is_on rule_iri resource_iri a
    then if now
      then (if is_fire a then none else rest false)
      else (if is_fire a then rest true else none)
    else rest now

abbrev then_replay : ResourceIri → ResourceIri → List AlertAction → Option Bool → Option Bool
then_replay rule_iri resource_iri actions none = none
then_replay rule_iri resource_iri actions (some now) = replay rule_iri resource_iri actions now

replay-append :
    (i r : ResourceIri) (xs ys : List AlertAction) (now : Bool)
    → replay i r (xs ++ ys) now ≡ then_replay i r ys (replay i r xs now)
unfolding replay
replay-append i r [] ys now = refl
replay-append i r (a ∷ xs) ys now =
    ground (arith, replay-append i r xs ys true, replay-append i r xs ys false)

beq-append : (p x y : Text) → list_beq (p ++ x) (p ++ y) ≡ list_beq x y
beq-append [] x y = refl
beq-append (c ∷ p) x y = ground (arith, beq-append p x y)

inference_rule-injective :
    (b : IriBuilder) (x y : Text) → (inference_rule b x == inference_rule b y) ≡ (x == y)
unfolding inference_rule
inference_rule-injective b x y =
    beq-append (root b) (codes "/inference-rules/" ++ x) (codes "/inference-rules/" ++ y)
    ∙ beq-append (codes "/inference-rules/") x y

module _ {F : Type 0} (exceeds : F → F → Bool) (message : Text → F → F → Text) (now dampening : ℕ)
    (b : IriBuilder) where
  replay-transition :
      (rule : BuiltInAlertRule F) (node_iri : ResourceIri) (value : F) (states : States)
      → (name resource_iri : Text)
      → let (actions, after) =
          transition exceeds message now dampening b rule node_iri value
            (HashMap.get states (rule.name, node_iri))
            states in
        replay
          (inference_rule b name)
          resource_iri
          actions
          (firing (HashMap.get states (name, resource_iri)))
        ≡ some (firing (HashMap.get after (name, resource_iri)))
  unfolding replay
  replay-transition rule node_iri value states name resource_iri = ground (
    arith,
    get-insert states (rule.name, node_iri) (name, resource_iri)
        (record { is_firing = true; resolved_at = none }),
    get-insert states (rule.name, node_iri) (name, resource_iri)
        (record { is_firing = false; resolved_at = some now }),
    inference_rule-injective b rule.name name,
    ==_iff rule.name name,
    ==_iff node_iri resource_iri,
  )

  replay-evaluate_metric :
      (rule : BuiltInAlertRule F) (node_iri : ResourceIri) (m : Option (MetricEntry F))
      (states : States)
      → (name resource_iri : Text)
      → let (actions, after) =
          evaluate_metric exceeds message now dampening b rule node_iri m states in
        replay
          (inference_rule b name)
          resource_iri
          actions
          (firing (HashMap.get states (name, resource_iri)))
        ≡ some (firing (HashMap.get after (name, resource_iri)))
  unfolding replay
  replay-evaluate_metric rule node_iri none states name resource_iri = refl
  replay-evaluate_metric rule node_iri (some m) states name resource_iri =
      replay-transition rule node_iri m.value states name resource_iri

  -- The actions of an evaluation on an alert take turns, fire after resolve and resolve after fire,
  -- from the state that was kept of it to the one that is kept after it, whatever the rules, the
  -- metrics and the resource.
  pub replay-evaluate :
      (rules : List (BuiltInAlertRule F)) (node_iri : ResourceIri) (metrics : List (MetricEntry F))
      → (states : States) (name resource_iri : Text)
      → let (actions, after) =
          evaluate exceeds message now dampening b rules node_iri metrics states in
        replay
          (inference_rule b name)
          resource_iri
          actions
          (firing (HashMap.get states (name, resource_iri)))
        ≡ some (firing (HashMap.get after (name, resource_iri)))
  unfolding evaluate replay
  replay-evaluate [] node_iri metrics states name resource_iri = refl
  replay-evaluate (rule ∷ rules) node_iri metrics states name resource_iri =
      let i = inference_rule b name in
      let step =
        evaluate_metric exceeds message now dampening b rule node_iri
          (find (λ m. m.name == rule.metric_name) metrics) states in
      let rest = evaluate exceeds message now dampening b rules node_iri metrics step.1 in
      replay-append i resource_iri step.0 rest.0 (firing (HashMap.get states (name, resource_iri)))
      ∙ ap (then_replay i resource_iri rest.0) (
          replay-evaluate_metric rule node_iri (find (λ m. m.name == rule.metric_name) metrics)
            states name resource_iri)
      ∙ replay-evaluate rules node_iri metrics step.1 name resource_iri

  dampened_transition :
      (rule : BuiltInAlertRule F) (node_iri : ResourceIri) (value : F) (states : States)
      → (o : Option AlertState) (t : ℕ)
      → o ≡ some (record { is_firing = false; resolved_at = some t })
      → now < t + dampening
      → transition exceeds message now dampening b rule node_iri value o states ≡ ([], states)
  dampened_transition rule node_iri value states o t h lt =
      ap (λ o. transition exceeds message now dampening b rule node_iri value o states) h
      ∙ ground (arith, lt)

  other_transition :
      (rule : BuiltInAlertRule F) (node_iri : ResourceIri) (value : F) (states : States)
      → (o : Option AlertState) (name resource_iri : Text)
      → (rule.name == name && node_iri == resource_iri) ≡ false
      → let (actions, after) =
          transition exceeds message now dampening b rule node_iri value o states in
        (any (is_on (inference_rule b name) resource_iri) actions ≡ false)
        × (HashMap.get after (name, resource_iri) ≡ HashMap.get states (name, resource_iri))
  other_transition rule node_iri value states o name resource_iri e = ground (
    arith,
    e,
    get-insert states (rule.name, node_iri) (name, resource_iri)
        (record { is_firing = true; resolved_at = none }),
    get-insert states (rule.name, node_iri) (name, resource_iri)
        (record { is_firing = false; resolved_at = some now }),
    inference_rule-injective b rule.name name,
  )

  quiet_metric :
      (rule : BuiltInAlertRule F) (node_iri : ResourceIri) (m : Option (MetricEntry F))
      (states : States)
      → (name resource_iri : Text) (t : ℕ)
      → HashMap.get states (name, resource_iri)
        ≡ some (record { is_firing = false; resolved_at = some t })
      → now < t + dampening
      → let (actions, after) =
          evaluate_metric exceeds message now dampening b rule node_iri m states in
        (any (is_on (inference_rule b name) resource_iri) actions ≡ false)
        × (HashMap.get after (name, resource_iri) ≡ HashMap.get states (name, resource_iri))
  quiet_metric rule node_iri none states name resource_iri t h lt = (refl, refl)
  quiet_metric rule node_iri (some m) states name resource_iri t h lt =
      elim (Bool-cases (rule.name == name && node_iri == resource_iri)) [
        | inl e ↦
            let key : AlertKey = (rule.name, node_iri) in
            let same = (==_iff key (name, resource_iri)).0 e in
            let still =
              dampened_transition rule node_iri m.value states (HashMap.get states key) t
                (ap (HashMap.get states) same ∙ h) lt in
            (
              ap (λ x. any (is_on (inference_rule b name) resource_iri) x.0) still,
              ap (λ x. HashMap.get x.1 (name, resource_iri)) still,
            )
        | inr e ↦
            other_transition rule node_iri m.value states (HashMap.get states (rule.name, node_iri))
              name resource_iri e
      ]

  -- An alert that was resolved is left alone for the dampening window: an evaluation within it makes
  -- no action on the alert and keeps its state, whatever the rules and the metrics.
  evaluate_dampened :
      (rules : List (BuiltInAlertRule F)) (node_iri : ResourceIri) (metrics : List (MetricEntry F))
      → (states : States) (name resource_iri : Text) (t : ℕ)
      → HashMap.get states (name, resource_iri)
        ≡ some (record { is_firing = false; resolved_at = some t })
      → now < t + dampening
      → let (actions, after) =
          evaluate exceeds message now dampening b rules node_iri metrics states in
        (any (is_on (inference_rule b name) resource_iri) actions ≡ false)
        × (HashMap.get after (name, resource_iri) ≡ HashMap.get states (name, resource_iri))
  unfolding evaluate
  evaluate_dampened [] node_iri metrics states name resource_iri t h lt = (refl, refl)
  evaluate_dampened (rule ∷ rules) node_iri metrics states name resource_iri t h lt =
      let m = find (λ m. m.name == rule.metric_name) metrics in
      let step = evaluate_metric exceeds message now dampening b rule node_iri m states in
      let one = quiet_metric rule node_iri m states name resource_iri t h lt in
      let more =
        evaluate_dampened rules node_iri metrics step.1 name resource_iri t (one.1 ∙ h) lt in
      let rest = evaluate exceeds message now dampening b rules node_iri metrics step.1 in
      (
        any-append (is_on (inference_rule b name) resource_iri) step.0 rest.0
            ∙ ground (arith, one.0, more.0),
        more.1 ∙ one.1,
      )
