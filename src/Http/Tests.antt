-- ===== src/Http/Tests.antt =====
-- Runs of the modules of crates/picloud-http at concrete routes, versions and metrics.
use picloud.Prelude.{ℕ, ◌≡◌, Bool, false, some, List, [], ◌∷◌, ltb}
use picloud.Prelude.Equality.{nat_eq, list_eq, pair_eq}
use picloud.Prelude.HashMap
use picloud.Prelude.Texts.{Text, codes}
use picloud.Domain.Iri.{IriBuilder, inference_rule}
use picloud.Http.Router.{RouteEntry, IngressRouter, lookup, or_default}
use picloud.Http.Router.Matching.{IsBestMatch, lookup-IsBestMatch}
use picloud.Http.Versions.{Binding}
use picloud.Http.Alerts.{BuiltInAlertRule, MetricEntry, evaluate, firing, critical}
use picloud.Http.Alerts.Firing.{replay, replay-evaluate}

abbrev route : Text → RouteEntry
route iri = record {
  path_prefix = codes "/api";
  upstream_addr = codes "10.0.0.2";
  upstream_port = 8080;
  product = codes "shop";
  internal = false;
  ingress_iri = iri;
}

abbrev old_host : Text
old_host = codes "old.pi"

abbrev table : IngressRouter
table = record { external = (old_host, route (codes "i") ∷ []) ∷ []; internal = [] }

lookup-IsBestMatch_example :
    IsBestMatch
      (codes "/api/x")
      (or_default (HashMap.get table.external old_host))
      (lookup old_host (codes "/api/x") table)
lookup-IsBestMatch_example = lookup-IsBestMatch old_host (codes "/api/x") table

abbrev bindings : List Binding
bindings =
    record { version = codes "1.2.0"; product_iri = codes "https://pi/products/a" }
    ∷ record { version = codes "1.10.0"; product_iri = codes "https://pi/products/b" }
    ∷ []

-- Readings are numbers here.
abbrev exceeds : ℕ → ℕ → Bool
exceeds value threshold = ltb threshold value

abbrev message : Text → ℕ → ℕ → Text
message template value threshold = template

abbrev builder : IriBuilder
builder = record { domain = codes "picloud.local" }

abbrev hot : BuiltInAlertRule ℕ
hot = record {
  name = codes "hot";
  metric_name = codes "cpu";
  threshold = 80;
  alert_type = codes "HighCpuTemperature";
  severity = critical;
  message_template = codes "hot";
}

abbrev reading : MetricEntry ℕ
reading = record { name = codes "cpu"; value = 90; unit = codes "celsius" }

abbrev node : Text
node = codes "n"

replay-evaluate_example :
    replay
      (inference_rule builder (codes "hot"))
      node
      (evaluate exceeds message 5 60 builder (hot ∷ []) node (reading ∷ []) []).0
      false
    ≡ some (
        firing (
          HashMap.get
            (evaluate exceeds message 5 60 builder (hot ∷ []) node (reading ∷ []) []).1
            (codes "hot", node)))
unfolding HashMap.get
replay-evaluate_example =
    replay-evaluate exceeds message 5 60 builder (hot ∷ []) node (reading ∷ []) [] (codes "hot")
      node
