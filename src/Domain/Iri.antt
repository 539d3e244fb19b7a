-- ===== src/Domain/Iri.antt =====
-- crates/picloud-domain/src/iri.rs: resource IRIs, and the builder of those that the modelled
-- components use. An IRI is its text, as `ResourceIri` is a wrapper of a `String`.
use picloud.Prelude.{◌++◌}
use picloud.Prelude.Texts.{Text, codes}

abbrev pub ResourceIri : Type 0
ResourceIri = Text

-- The cluster domain is the builder's one field.
pub record IriBuilder : Type 0 where
  pub domain : Text

abbrev pub root : IriBuilder → Text
root b = codes "https://" ++ b.domain

unfoldable pub node : IriBuilder → Text → ResourceIri
node b node_name = root b ++ (codes "/nodes/" ++ node_name)

unfoldable pub product : IriBuilder → Text → ResourceIri
product b product_name = root b ++ (codes "/products/" ++ product_name)

-- The version is given by its decimal digits.
unfoldable pub event_schema : IriBuilder → Text → Text → ResourceIri
event_schema b event_type version =
    root b ++ (codes "/schemas/events/" ++ (event_type ++ (codes "/v" ++ version)))

unfoldable pub inference_rule : IriBuilder → Text → ResourceIri
inference_rule b rule_name = root b ++ (codes "/inference-rules/" ++ rule_name)

unfoldable pub resource : IriBuilder → Text → Text → Text → ResourceIri
resource b product_name resource_type name =
    root b
    ++ (codes "/products/"
        ++ (product_name ++ (codes "/" ++ (resource_type ++ (codes "/" ++ name)))))
