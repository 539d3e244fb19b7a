-- ===== src/Cluster/Discovery/Scoping.antt =====
-- The claim that clusters of different domains do not see one another: what the service type keeps
-- of a domain, and what it loses.
use picloud.Prelude.{
  take, ℕ, ◌+◌, ◌*◌, ◌/◌, ◌%◌, ◌^◌, ◌≤◌, ◌<◌, ◌≡◌, ◌≢◌, refl, ap, sym, ◌∙◌, [], ◌∷◌, ◌++◌, arith,
  ==_ne,
}
use picloud.Prelude.Equality.{nat_eq, list_eq}
use picloud.Prelude.Texts.{Text, codes}
use picloud.Cluster.Discovery.{hash_bytes, hex_fixed, hex_digit, service_type_for_domain}

-- The part of the service type that depends on the domain is the upper half of the hash.
hex_upper : (h : ℕ) → take 8 (hex_fixed 16 h) ≡ hex_fixed 8 (h / 2 ^ 32)
unfolding hex_fixed
hex_upper h =
    let e : h / 16 / 16 / 16 / 16 / 16 / 16 / 16 / 16 ≡ h / 2 ^ 32 = omega arith in
    ap (hex_fixed 8) e

hash_bytes-append : (h : ℕ) (s t : Text) → hash_bytes h (s ++ t) ≡ hash_bytes (hash_bytes h s) t
unfolding hash_bytes
hash_bytes-append h [] t = refl
hash_bytes-append h (b ∷ s) t = hash_bytes-append ((h * 33 + b) % 2 ^ 64) s t

abbrev IsScoped : Text → Type 0
IsScoped domain = (domain ≢ codes "picloud.local") × (domain ≢ [])

service_type_scoped :
    (domain : Text)
    → IsScoped domain
    → service_type_for_domain domain
      ≡ codes "_pc-" ++ (hex_fixed 8 (hash_bytes 5381 domain / 2 ^ 32) ++ codes "._tcp.local.")
unfolding service_type_for_domain
service_type_scoped [] (a, b) = absurd (b refl)
service_type_scoped (c ∷ domain) (a, b) =
    ground (
      arith,
      ==_ne (c ∷ domain) (codes "picloud.local") a,
      hex_upper (hash_bytes 5381 (c ∷ domain)),
    )

-- Two domains that differ in the last byte alone, neither of them empty or the default, have the
-- same service type where the lower half of the hash before that byte, times 33, leaves room for a
-- byte below 2 ^ 32.
service_type_for_domain-collide :
    (domain : Text) (a b : ℕ)
    → a < 256
    → b < 256
    → hash_bytes 5381 domain * 33 % 2 ^ 32 + 256 ≤ 2 ^ 32
    → IsScoped (domain ++ a ∷ [])
    → IsScoped (domain ++ b ∷ [])
    → service_type_for_domain (domain ++ a ∷ []) ≡ service_type_for_domain (domain ++ b ∷ [])
unfolding hash_bytes
service_type_for_domain-collide domain a b ha hb h sa sb =
    service_type_scoped (domain ++ a ∷ []) sa
    ∙ ap (λ x. codes "_pc-" ++ (hex_fixed 8 x ++ codes "._tcp.local."))
        (ap (λ x. x / 2 ^ 32) (hash_bytes-append 5381 domain (a ∷ []))
          ∙ same_upper
          ∙ sym (ap (λ x. x / 2 ^ 32) (hash_bytes-append 5381 domain (b ∷ []))))
    ∙ sym (service_type_scoped (domain ++ b ∷ []) sb)
  where
    g : ℕ
    g = hash_bytes 5381 domain

    same_upper : (g * 33 + a) % 2 ^ 64 / 2 ^ 32 ≡ (g * 33 + b) % 2 ^ 64 / 2 ^ 32
    same_upper = omega arith

-- Every domain of at most three bytes has the service type of an all-zero hash.
service_type_for_domain-short :
    (a b c : ℕ)
    → a < 256
    → b < 256
    → c < 256
    → service_type_for_domain (a ∷ b ∷ c ∷ []) ≡ codes "_pc-00000000._tcp.local."
unfolding hash_bytes hex_fixed hex_digit
service_type_for_domain-short a b c ha hb hc =
    service_type_scoped (a ∷ b ∷ c ∷ [])
      ((λ e. absurd (ground arith)), (λ e. absurd (ground arith)))
    ∙ ap (λ x. codes "_pc-" ++ (hex_fixed 8 x ++ codes "._tcp.local.")) zero_upper
  where
    zero_upper : hash_bytes 5381 (a ∷ b ∷ c ∷ []) / 2 ^ 32 ≡ 0
    zero_upper = omega arith
