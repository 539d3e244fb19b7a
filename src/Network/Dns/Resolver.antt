-- ===== src/Network/Dns/Resolver.antt =====
-- `DnsResolver` of crates/picloud-network/src/dns/resolver.rs. What the queries of the RDF graph
-- give for a name is a parameter, one function for each record type; the graph may have changed
-- from one call to the next.
use picloud.Prelude.{
  ℕ, ◌+◌, ◌≤◌, ◌≡◌, ◌≢◌, refl, sym, ap, ◌∙◌, Bool, true, false, ◌||◌, Option, none, some, List, [],
  ◌∷◌, ◌++◌, if◌then◌else◌, ◌==◌, arith, ==_iff,
}
use picloud.Prelude.Equality.{nat_eq, list_eq, pair_eq}
use picloud.Prelude.Texts.{Text, codes, to_lowercase, to_uppercase, to_lowercase_idem}
use picloud.Domain.Error.{Result, ok, err}
use picloud.Network.Dns.Cache
use picloud.Network.Dns.Cache.{DnsRecord, DnsCache, get-insert_lem, key_of}

pub data ResolveResult : Type 0 where
  records : List DnsRecord → ℕ → ResolveResult
  nx_domain not_implemented : ResolveResult

pub record DnsResolver : Type 0 where
  pub domain : Text
  pub cache : DnsCache

pub record Graph : Type 0 where
  pub query_a : Text → Result (List DnsRecord)
  pub query_srv : Text → Result (List DnsRecord)
  pub query_txt : Text → Result (List DnsRecord)
  pub query_ptr : Text → Result (List DnsRecord)

-- `str::ends_with`.
unfoldable ends_with : Text → Text → Bool
ends_with [] p = [] == p
ends_with (c ∷ s) p = let rest = ends_with s p in if (c ∷ s) == p then true else rest

abbrev is_authoritative_lower : Text → DnsResolver → Bool
is_authoritative_lower lowered s = lowered == s.domain || ends_with lowered (codes "." ++ s.domain)

unfoldable is_authoritative : Text → DnsResolver → Bool
unfolding ends_with
is_authoritative name s = is_authoritative_lower (to_lowercase name) s

unfoldable query : Graph → Text → Text → Option (Result (List DnsRecord))
query g rtype name =
    if rtype == codes "A"
    then some (g.query_a name)
    else if rtype == codes "SRV"
    then some (g.query_srv name)
    else if rtype == codes "TXT"
    then some (g.query_txt name)
    else if rtype == codes "PTR"
    then some (g.query_ptr name)
    else none

abbrev pub answer :
    ℕ → Text → Text → Option (Result (List DnsRecord)) → DnsResolver → ResolveResult × DnsResolver
answer now rtype name none s = (not_implemented, s)
answer now rtype name (some (err e)) s = (nx_domain, s)
answer now rtype name (some (ok [])) s = (nx_domain, s)
answer now rtype name (some (ok (r ∷ rs))) s =
    (records (r ∷ rs) 30, record s { cache = Cache.insert now rtype name (r ∷ rs) s.cache })

abbrev resolve_cached :
    ℕ → Graph → Text → Text → Option (List DnsRecord) → DnsResolver → ResolveResult × DnsResolver
resolve_cached now g name rtype (some rs) s = (records rs 30, s)
resolve_cached now g name rtype none s = answer now rtype name (query g rtype name) s

unfoldable pub resolve : ℕ → Graph → Text → Text → DnsResolver → ResolveResult × DnsResolver
unfolding is_authoritative query
resolve now g name record_type s =
    if is_authoritative name s
    then resolve_cached now g name (to_uppercase record_type)
        (Cache.get now (to_uppercase record_type) name s.cache) s
    else (nx_domain, s)

-- Nothing outside the domain is answered, and such a query leaves the cache alone.
resolve_outside :
    (now : ℕ) (g : Graph) (name rt : Text) (s : DnsResolver)
    → is_authoritative name s ≡ false
    → resolve now g name rt s ≡ (nx_domain, s)
unfolding resolve
resolve_outside now g name rt s h = ground (arith, h)

answer_lem :
    (now : ℕ) (rtype name : Text) (o : Option (Result (List DnsRecord)))
    → (rs : List DnsRecord) (s : DnsResolver) → (answer now rtype name o s).0 ≡ records rs 30
    → (answer now rtype name o s).1 ≡ record s { cache = Cache.insert now rtype name rs s.cache }
answer_lem now rtype name none rs s h = absurd (ground arith)
answer_lem now rtype name (some (err e)) rs s h = absurd (ground arith)
answer_lem now rtype name (some (ok [])) rs s h = absurd (ground arith)
answer_lem now rtype name (some (ok (r ∷ qs))) rs s h = ground arith

-- A miss that brings records puts them into the cache.
resolve_miss :
    (now : ℕ) (g : Graph) (name rt : Text) (rs : List DnsRecord) (s : DnsResolver)
    → Cache.get now (to_uppercase rt) name s.cache ≡ none
    → (resolve now g name rt s).0 ≡ records rs 30
    → (is_authoritative name s ≡ true)
      × ((resolve now g name rt s).1
          ≡ record s { cache = Cache.insert now (to_uppercase rt) name rs s.cache })
unfolding resolve
resolve_miss now g name rt rs s miss e = by_authority (is_authoritative name s) refl e
  where
    asked : ResolveResult × DnsResolver
    asked =
        resolve_cached now g name (to_uppercase rt) (Cache.get now (to_uppercase rt) name s.cache) s

    asked_lem : asked ≡ answer now (to_uppercase rt) name (query g (to_uppercase rt) name) s
    asked_lem = ap (λ o. resolve_cached now g name (to_uppercase rt) o s) miss

    by_authority :
        (b : Bool)
        → is_authoritative name s ≡ b
        → (if b then asked else (nx_domain, s)).0 ≡ records rs 30
        → (b ≡ true)
          × ((if b then asked else (nx_domain, s)).1
              ≡ record s { cache = Cache.insert now (to_uppercase rt) name rs s.cache })
    by_authority true h q = (
      refl,
      ap (λ x. x.1) asked_lem
          ∙ answer_lem now (to_uppercase rt) name (query g (to_uppercase rt) name) rs s
              (sym (ap (λ x. x.0) asked_lem) ∙ q),
    )
    by_authority false h q = absurd (ground arith)

module _ (now later : ℕ) (g g2 : Graph) (name name2 rt : Text) (rs : List DnsRecord)
    (s : DnsResolver) where
  -- Records that a miss brought are served for the time to live of the cache, whatever the graph
  -- gives by then, to every spelling of the name in letters of another case.
  resolve_twice :
      to_lowercase name ≡ to_lowercase name2
      → Cache.get now (to_uppercase rt) name s.cache ≡ none
      → later ≤ now + s.cache.ttl
      → (resolve now g name rt s).0 ≡ records rs 30
      → (resolve later g2 name2 rt (resolve now g name rt s).1).0 ≡ records rs 30
  unfolding resolve key_of
  resolve_twice same miss h e =
      let (auth, after) = resolve_miss now g name rt rs s miss e in
      ap (λ x. (resolve later g2 name2 rt x).0) after ∙ ground (arith, auth2 auth, hit)
    where
      t : DnsResolver
      t = record s { cache = Cache.insert now (to_uppercase rt) name rs s.cache }

      auth2 : is_authoritative name s ≡ true → is_authoritative name2 t ≡ true
      auth2 a = sym (ap (λ n. is_authoritative_lower n s) same) ∙ a

      same_key : key_of (to_uppercase rt) name ≡ key_of (to_uppercase rt) name2
      same_key = ap (λ n. (to_uppercase (to_uppercase rt), n)) same

      hit : Cache.get later (to_uppercase rt) name2 t.cache ≡ some rs
      hit = ground (
        arith,
        get-insert_lem now later (to_uppercase rt) name (to_uppercase rt) name2 rs s.cache,
        ==_iff (key_of (to_uppercase rt) name) (key_of (to_uppercase rt) name2),
        same_key,
      )

ends_with_lower : (s p : Text) → ends_with (to_lowercase s) p ≡ true → to_lowercase p ≡ p
unfolding ends_with to_lowercase
ends_with_lower [] p h = ground (arith, ==_iff [] p)
ends_with_lower (c ∷ s) p h =
    ground (arith, ==_iff (to_lowercase (c ∷ s)) p, to_lowercase_idem (c ∷ s), ends_with_lower s p)

lower_dot : (d : Text) → to_lowercase (b'.' ∷ d) ≡ b'.' ∷ d → to_lowercase d ≡ d
unfolding to_lowercase
lower_dot d h = ground arith

-- A resolver whose domain has a capital letter answers nothing: the name is lowered and the domain
-- is not.
resolve_capital_domain :
    (now : ℕ) (g : Graph) (name rt : Text) (s : DnsResolver)
    → to_lowercase s.domain ≢ s.domain
    → resolve now g name rt s ≡ (nx_domain, s)
unfolding is_authoritative
resolve_capital_domain now g name rt s h = resolve_outside now g name rt s (
    ground (
      arith,
      ==_iff (to_lowercase name) s.domain,
      to_lowercase_idem name,
      ends_with_lower name (b'.' ∷ s.domain),
      lower_dot s.domain,
    ))
