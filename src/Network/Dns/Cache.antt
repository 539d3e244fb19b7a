-- ===== src/Network/Dns/Cache.antt =====
-- `DnsCache` of crates/picloud-network/src/dns/cache.rs. Times are of the monotonic clock, in
-- seconds; letters are lowered and raised as `to_lowercase` and `to_uppercase` do in ASCII.
use picloud.Prelude.{
  ℕ, ◌-◌, ◌≤◌, ◌≡◌, Bool, not, Option, none, some, List, [], length, ltb, if◌then◌else◌, ◌==◌, ◌!=◌,
  arith, Option-cases,
}
use picloud.Prelude.Equality.{nat_eq, list_eq, pair_eq}
use picloud.Prelude.HashMap
use picloud.Prelude.HashMap.{
  HashMap, IsMap, get-insert, get-remove, get-filter_entries, insert-IsMap, filter_entries-IsMap,
}
use picloud.Prelude.Texts.{Text, to_lowercase, to_uppercase}

pub data DnsRecord : Type 0 where
  a : ℕ → DnsRecord
  srv : Text → ℕ → ℕ → ℕ → DnsRecord
  txt : Text → DnsRecord
  ptr : Text → DnsRecord

pub record CacheEntry : Type 0 where
  pub records : List DnsRecord
  pub inserted_at : ℕ
  pub ttl : ℕ

pub record DnsCache : Type 0 where
  pub entries : HashMap (Text × Text) CacheEntry
  pub ttl : ℕ

abbrev default_ttl_secs : ℕ
default_ttl_secs = 30

unfoldable pub new : DnsCache
new = record { entries = []; ttl = default_ttl_secs }

abbrev is_expired : ℕ → CacheEntry → Bool
is_expired now entry = ltb entry.ttl (now - entry.inserted_at)

unfoldable pub key_of : Text → Text → Text × Text
key_of record_type hostname = (to_uppercase record_type, to_lowercase hostname)

abbrev pub fresh : ℕ → Option CacheEntry → Option (List DnsRecord)
fresh now none = none
fresh now (some entry) = if is_expired now entry then none else some entry.records

unfoldable pub get : ℕ → Text → Text → DnsCache → Option (List DnsRecord)
unfolding key_of
get now record_type hostname c = fresh now (HashMap.get c.entries (key_of record_type hostname))

unfoldable pub insert : ℕ → Text → Text → List DnsRecord → DnsCache → DnsCache
unfolding key_of
insert now record_type hostname records c = record c {
  entries =
      HashMap.insert c.entries (key_of record_type hostname)
        (record { records = records; inserted_at = now; ttl = c.ttl });
}

abbrev is_other_host : Text → Text × Text → CacheEntry → Bool
is_other_host lower key entry = key.1 != lower

unfoldable invalidate : Text → DnsCache → DnsCache
invalidate hostname c = record c {
  entries = HashMap.filter_entries (is_other_host (to_lowercase hostname)) c.entries;
}

unfoldable invalidate_record : Text → Text → DnsCache → DnsCache
unfolding key_of
invalidate_record record_type hostname c = record c {
  entries = HashMap.remove c.entries (key_of record_type hostname);
}

unfoldable clear : DnsCache → DnsCache
clear c = record c { entries = [] }

abbrev keeps : ℕ → Text × Text → CacheEntry → Bool
keeps now key entry = not (is_expired now entry)

unfoldable pub evict_expired : ℕ → DnsCache → ℕ × DnsCache
evict_expired now c =
    let kept = HashMap.filter_entries (keeps now) c.entries in
    (length c.entries - length kept, record c { entries = kept })

-- After an insert, a lookup of the same name and type in any case of letters gives the records until
-- the time to live has passed, and nothing after it; other lookups are as before.
pub get-insert_lem :
    (now later : ℕ) (rt host rt2 host2 : Text) (records : List DnsRecord) (c : DnsCache)
    → get later rt2 host2 (insert now rt host records c) ≡ (
        if key_of rt host == key_of rt2 host2
        then (if ltb c.ttl (later - now) then none else some records)
        else get later rt2 host2 c)
unfolding get insert
get-insert_lem now later rt host rt2 host2 records c = ground (
  arith,
  get-insert c.entries (key_of rt host) (key_of rt2 host2)
      (record { records = records; inserted_at = now; ttl = c.ttl }),
)

-- After an invalidation of a host no record of it is found, of any type, and the records of the
-- other hosts are found as before.
get-invalidate :
    (now : ℕ) (rt host host2 : Text) (c : DnsCache)
    → IsMap c.entries
    → get now rt host2 (invalidate host c)
      ≡ (if to_lowercase host2 == to_lowercase host then none else get now rt host2 c)
unfolding get invalidate key_of
get-invalidate now rt host host2 c u = ground (
  arith,
  get-filter_entries (is_other_host (to_lowercase host)) c.entries (key_of rt host2) u,
  Option-cases (HashMap.get c.entries (key_of rt host2)),
)

-- An eviction is not seen by any lookup, at its time or later.
get-evict_expired :
    (now later : ℕ) (rt host : Text) (c : DnsCache)
    → IsMap c.entries
    → now ≤ later
    → get later rt host (evict_expired now c).1 ≡ get later rt host c
unfolding get evict_expired
get-evict_expired now later rt host c u h = ground (
  arith,
  get-filter_entries (keeps now) c.entries (key_of rt host) u,
  Option-cases (HashMap.get c.entries (key_of rt host)),
)

-- Each key is in the cache once, after every operation.
operations-IsMap :
    (now : ℕ) (rt host : Text) (records : List DnsRecord) (c : DnsCache)
    → IsMap c.entries
    → IsMap (insert now rt host records c).entries
      × IsMap (invalidate host c).entries
      × IsMap (evict_expired now c).1.entries
unfolding insert invalidate evict_expired
operations-IsMap now rt host records c u = (
  insert-IsMap c.entries (key_of rt host)
      (record { records = records; inserted_at = now; ttl = c.ttl }) u,
  filter_entries-IsMap (is_other_host (to_lowercase host)) c.entries u,
  filter_entries-IsMap (keeps now) c.entries u,
)
