-- ===== src/Raft/SledTests.antt =====
-- Runs of the sled stores of crates/picloud-cluster/src/raft.rs with a simple format for each type.
use picloud.Prelude.{
  ℕ, zero, suc, ◌≡◌, refl, ap, Bool, true, false, Option, none, some, List, [], ◌∷◌, if◌then◌else◌,
}
use picloud.Prelude.BTreeMap.{included}
use picloud.Prelude.Texts.{Text, codes}
use picloud.Raft.Types.{
  LogId, Vote, Entry, EntryPayload, blank, normal, membership, StoredMembership,
}
use picloud.Raft.LogStore
use picloud.Raft.StateMachine
use picloud.Raft.StateMachine.{MemStateMachine, SnapshotMeta}
use picloud.Raft.SledLogStore
use picloud.Raft.SledLogStore.{Json, RoundTrips, SledLogStore}
use picloud.Raft.SledLogStore.Refinement.{
  LogCall, is_none, append, purge, save_vote, run_mem, run_sled, sled_log_refines,
}
use picloud.Raft.SledStateMachine
use picloud.Raft.SledStateMachine.{SledStateMachine, Formats, store, last_applied_key}
use picloud.Raft.SledStateMachine.Refinement.{AllRoundTrip, Holds, new-Holds, sled_apply_refines}

abbrev read_id : Text → Option LogId
read_id (t ∷ n ∷ i ∷ []) = some (record { term = t; node_id = n; index = i })
read_id _ = none

abbrev id_json : Json LogId
id_json = record { to_vec = λ id. id.term ∷ id.node_id ∷ id.index ∷ []; from_slice = read_id }

abbrev write_payload : EntryPayload ℕ → Text
write_payload blank = 0 ∷ []
write_payload (normal req) = 1 ∷ req.event_json
write_payload (membership m) = 2 ∷ m ∷ []

abbrev read_payload : LogId → Text → Option (Entry ℕ)
read_payload id (zero ∷ []) = some (record { log_id = id; payload = blank })
read_payload id (suc zero ∷ text) =
    some (record { log_id = id; payload = normal (record { event_json = text }) })
read_payload id (suc (suc zero) ∷ m ∷ []) = some (record { log_id = id; payload = membership m })
read_payload id _ = none

abbrev read_entry : Text → Option (Entry ℕ)
read_entry (t ∷ n ∷ i ∷ rest) = read_payload (record { term = t; node_id = n; index = i }) rest
read_entry _ = none

abbrev entry_json : Json (Entry ℕ)
entry_json = record {
  to_vec = λ e. e.log_id.term ∷ e.log_id.node_id ∷ e.log_id.index ∷ write_payload e.payload;
  from_slice = read_entry;
}

abbrev read_vote : Text → Option Vote
read_vote (t ∷ n ∷ zero ∷ []) = some (record { term = t; node_id = n; committed = false })
read_vote (t ∷ n ∷ suc zero ∷ []) = some (record { term = t; node_id = n; committed = true })
read_vote _ = none

abbrev vote_json : Json Vote
vote_json = record {
  to_vec = λ v. v.term ∷ v.node_id ∷ (if v.committed then 1 else 0) ∷ [];
  from_slice = read_vote;
}

payload_round_trip :
    (id : LogId) (p : EntryPayload ℕ)
    → read_payload id (write_payload p) ≡ some (record { log_id = id; payload = p })
payload_round_trip id blank = refl
payload_round_trip id (normal req) = refl
payload_round_trip id (membership m) = refl

entry-RoundTrips : RoundTrips entry_json
entry-RoundTrips e = payload_round_trip e.log_id e.payload

flag_round_trip :
    (t n : ℕ) (b : Bool)
    → read_vote (t ∷ n ∷ (if b then 1 else 0) ∷ [])
      ≡ some (record { term = t; node_id = n; committed = b })
flag_round_trip t n true = refl
flag_round_trip t n false = refl

vote-RoundTrips : RoundTrips vote_json
vote-RoundTrips v = flag_round_trip v.term v.node_id v.committed

abbrev id_at : ℕ → LogId
id_at i = record { term = 1; node_id = 4; index = i }

abbrev entry : ℕ → Entry ℕ
entry i = record { log_id = id_at i; payload = normal (record { event_json = codes "{}" }) }

abbrev calls : List (LogCall ℕ)
calls =
    append (entry 1 ∷ entry 2 ∷ entry 3 ∷ [])
    ∷ purge (id_at 1)
    ∷ save_vote (record { term = 2; node_id = 4; committed = true })
    ∷ []

sled_log_refines_example :
    let t = run_sled entry_json id_json vote_json calls SledLogStore.new in
    let s = run_mem calls LogStore.new in
    (SledLogStore.try_get_log_entries entry_json id_json vote_json (included 2) (included 3) t
      ≡ LogStore.try_get_log_entries (included 2) (included 3) s)
    × (is_none (LogStore.try_get_log_entries (included 2) (included 3) s) ≡ false)
    × (SledLogStore.get_log_state entry_json id_json vote_json t ≡ some (LogStore.get_log_state s))
    × (SledLogStore.read_vote entry_json id_json vote_json t ≡ some (LogStore.read_vote s))
    × (SledLogStore.read_committed entry_json id_json vote_json t
        ≡ some (LogStore.read_committed s))
sled_log_refines_example =
    sled_log_refines entry_json id_json vote_json entry-RoundTrips (λ id. refl) vote-RoundTrips
      calls (included 2) (included 3)

abbrev write_stored : ℕ → Option LogId → Text
write_stored m none = 0 ∷ m ∷ []
write_stored m (some id) = 1 ∷ id.term ∷ id.node_id ∷ id.index ∷ m ∷ []

abbrev read_stored : Text → Option (StoredMembership ℕ)
read_stored (zero ∷ m ∷ []) = some (record { log_id = none; membership = m })
read_stored (suc zero ∷ t ∷ n ∷ i ∷ m ∷ []) =
    some (record { log_id = some (record { term = t; node_id = n; index = i }); membership = m })
read_stored _ = none

abbrev with_last : Option LogId → Option (StoredMembership ℕ) → Option (SnapshotMeta ℕ)
with_last id none = none
with_last id (some m) = some (record { last_log_id = id; last_membership = m })

abbrev write_meta : Option LogId → StoredMembership ℕ → Text
write_meta none m = 0 ∷ write_stored m.membership m.log_id
write_meta (some id) m = 1 ∷ id.term ∷ id.node_id ∷ id.index ∷ write_stored m.membership m.log_id

abbrev read_meta : Text → Option (SnapshotMeta ℕ)
read_meta (zero ∷ rest) = with_last none (read_stored rest)
read_meta (suc zero ∷ t ∷ n ∷ i ∷ rest) =
    with_last (some (record { term = t; node_id = n; index = i })) (read_stored rest)
read_meta _ = none

abbrev read_count : Text → Option ℕ
read_count (n ∷ []) = some n
read_count _ = none

abbrev formats : Formats ℕ
formats = record {
  id_json = id_json;
  membership_json = record {
    to_vec = λ m. write_stored m.membership m.log_id;
    from_slice = read_stored;
  };
  count_json = record { to_vec = λ n. n ∷ []; from_slice = read_count };
  meta_json = record {
    to_vec = λ meta. write_meta meta.last_log_id meta.last_membership;
    from_slice = read_meta;
  };
  default = record { log_id = none; membership = 0 };
}

stored_round_trip :
    (m : ℕ) (o : Option LogId)
    → read_stored (write_stored m o) ≡ some (record { log_id = o; membership = m })
stored_round_trip m none = refl
stored_round_trip m (some id) = refl

meta_round_trip :
    (o : Option LogId) (m : StoredMembership ℕ)
    → read_meta (write_meta o m) ≡ some (record { last_log_id = o; last_membership = m })
meta_round_trip none m = ap (with_last none) (stored_round_trip m.membership m.log_id)
meta_round_trip (some id) m = ap (with_last (some id)) (stored_round_trip m.membership m.log_id)

formats-AllRoundTrip : AllRoundTrip formats
formats-AllRoundTrip = record {
  ids = λ id. refl;
  memberships = λ m. stored_round_trip m.membership m.log_id;
  counts = λ n. refl;
  metas = λ meta. meta_round_trip meta.last_log_id meta.last_membership;
}

abbrev machine : MemStateMachine ℕ
machine = record (StateMachine.new 0 true) {
  last_membership = record { log_id = none; membership = 0 };
}

sled_apply_refines_example :
    (u : SledStateMachine) × (SledStateMachine.apply formats
        (entry 1 ∷ [])
        (SledStateMachine.new true)
      ≡ some ((StateMachine.apply (entry 1 ∷ []) machine).0, u))
    × Holds formats u (StateMachine.apply (entry 1 ∷ []) machine).1
    × (SledStateMachine.applied_state formats u
        ≡ some (StateMachine.applied_state (StateMachine.apply (entry 1 ∷ []) machine).1))
sled_apply_refines_example =
    sled_apply_refines formats (entry 1 ∷ []) (SledStateMachine.new true) machine
      formats-AllRoundTrip (new-Holds formats true)
