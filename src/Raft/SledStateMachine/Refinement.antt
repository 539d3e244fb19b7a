-- ===== src/Raft/SledStateMachine/Refinement.antt =====
-- The sled state machine follows the in-memory one.
use picloud.Prelude.{ℕ, ◌+◌, ◌≡◌, refl, ap, ◌∙◌, Bool, some, List, [], ◌∷◌, arith}
use picloud.Prelude.Equality.{nat_eq, list_eq}
use picloud.Prelude.HashMap
use picloud.Prelude.HashMap.{get-insert}
use picloud.Prelude.Texts.{Text}
use picloud.Raft.Types.{Entry, EntryPayload, blank, normal, membership, StoredMembership}
use picloud.Raft.StateMachine
use picloud.Raft.StateMachine.{MemStateMachine, SnapshotMeta, Snapshot, u64, deliver}
use picloud.Raft.SledLogStore.{RoundTrips, read_with}
use picloud.Raft.SledStateMachine
use picloud.Raft.SledStateMachine.{
  SledStateMachine, Formats, read_or, bytes_or_empty, store, last_applied_key, membership_key,
  count_key, snapshot_data_key, snapshot_meta_key, get_applied_count, apply_from, finish,
}

module _ {Membership : Type 0} (fm : Formats Membership) where
  -- What serde writes of the machine it reads back.
  pub record AllRoundTrip : Type 0 where
    pub ids : RoundTrips fm.id_json
    pub memberships : RoundTrips fm.membership_json
    pub counts : RoundTrips fm.count_json
    pub metas : RoundTrips fm.meta_json

  -- The tree reads as the in-memory machine, but for the count, which `apply` keeps in a variable.
  pub record HoldsBut (n : ℕ) (t : SledStateMachine) (s : MemStateMachine Membership) : Type 0 where
    pub count : n ≡ s.applied_count
    pub last_applied :
        read_with fm.id_json (HashMap.get t.meta_tree last_applied_key) ≡ some s.last_applied_log
    pub membership :
        read_or fm.default fm.membership_json (HashMap.get t.meta_tree membership_key)
        ≡ some s.last_membership
    pub callback : t.has_callback ≡ s.has_callback
    pub delivered : t.delivered ≡ s.delivered

  pub record Holds (t : SledStateMachine) (s : MemStateMachine Membership) : Type 0 where
    pub stored : get_applied_count fm t ≡ some s.applied_count
    pub rest : HoldsBut s.applied_count t s

  apply_entry-HoldsBut :
      (e : Entry Membership) (n : ℕ) (t : SledStateMachine) (s : MemStateMachine Membership)
      → AllRoundTrip
      → HoldsBut n t s
      → let (m, u) = SledStateMachine.apply_entry fm e n t in
        HoldsBut m u (StateMachine.apply_entry e s)
  unfolding SledStateMachine.apply_entry StateMachine.apply_entry
  apply_entry-HoldsBut e n t s r h = by_payload e.payload
    where
      id : Text
      id = fm.id_json.to_vec e.log_id

      here :
          read_with fm.id_json
            (HashMap.get (HashMap.insert t.meta_tree last_applied_key id) last_applied_key)
          ≡ some (some e.log_id)
      here =
          ground
            (arith, get-insert t.meta_tree last_applied_key last_applied_key id, r.ids e.log_id)

      kept :
          HashMap.get (HashMap.insert t.meta_tree last_applied_key id) membership_key
          ≡ HashMap.get t.meta_tree membership_key
      kept = get-insert t.meta_tree last_applied_key membership_key id

      by_payload :
          (p : EntryPayload Membership)
          → let (m, u) =
              SledStateMachine.apply_payload fm e.log_id p n (store last_applied_key id t) in
            HoldsBut m u (
              StateMachine.apply_payload e.log_id p (record s { last_applied_log = some e.log_id }))
      by_payload blank = record {
        count = h.count;
        last_applied = here;
        membership = ap (read_or fm.default fm.membership_json) kept ∙ h.membership;
        callback = h.callback;
        delivered = h.delivered;
      }
      by_payload (normal req) = record {
        count = ap (λ x. u64 (x + 1)) h.count;
        last_applied = here;
        membership = ap (read_or fm.default fm.membership_json) kept ∙ h.membership;
        callback = h.callback;
        delivered = ground (arith, h.callback, h.delivered);
      }
      by_payload (membership mem) =
          let stored : StoredMembership Membership = record {
            log_id = some e.log_id;
            membership = mem;
          } in
          let bytes = fm.membership_json.to_vec stored in
          let one = HashMap.insert t.meta_tree last_applied_key id in
          record {
            count = h.count;
            last_applied =
                ap (read_with fm.id_json) (get-insert one membership_key last_applied_key bytes)
                ∙ here;
            membership =
                ap (read_or fm.default fm.membership_json)
                  (get-insert one membership_key membership_key bytes)
                ∙ r.memberships stored;
            callback = h.callback;
            delivered = h.delivered;
          }

  pub apply_loop-HoldsBut :
      (es : List (Entry Membership)) (n : ℕ) (t : SledStateMachine) (s : MemStateMachine Membership)
      → AllRoundTrip
      → HoldsBut n t s
      → let (responses, m, u) = SledStateMachine.apply_loop fm es n t in
        (responses ≡ (StateMachine.apply es s).0) × HoldsBut m u (StateMachine.apply es s).1
  unfolding SledStateMachine.apply_loop StateMachine.apply
  apply_loop-HoldsBut [] n t s r h = (refl, h)
  apply_loop-HoldsBut (e ∷ es) n t s r h =
      let one = apply_entry-HoldsBut e n t s r h in
      let step = SledStateMachine.apply_entry fm e n t in
      let rest = apply_loop-HoldsBut es step.0 step.1 (StateMachine.apply_entry e s) r one in
      (ground (arith, one.count, rest.0), rest.1)

  set_count-Holds :
      (n : ℕ) (u : SledStateMachine) (s : MemStateMachine Membership)
      → AllRoundTrip
      → HoldsBut n u s
      → Holds (SledStateMachine.set_applied_count fm n u) s
  unfolding SledStateMachine.set_applied_count get_applied_count
  set_count-Holds n u s r h =
      let bytes = fm.count_json.to_vec n in
      record {
        stored =
            ap (read_or 0 fm.count_json) (get-insert u.meta_tree count_key count_key bytes)
            ∙ r.counts n
            ∙ ap some h.count;
        rest = record {
          count = refl;
          last_applied =
              ap (read_with fm.id_json) (get-insert u.meta_tree count_key last_applied_key bytes)
              ∙ h.last_applied;
          membership =
              ap (read_or fm.default fm.membership_json)
                (get-insert u.meta_tree count_key membership_key bytes)
              ∙ h.membership;
          callback = h.callback;
          delivered = h.delivered;
        };
      }

  -- Where serde reads back what it writes and the tree reads as the in-memory machine: a batch is
  -- applied without an error, with the same responses and deliveries, the tree again reads as the
  -- in-memory machine after the batch, and both report the same applied state.
  pub sled_apply_refines :
      (es : List (Entry Membership)) (t : SledStateMachine) (s : MemStateMachine Membership)
      → AllRoundTrip
      → Holds t s
      → (u : SledStateMachine) × (SledStateMachine.apply fm es t
          ≡ some ((StateMachine.apply es s).0, u))
        × Holds u (StateMachine.apply es s).1
        × (SledStateMachine.applied_state fm u
            ≡ some (StateMachine.applied_state (StateMachine.apply es s).1))
  unfolding SledStateMachine.apply SledStateMachine.applied_state StateMachine.applied_state
  sled_apply_refines es t s r h =
      let (responses, m, u) = SledStateMachine.apply_loop fm es s.applied_count t in
      let (same, but) = apply_loop-HoldsBut es s.applied_count t s r h.rest in
      let out = set_count-Holds m u (StateMachine.apply es s).1 r but in
      (
        SledStateMachine.set_applied_count fm m u,
        ap (λ o. apply_from fm o es t) h.stored
            ∙ ap (λ x. some (x, SledStateMachine.set_applied_count fm m u)) same,
        out,
        ground (arith, out.rest.last_applied, out.rest.membership),
      )

  pub new-Holds :
      (callback : Bool)
      → Holds
          (SledStateMachine.new callback)
          (record (StateMachine.new fm.default.membership callback) {
            last_membership = fm.default;
          })
  unfolding SledStateMachine.new StateMachine.new get_applied_count HashMap.get
  new-Holds callback = record {
    stored = refl;
    rest = record {
      count = refl;
      last_applied = refl;
      membership = refl;
      callback = refl;
      delivered = refl;
    };
  }
