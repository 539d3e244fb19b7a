-- ===== src/Raft/SledLogStore/Refinement.antt =====
-- The sled store answers as the in-memory store, after any calls of openraft.
use picloud.Prelude.{
  ℕ, ◌≡◌, refl, sym, ap, ◌∙◌, Option, none, some, List, [], ◌∷◌, arith, Bool, true, false, inl, inr,
  Bool-cases, if◌then◌else◌,
}
use picloud.Prelude.Equality.{nat_eq, list_eq}
use picloud.Prelude.BTreeMap
use picloud.Prelude.BTreeMap.{
  BTreeMap, Bound, included, unbounded, above, below, is_inverted, range-inverted,
}
use picloud.Prelude.HashMap
use picloud.Prelude.HashMap.{get-insert, get-remove}
use picloud.Prelude.Texts.{Text}
use picloud.Raft.Types.{LogId, Vote, Entry}
use picloud.Raft.LogStore
use picloud.Raft.LogStore.{MemLogStore}
use picloud.Raft.SledLogStore
use picloud.Raft.SledLogStore.{
  SledLogStore, Json, RoundTrips, read_with, vote_key, committed_key, last_purged_key, last_id,
  log_state, collect_range, push_entry,
}
use picloud.Raft.SledLogStore.Trees.{
  map_tree, map_tree-insert, map_tree-remove_all, keys-range-map_tree, map_last, last-map_tree,
}

abbrev pub is_none {ℓ} : {A : Type ℓ} → Option A → Bool
is_none none = true
is_none (some a) = false

-- The calls that change a log store.
pub data LogCall (Membership : Type 0) : Type 0 where
  append : List (Entry Membership) → LogCall Membership
  truncate purge : LogId → LogCall Membership
  save_vote : Vote → LogCall Membership
  save_committed : Option LogId → LogCall Membership

abbrev enc : {A : Type 0} → Json A → Option A → Option Text
enc json none = none
enc json (some a) = some (json.to_vec a)

read-enc :
    {A : Type 0} (json : Json A) (o : Option A)
    → RoundTrips json
    → read_with json (enc json o) ≡ some o
read-enc json none r = refl
read-enc json (some a) r = ground (arith, r a)

module _ {Membership : Type 0} where
  abbrev call_mem : LogCall Membership → MemLogStore Membership → MemLogStore Membership
  call_mem (append es) s = LogStore.append es s
  call_mem (truncate id) s = LogStore.truncate id s
  call_mem (purge id) s = LogStore.purge id s
  call_mem (save_vote v) s = LogStore.save_vote v s
  call_mem (save_committed c) s = LogStore.save_committed c s

  abbrev pub run_mem : List (LogCall Membership) → MemLogStore Membership → MemLogStore Membership
  run_mem [] s = s
  run_mem (c ∷ cs) s = run_mem cs (call_mem c s)

module _ {Membership : Type 0} (entry_json : Json (Entry Membership)) (id_json : Json LogId)
    (vote_json : Json Vote) where
  abbrev call_sled : LogCall Membership → SledLogStore → SledLogStore
  call_sled (append es) t = SledLogStore.append entry_json id_json vote_json es t
  call_sled (truncate id) t = SledLogStore.truncate entry_json id_json vote_json id t
  call_sled (purge id) t = SledLogStore.purge entry_json id_json vote_json id t
  call_sled (save_vote v) t = SledLogStore.save_vote entry_json id_json vote_json v t
  call_sled (save_committed c) t = SledLogStore.save_committed entry_json id_json vote_json c t

  abbrev pub run_sled : List (LogCall Membership) → SledLogStore → SledLogStore
  run_sled [] t = t
  run_sled (c ∷ cs) t = run_sled cs (call_sled c t)

  -- The trees hold what the in-memory store holds.
  record Holds (t : SledLogStore) (s : MemLogStore Membership) : Type 0 where
    log : t.log_tree ≡ map_tree entry_json.to_vec s.log
    vote : HashMap.get t.meta_tree vote_key ≡ enc vote_json s.vote
    committed : HashMap.get t.meta_tree committed_key ≡ enc id_json s.committed
    purged : HashMap.get t.meta_tree last_purged_key ≡ enc id_json s.last_purged_log_id

  insert_all-map_tree :
      (es : List (Entry Membership)) (m : BTreeMap (Entry Membership))
      → SledLogStore.insert_all entry_json id_json vote_json es (map_tree entry_json.to_vec m)
        ≡ map_tree entry_json.to_vec (LogStore.insert_all es m)
  unfolding SledLogStore.insert_all LogStore.insert_all
  insert_all-map_tree [] m = refl
  insert_all-map_tree (e ∷ es) m =
      ap (SledLogStore.insert_all entry_json id_json vote_json es)
        (sym (map_tree-insert entry_json.to_vec m e.log_id.index e))
      ∙ insert_all-map_tree es (BTreeMap.insert m e.log_id.index e)

  remove_range :
      (m : BTreeMap (Entry Membership)) (lo hi : Bound)
      → BTreeMap.remove_all
          (BTreeMap.keys (BTreeMap.range (map_tree entry_json.to_vec m) lo hi))
          (map_tree entry_json.to_vec m)
        ≡ map_tree entry_json.to_vec
            (BTreeMap.remove_all (BTreeMap.keys (BTreeMap.range m lo hi)) m)
  remove_range m lo hi =
      ap (λ ks. BTreeMap.remove_all ks (map_tree entry_json.to_vec m))
        (keys-range-map_tree entry_json.to_vec m lo hi)
      ∙ sym (map_tree-remove_all entry_json.to_vec (BTreeMap.keys (BTreeMap.range m lo hi)) m)

  call-Holds :
      (c : LogCall Membership) (t : SledLogStore) (s : MemLogStore Membership)
      → Holds t s
      → Holds (call_sled c t) (call_mem c s)
  unfolding SledLogStore.append LogStore.append SledLogStore.truncate LogStore.truncate
      SledLogStore.purge LogStore.purge SledLogStore.save_vote LogStore.save_vote
      SledLogStore.save_committed LogStore.save_committed
  call-Holds (append es) t s h = record {
    log =
        ap (SledLogStore.insert_all entry_json id_json vote_json es) h.log
        ∙ insert_all-map_tree es s.log;
    vote = h.vote;
    committed = h.committed;
    purged = h.purged;
  }
  call-Holds (truncate id) t s h = record {
    log =
        ap
          (λ x.
            BTreeMap.remove_all (BTreeMap.keys (BTreeMap.range x (included id.index) unbounded)) x)
          h.log
        ∙ remove_range s.log (included id.index) unbounded;
    vote = h.vote;
    committed = h.committed;
    purged = h.purged;
  }
  call-Holds (purge id) t s h = record {
    log =
        ap
          (λ x.
            BTreeMap.remove_all (BTreeMap.keys (BTreeMap.range x unbounded (included id.index))) x)
          h.log
        ∙ remove_range s.log unbounded (included id.index);
    vote = get-insert t.meta_tree last_purged_key vote_key (id_json.to_vec id) ∙ h.vote;
    committed =
        get-insert t.meta_tree last_purged_key committed_key (id_json.to_vec id) ∙ h.committed;
    purged = get-insert t.meta_tree last_purged_key last_purged_key (id_json.to_vec id);
  }
  call-Holds (save_vote v) t s h = record {
    log = h.log;
    vote = get-insert t.meta_tree vote_key vote_key (vote_json.to_vec v);
    committed = get-insert t.meta_tree vote_key committed_key (vote_json.to_vec v) ∙ h.committed;
    purged = get-insert t.meta_tree vote_key last_purged_key (vote_json.to_vec v) ∙ h.purged;
  }
  call-Holds (save_committed none) t s h = record {
    log = h.log;
    vote = get-remove t.meta_tree committed_key vote_key ∙ h.vote;
    committed = get-remove t.meta_tree committed_key committed_key;
    purged = get-remove t.meta_tree committed_key last_purged_key ∙ h.purged;
  }
  call-Holds (save_committed (some c)) t s h = record {
    log = h.log;
    vote = get-insert t.meta_tree committed_key vote_key (id_json.to_vec c) ∙ h.vote;
    committed = get-insert t.meta_tree committed_key committed_key (id_json.to_vec c);
    purged = get-insert t.meta_tree committed_key last_purged_key (id_json.to_vec c) ∙ h.purged;
  }

  run-Holds :
      (cs : List (LogCall Membership)) (t : SledLogStore) (s : MemLogStore Membership)
      → Holds t s
      → Holds (run_sled cs t) (run_mem cs s)
  run-Holds [] t s h = h
  run-Holds (c ∷ cs) t s h = run-Holds cs (call_sled c t) (call_mem c s) (call-Holds c t s h)

  new-Holds : Holds SledLogStore.new LogStore.new
  unfolding SledLogStore.new LogStore.new map_tree HashMap.get
  new-Holds = record { log = refl; vote = refl; committed = refl; purged = refl }

  collect-map_tree :
      (lo hi : Bound) (m : BTreeMap (Entry Membership))
      → RoundTrips entry_json
      → collect_range entry_json id_json vote_json lo hi (map_tree entry_json.to_vec m)
        ≡ some (BTreeMap.values (BTreeMap.range m lo hi))
  unfolding collect_range map_tree BTreeMap.range BTreeMap.values
  collect-map_tree lo hi [] r = refl
  collect-map_tree lo hi ((k, e) ∷ m) r = ground (arith, collect-map_tree lo hi m r, r e)

  last_id-map_last :
      (o : Option (ℕ × Entry Membership))
      → RoundTrips entry_json
      → last_id entry_json id_json vote_json (map_last entry_json.to_vec o)
        ≡ some (LogStore.id_of o)
  last_id-map_last none r = refl
  last_id-map_last (some (k, e)) r = ground (arith, r e)

  collect_inverted :
      (lo hi : Bound) (t : SledLogStore) (s : MemLogStore Membership)
      → RoundTrips entry_json
      → Holds t s
      → (SledLogStore.try_get_log_entries entry_json id_json vote_json lo hi t
          ≡ (if is_inverted lo hi then some [] else LogStore.try_get_log_entries lo hi s))
        × (is_none (LogStore.try_get_log_entries lo hi s) ≡ is_inverted lo hi)
  unfolding SledLogStore.try_get_log_entries LogStore.try_get_log_entries BTreeMap.values
  collect_inverted lo hi t s r h =
      let read =
        ap (collect_range entry_json id_json vote_json lo hi) h.log
        ∙ collect-map_tree lo hi s.log r in
      elim (Bool-cases (is_inverted lo hi)) [
        | inl bad ↦ (
          read
              ∙ ap (λ m. some (BTreeMap.values m)) (range-inverted s.log lo hi bad)
              ∙ ground (arith, bad),
          ground (arith, bad),
        )
        | inr good ↦ (read ∙ ground (arith, good), ground (arith, good))
      ]

  -- Where serde reads back what it writes: after any calls on a new store, the sled store never fails
  -- and answers every read as the in-memory store does after the same calls, but for an inverted range
  -- of entries: there the in-memory store panics, and the sled store answers with no entries.
  pub sled_log_refines :
      RoundTrips entry_json
      → RoundTrips id_json
      → RoundTrips vote_json
      → (cs : List (LogCall Membership)) (lo hi : Bound)
      → let t = run_sled cs SledLogStore.new in
        let s = run_mem cs LogStore.new in
        (SledLogStore.try_get_log_entries entry_json id_json vote_json lo hi t
          ≡ (if is_inverted lo hi then some [] else LogStore.try_get_log_entries lo hi s))
        × (is_none (LogStore.try_get_log_entries lo hi s) ≡ is_inverted lo hi)
        × (SledLogStore.get_log_state entry_json id_json vote_json t
            ≡ some (LogStore.get_log_state s))
        × (SledLogStore.read_vote entry_json id_json vote_json t ≡ some (LogStore.read_vote s))
        × (SledLogStore.read_committed entry_json id_json vote_json t
            ≡ some (LogStore.read_committed s))
  unfolding SledLogStore.get_log_state LogStore.get_log_state SledLogStore.read_vote
      LogStore.read_vote SledLogStore.read_committed LogStore.read_committed
  sled_log_refines re ri rv cs lo hi =
      let s : MemLogStore Membership = run_mem cs LogStore.new in
      let h = run-Holds cs SledLogStore.new LogStore.new new-Holds in
      let entries = collect_inverted lo hi (run_sled cs SledLogStore.new) s re h in
      (
        entries.0,
        entries.1,
        ap
              (λ o. log_state (read_with id_json o) (
                last_id entry_json id_json vote_json
                  (BTreeMap.last (run_sled cs SledLogStore.new).log_tree)))
              h.purged
            ∙ ap
                (λ o. log_state o (
                  last_id entry_json id_json vote_json
                    (BTreeMap.last (run_sled cs SledLogStore.new).log_tree)))
                (read-enc id_json s.last_purged_log_id ri)
            ∙ ap
                (λ x.
                  log_state (some s.last_purged_log_id)
                    (last_id entry_json id_json vote_json (BTreeMap.last x)))
                h.log
            ∙ ap
                (λ x.
                  log_state (some s.last_purged_log_id) (last_id entry_json id_json vote_json x))
                (last-map_tree entry_json.to_vec s.log)
            ∙ ap (log_state (some s.last_purged_log_id))
                (last_id-map_last (BTreeMap.last s.log) re),
        ap (read_with vote_json) h.vote ∙ read-enc vote_json s.vote rv,
        ap (read_with id_json) h.committed ∙ read-enc id_json s.committed ri,
      )
