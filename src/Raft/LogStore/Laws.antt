-- ===== src/Raft/LogStore/Laws.antt =====
-- What openraft asks of its log store, proved of `MemLogStore`.
use picloud.Prelude.{
  ℕ, ◌<◌, ◌≡◌, refl, ap, ◌∙◌, ◌⊎◌, inl, inr, Option, none, some, List, [], ◌∷◌, arith,
  if◌then◌else◌, leb, nat_beq, nat_beq_iff, All, Option-cases,
}
use picloud.Prelude.BTreeMap
use picloud.Prelude.BTreeMap.{
  BTreeMap, Bound, included, excluded, unbounded, IsAscending, insert-IsAscending,
  remove_all-IsAscending, get-insert, get-remove_range, get-range, get-last, last-none,
}
use picloud.Raft.Types.{LogId, Entry}
use picloud.Raft.LogStore.{
  MemLogStore, new, append, insert_all, truncate, purge, get_log_state, read_vote, read_committed,
  or_else, id_of,
}

module _ {Membership : Type 0} where
  abbrev pub entry_at : MemLogStore Membership → ℕ → Option (Entry Membership)
  entry_at s i = BTreeMap.get s.log i

  -- The entry of a batch with the index, the last one where there are several.
  abbrev latest : List (Entry Membership) → ℕ → Option (Entry Membership)
  latest [] i = none
  latest (e ∷ es) i = or_else (latest es i) (if nat_beq e.log_id.index i then some e else none)

  get-insert_all :
      (es : List (Entry Membership)) (m : BTreeMap (Entry Membership)) (i : ℕ)
      → BTreeMap.get (insert_all es m) i ≡ or_else (latest es i) (BTreeMap.get m i)
  unfolding insert_all
  get-insert_all [] m i = refl
  get-insert_all (e ∷ es) m i = ground (
    arith,
    get-insert_all es (BTreeMap.insert m e.log_id.index e) i,
    get-insert m e.log_id.index i e,
  )

  -- After an append each index holds the last appended entry with that index, or what it held.
  entry_at-append :
      (es : List (Entry Membership)) (s : MemLogStore Membership) (i : ℕ)
      → entry_at (append es s) i ≡ or_else (latest es i) (entry_at s i)
  unfolding append
  entry_at-append es s i = get-insert_all es s.log i

  -- A truncation drops exactly the entries at and after its log id, and a purge exactly those up to
  -- and with it; the vote and the committed id stay.
  pub truncate-purge :
      (id : LogId) (s : MemLogStore Membership) (i : ℕ)
      → (entry_at (truncate id s) i ≡ (if leb id.index i then none else entry_at s i))
        × (entry_at (purge id s) i ≡ (if leb i id.index then none else entry_at s i))
        × (read_vote (truncate id s) ≡ read_vote s)
        × (read_vote (purge id s) ≡ read_vote s)
        × (read_committed (truncate id s) ≡ read_committed s)
        × (read_committed (purge id s) ≡ read_committed s)
  unfolding truncate purge read_vote read_committed
  truncate-purge id s i = (
    ground (arith, get-remove_range s.log (included id.index) unbounded i),
    ground (arith, get-remove_range s.log unbounded (included id.index) i),
    refl,
    refl,
    refl,
    refl,
  )

  -- Entries stand in ascending order, each under its own index, and above what was purged.
  pub record IsWellFormed (s : MemLogStore Membership) : Type 0 where
    pub ascending : IsAscending 0 s.log
    pub keyed : (i : ℕ) (e : Entry Membership) → entry_at s i ≡ some e → e.log_id.index ≡ i
    pub past_purged :
        (id : LogId) (i : ℕ) (e : Entry Membership)
        → s.last_purged_log_id ≡ some id
        → entry_at s i ≡ some e
        → id.index < i

  pub new-IsWellFormed : IsWellFormed (new {Membership = Membership})
  unfolding new BTreeMap.get
  new-IsWellFormed = record { ascending = tt; keyed = λ i e p. cc; past_purged = λ id i e p q. cc }

  insert_all-IsAscending :
      (es : List (Entry Membership)) (m : BTreeMap (Entry Membership))
      → IsAscending 0 m
      → IsAscending 0 (insert_all es m)
  unfolding insert_all
  insert_all-IsAscending [] m h = h
  insert_all-IsAscending (e ∷ es) m h =
      insert_all-IsAscending es (BTreeMap.insert m e.log_id.index e)
        (insert-IsAscending m 0 e.log_id.index e (omega arith) h)

  latest-index :
      (es : List (Entry Membership)) (i : ℕ) (e : Entry Membership)
      → latest es i ≡ some e
      → e.log_id.index ≡ i
  latest-index [] i e h = cc
  latest-index (x ∷ es) i e h = elim (Option-cases (latest es i)) [
    | inl p ↦ ground (arith, nat_beq_iff x.log_id.index i)
    | inr (y, p) ↦ latest-index es i e (p ∙ ground arith)
  ]

  -- The entries of a batch come after what was purged, as openraft appends them.
  abbrev IsPast : MemLogStore Membership → List (Entry Membership) → Type 0
  IsPast s es =
      (id : LogId) → s.last_purged_log_id ≡ some id → All (λ e. id.index < e.log_id.index) es

  latest-past :
      (n : ℕ) (es : List (Entry Membership)) (i : ℕ) (e : Entry Membership)
      → All (λ x. n < x.log_id.index) es
      → latest es i ≡ some e
      → n < i
  latest-past n [] i e a h = cc
  latest-past n (x ∷ es) i e a h = elim (Option-cases (latest es i)) [
    | inl p ↦ ground (arith, nat_beq_iff x.log_id.index i)
    | inr (y, p) ↦ latest-past n es i y a.1 p
  ]

  -- An append of entries past what was purged keeps the store well formed.
  pub append-IsWellFormed :
      (es : List (Entry Membership)) (s : MemLogStore Membership)
      → IsPast s es
      → IsWellFormed s
      → IsWellFormed (append es s)
  append-IsWellFormed es s past w = record {
    ascending = unfold append in insert_all-IsAscending es s.log w.ascending;
    keyed = λ i e p. elim (Option-cases (latest es i)) [
      | inl q ↦ w.keyed i e (ground (arith, entry_at-append es s i))
      | inr (x, q) ↦ latest-index es i e (ground (arith, entry_at-append es s i))
    ];
    past_purged = λ id i e p q. elim (Option-cases (latest es i)) [
      | inl r ↦ w.past_purged id i e (unfold append in p) (ground (arith, entry_at-append es s i))
      | inr (x, r) ↦ latest-past id.index es i x (past id (unfold append in p)) r
    ];
  }

  -- So do a truncation, and a purge up to an id that is not before what was purged already.
  truncate-IsWellFormed :
      (id : LogId) (s : MemLogStore Membership) → IsWellFormed s → IsWellFormed (truncate id s)
  truncate-IsWellFormed id s w = record {
    ascending =
        unfold truncate in
        remove_all-IsAscending (BTreeMap.keys (BTreeMap.range s.log (included id.index) unbounded))
          s.log 0 w.ascending;
    keyed = λ i e p. w.keyed i e (ground (arith, truncate-purge id s i));
    past_purged = λ d i e p q.
        w.past_purged d i e (unfold truncate in p) (ground (arith, truncate-purge id s i));
  }

  purge-IsWellFormed :
      (id : LogId) (s : MemLogStore Membership) → IsWellFormed s → IsWellFormed (purge id s)
  purge-IsWellFormed id s w = record {
    ascending =
        unfold purge in
        remove_all-IsAscending (BTreeMap.keys (BTreeMap.range s.log unbounded (included id.index)))
          s.log 0 w.ascending;
    keyed = λ i e p. w.keyed i e (ground (arith, truncate-purge id s i));
    past_purged = λ d i e p q.
        let at : d ≡ id = unfold purge in ground arith in ground (arith, truncate-purge id s i, at);
  }

  -- The entry is in the store, and none has a greater index.
  pub record IsLast (s : MemLogStore Membership) (e : Entry Membership) : Type 0 where
    pub present : entry_at s e.log_id.index ≡ some e
    pub greatest : (j : ℕ) → e.log_id.index < j → entry_at s j ≡ none

  -- The state of a well-formed log: the last log id is that of the entry with the greatest index, or
  -- the last purged one where the log is empty.
  get_log_state_lem :
      (s : MemLogStore Membership)
      → IsWellFormed s
      → ((e : Entry Membership) × ((get_log_state s).last_log_id ≡ some e.log_id) × IsLast s e)
        ⊎ ((s.log ≡ []) × ((get_log_state s).last_log_id ≡ s.last_purged_log_id))
  unfolding get_log_state
  get_log_state_lem s w = go (BTreeMap.last s.log) refl
    where
      go :
          (o : Option (ℕ × Entry Membership))
          → BTreeMap.last s.log ≡ o
          → ((e : Entry Membership) × (or_else (id_of (BTreeMap.last s.log)) s.last_purged_log_id
                ≡ some e.log_id)
              × IsLast s e)
            ⊎ ((s.log ≡ [])
                × (or_else (id_of (BTreeMap.last s.log)) s.last_purged_log_id
                    ≡ s.last_purged_log_id))
      go none p = inr (last-none s.log p, rw p)
      go (some (k, e)) p =
          let out = get-last s.log 0 k e w.ascending p in
          let key : e.log_id.index ≡ k = w.keyed k e out.1 in
          inl (
            e,
            rw p,
            record {
              present = ap (λ (i : ℕ). entry_at s i) key ∙ out.1;
              greatest = λ j lt. out.2 j (omega (arith, key));
            },
          )
