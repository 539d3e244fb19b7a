-- ===== src/Raft/Types.antt =====
-- The data that openraft passes to the storage of crates/picloud-cluster/src/raft.rs. What a
-- membership is belongs to openraft: its type is a parameter.
use picloud.Prelude.{ℕ, Bool, Option}
use picloud.Prelude.Texts.{Text}

pub record LogId : Type 0 where
  pub term : ℕ
  pub node_id : ℕ
  pub index : ℕ

pub record Vote : Type 0 where
  pub term : ℕ
  pub node_id : ℕ
  pub committed : Bool

pub record ClientRequest : Type 0 where
  pub event_json : Text

pub record ClientResponse : Type 0 where
  pub index : ℕ

pub data EntryPayload (Membership : Type 0) : Type 0 where
  blank : EntryPayload Membership
  normal : ClientRequest → EntryPayload Membership
  membership : Membership → EntryPayload Membership

pub record Entry (Membership : Type 0) : Type 0 where
  pub log_id : LogId
  pub payload : EntryPayload Membership

pub record StoredMembership (Membership : Type 0) : Type 0 where
  pub log_id : Option LogId
  pub membership : Membership

pub record LogState : Type 0 where
  pub last_purged_log_id : Option LogId
  pub last_log_id : Option LogId
