-- ===== src/Lib.antt =====
-- PiCloud: the event log, the Raft storage, the cluster, the gateway, the network services, the
-- registry, the identity provider, the workloads and the volumes.
--
-- PiCloud is a platform for a cluster of small machines. Every change is an event. A node appends
-- events to its log (crates/picloud-events), which keeps them in memory and in a file of JSON lines,
-- broadcasts them to subscribers, and is compacted from time to time; the router of the same crate
-- appends an event for each subscription of another product. The nodes find one another by mDNS and
-- replicate events by openraft, to which crates/picloud-cluster gives a log store and a state machine
-- whose apply callback appends to the event log. The gateway (crates/picloud-http) finds the route
-- of a request, chooses implementors of capabilities and evaluates alert rules. The network services
-- (crates/picloud-network) answer DNS queries and let nodes into the cluster; the registry
-- (crates/picloud-registry) keeps container images. The identity provider (crates/picloud-iam) issues
-- and checks tokens, keeps passkeys, groups and applications, and runs the login ceremonies; the
-- scheduler (crates/picloud-workload) starts, restarts, stops and drains workloads; the storage
-- (crates/picloud-storage) places volumes on a node and keeps their snapshots.
--
-- Each file opens with the code that it is about. By crate:
--   Domain           crates/picloud-domain: error.rs, iri.rs, events.rs and traits.rs. `EventLog` is
--                    the interface that the router and the wrapping logs take.
--   Events.Log       `InMemoryEventLog`; Events.Race has its `append` cut into its locked sections,
--                    and runs of a pool of calls as an indexed data type; Events.Filter has
--                    `matches_filter` and `subscribe`.
--   Events.Persistent  `PersistentEventLog`: `open` is `open_log`; Compaction has `compact` and
--                    `compact_if_needed` with the call that fails as an argument. History is the
--                    abstract view, a list of all events of which a prefix may be compacted away.
--   Events.Stores    `WriteThroughEventLog` and `ProductEventStore`, over any `EventLog`.
--   Events.Router    `PlatformEventRouter` of router.rs.
--   Raft             raft.rs of crates/picloud-cluster: `MemLogStore`, `MemStateMachine`, and the
--                    sled-backed `SledLogStore` and `SledStateMachine`, which are compared to them.
--   Cluster          peers.rs, discovery.rs and implementation.rs: `PeerList`, `handle_event`,
--                    leadership and members, the voter changes and the identity store.
--   Http             crates/picloud-http: router.rs, capability.rs (Versions) and alerts.rs.
--   Network          crates/picloud-network: dns/cache.rs, dns/resolver.rs, ca/enrollment.rs and
--                    ca/revocation.rs.
--   Registry         crates/picloud-registry: blob_store.rs (Blobs), implementation.rs (Backend) and
--                    gc.rs (Collector).
--   Iam              crates/picloud-iam, implementation.rs, with identity.rs of picloud-domain.
--                    Provider is the state; Tokens and Issuing sign, check and exchange tokens;
--                    Groups has the roles, Passkeys and Ceremonies the passkeys with registration and
--                    authentication, Signature the check of an answer; Enrollment, Clients (client
--                    credentials and M2M permissions) and Flows (authorization codes, devices).
--   Workload         crates/picloud-workload, implementation.rs, with workload.rs of picloud-domain:
--                    Spec and Limits, Scheduler (`ProcessScheduler`: `health_check` is one round of
--                    `start_health_check_loop`) and Drain (`InMemoryDrainCoordinator`).
--   Storage          crates/picloud-storage, implementation.rs, with storage.rs of picloud-domain:
--                    Volumes (`LocalStorageBackend`) and Snapshots (`LocalSnapshotManager` and
--                    `SnapshotScheduler`).
-- The modules Tests run them at concrete data. Prelude has the tests on numbers, the lists, the
-- equality interface, `HashMap`, `BTreeMap` and the texts.
--
-- State is passed explicitly: an operation gives its result and the state after it. An operation
-- that holds one lock throughout is one step; an allocation of a volume, which takes two, is two steps
-- that may have another call between them. Numbers are natural numbers; the 64-bit arithmetic of
-- the source that can wrap is written with its remainder. A text is the list of its code points.
-- Times, fresh identifiers and what a call of the outside gives are arguments: serde, the file system
-- with each failure (a line or a blob that is written in part, a device that is made and not sized, a
-- directory that cannot be read), openraft's membership change, the RDF queries, the signing of certificates, the
-- floats of the metrics, SHA-256, HMAC, base64, CBOR, P-256, the JSON of tokens and image manifests, and
-- what the operating system says of a process. Laws of a parameter, such as that base64 decodes what it
-- encodes, are hypotheses with a name. A time is a number of seconds, and of microseconds for the
-- snapshots.
--
-- The loops of the modelled code run over lists, but for two. The search for a free snapshot time has
-- one step of fuel more than there are snapshots, and one of those times is free; the digits of a key
-- version are at most ten, which is enough below 2 ^ 32. The loops over version parts run as often as
-- the longer version has parts.
--
-- Not modelled: the Raft network, failures of sled, replication and off-site backup of volumes, the
-- secrets, workload certificates and OIDC discovery, the spawning of processes and containers with
-- their environment, the RDF projections, the handlers of the gateway and its telemetry, the DNS server
-- and the certificate authority, the resource language and its compiler, the SDK generator and the
-- command line: input and output, third-party libraries, or texts. The broadcast channel has no
-- capacity limit here: a receiver that lags behind it is not modelled. Letters are changed in case only
-- within ASCII.
pub mod Prelude
pub mod Domain
pub mod Events
pub mod Raft
pub mod Cluster
pub mod Http
pub mod Network
pub mod Registry
pub mod Iam
pub mod Workload
pub mod Storage
