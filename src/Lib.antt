-- ===== src/Lib.antt =====
-- The core of mnemo, a memory service for agents: the replicated data types that its nodes
-- exchange, the models that decide who may see and store what, the traversal of the knowledge
-- graph, the identities of agents, the ingestion pipeline and its workers, and the admission of
-- requests.
--
-- Parts, and the files of the program that they stand for:
--   * Sync: crates/mnemo-core/src/sync.rs. Sync/Hlc.antt is `HybridClock` and its timestamps;
--     Sync/VectorClock.antt, Sync/GCounter.antt, Sync/LwwRegister.antt, Sync/LwwMap.antt and
--     Sync/OrSet.antt are the types of these names; Sync/Slots.antt is the loop over counters per
--     node that three of them share; Sync/Merkle.antt is `MerkleDigest`. Registers and maps order
--     writes by the timestamps of Hlc, and the children of each file hold its theorems.
--   * Models: crates/mnemo-core/src/models/. Classification.antt, ApiKey.antt, Region.antt,
--     View.antt, Edge.antt, Entity.antt and Guardrail.antt are classification.rs, api_key.rs,
--     region.rs, view.rs, edge.rs, entity.rs and guardrail.rs. A view is narrowed by the ceiling of
--     a caller of ApiKey, and guardrails compare classifications and roles.
--     Context.antt is `ContextBlock::assemble` of context.rs, which puts what was found into a text
--     within a budget of tokens, and Counterfactual.antt is `apply_hypotheticals` of
--     counterfactual.rs on the same facts. Clarification.antt is clarification.rs and the two handlers of
--     crates/mnemo-server/src/routes.rs that close a clarification, which invalidate facts of Edge.
--   * Graph: crates/mnemo-graph/src/lib.rs, `GraphEngine` over a store that is a parameter: Graph.antt
--     is `traverse_bfs_for_user`, Graph/Paths.antt `find_shortest_path_for_user`, and
--     Graph/Communities.antt `detect_communities`.
--   * Identity: the identity of agents. Identity/Merkle.antt, Identity/Proofs.antt and
--     Identity/Audit.antt are the allowlist tree, `verify_identity_update_proof` and
--     `verify_audit_chain` of crates/mnemo-core/src/models/agent.rs; Identity/History.antt is what
--     crates/mnemo-storage/src/redis_store.rs keeps of an identity, with the log that Audit verifies;
--     Identity/Promotion.antt is `PromotionProposal` and its handlers in
--     crates/mnemo-server/src/routes.rs, which update an identity of History.
--   * Pipeline: crates/mnemo-ingest/src/dag.rs, the steps of the ingestion pipeline, their metrics
--     under concurrent calls, the dead letter queue and the status.
--   * Ingest: crates/mnemo-ingest/src/lib.rs, how a worker selects the episodes of a poll, claims them
--     and retries those that fail. Models/Episode.antt is episode.rs, the episodes that it works on.
--   * Auth: crates/mnemo-server/src/middleware/auth.rs and `validate_grpc_auth` of
--     crates/mnemo-server/src/grpc.rs, how a request gets its caller. Auth/Eviction.antt is the sweep of
--     the key cache, Auth/History.antt interleaves requests, sweeps and revocations over a store
--     that changes with time, and Auth/Revocation.antt is `revoke_api_key` of routes.rs on the key
--     store of redis_store.rs.
--   * BTreeMap: `BTreeMap` of the standard library as the list of its entries in the order of the
--     keys; hash maps are kept in the same way, or as functions from their keys, since no
--     result here depends on their order.
--   * Base: tests, lists, orders, texts and machine words that the parts share.
--   * Examples: the theorems at concrete inputs.
--
-- How the code is represented. A method that changes `self` is a function from the state before to
-- the state after, paired with what the method returns. u32 and u64 are natural numbers, and an
-- addition wraps at 2 ^ 32 or 2 ^ 64, as in a release build. A text is the list of its bytes.
-- UUIDs, instants (in milliseconds) and the bits of an f32 that is only stored are natural numbers;
-- JSON values are their texts. The reading of a clock and a new UUID are arguments of the function
-- that asks for them. SHA-256, hexadecimal digits, the regex engine, the comparison of two f32, the
-- store of the graph, the store of keys, the format of a date and the iteration order of hash maps
-- are parameters. A function on Unicode text is stated for ASCII where it changes case, trims or
-- tests classes of characters.
--
-- Fuel. The loop of the traversal takes fuel, one unit for each id that it pops; `none` is the end of
-- the fuel. One unit more than there are ids in the graph is enough, since an id is queued at most
-- once. The search for a shortest path and the walk back along its parents take fuel in the same way,
-- and the same amount is enough. The layers of a Merkle tree are built on fuel that is the number of
-- the leaves, and the digits of a number on the number itself. The rounds of label propagation are
-- bounded in the source. The loop that fills the batch of a poll takes the size of the batch as
-- fuel, since each of its rounds but the last selects an episode. All other loops are recursion on a
-- list.
--
-- Not modelled: request and response types, serialisation, the decay scores in f32, the branches
-- and forks of an agent, what a worker does with one episode, and the crates for retrieval,
-- storage, language models, the rest of the server and its clients, which are mostly input and
-- output, floating-point arithmetic or glue.
pub mod Base
pub mod BTreeMap
pub mod Sync
pub mod Models
pub mod Graph
pub mod Pipeline
pub mod Auth
pub mod Examples
pub mod Identity
pub mod Ingest
