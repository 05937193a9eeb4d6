-- ===== src/Lib.antt =====
-- dee-relay is a store-and-forward relay for sealed messages. A sender posts an envelope to a
-- recipient's queue, the recipient fetches it and posts an ack, the sender fetches the acks, and the
-- relays of a pool replicate their queues to each other by pages. All state is in memory.
--
-- Parts, and where they are modelled:
--   Model            internal/model/model.go: the wire records.
--   Queue/Auth       internal/queue/capability.go: NewAuth, permits, TagForSecret.
--   Queue            internal/queue/store.go: Store, with
--     Types            its errors, grants, configuration and counts;
--     Store            the record maps, their indexes, counters and tag bindings, and the single
--                      points of insertion and deletion (addMessageLocked, deleteMessageLocked,
--                      addAckWithinLocked, deleteAckLocked);
--     Post             AddMessage, AddMessageWithGrant;
--     Acks             AddAck, AddAckWithGrant;
--     Fetch            MessagesForRecipient, AcksForSender, Stats, Occupancy;
--     Purge            PurgeOwner, PruneExpired and the tombstones;
--     Replicate        SnapshotSince, Snapshot, ImportSnapshot.
--   Presence         internal/presence/store.go: Store, with
--     Table            the lease table, its two writers and the prune;
--     Beats            Heartbeat, HeartbeatWithGrant, makeRoomLocked, Import;
--     Lists            Query, Count, Snapshot, Revocations;
--     Revoke           Revoke, ImportRevocations.
--   Prekey           internal/prekey/store.go: Store, with
--     Pools            the pools, the prune and the counts;
--     Publish          Publish;
--     Claim            Claim, takeTokenLocked, Status.
--   Peer             internal/peer/pool.go: Pool, with NewPool, Targets, RecordSuccess, RecordFailure,
--                    Health and Statuses in Pool.
--   Attachment       internal/attachment/relay.go: Relay, with
--     Bitmap, Transit  the set of chunks seen and the ring of 24 hours of transit;
--     Types            the chunks, the sessions, NewRelay and the sweep of idle transfers;
--     Push             Push, PushWithGrant;
--     Ends             Drain, Complete, Prune, Stats, Transit.
--   Admission        internal/admission and internal/httpapi/admission.go, with
--     Types            the errors, terms, credentials and grants;
--     Sessions         session.go: nonces and sessions, Challenge, Open, Resolve, Forget;
--     Proof            credential.go: Transcript, Verify; session.go: VerifyProof;
--     Store            store.go: Lookup, Replace, and credential.go's checks of a credential;
--     Codes            credential.go: NewCode, NormalizeCode;
--     Gate             the two admission handlers, admit, and the grants for queue and attachments.
--   Mesh             internal/mesh/syncer.go: Syncer holds SyncAll, SyncPeer and the cursors, over the
--                    queue, presence and pool.
--   Http             internal/httpapi/server.go, over all the stores, with
--     Types, Guards    the server, the bodies and replies, queueAuth, queueSubject, presenceGrant;
--     Mail             the handlers of POST and GET /messages and /acks;
--     Boxes            those of presence, prekeys, /profile/purge and /mesh/snapshot;
--     Chunks           those of /attachments, with the long poll;
--     Health           that of /health, which prunes presence, attachments and prekeys;
--     Requests         the routes, all but /nodes, as one step.
--   A request passes the gate (Admission) and the proof of its queue (Queue/Auth), then runs one
--   operation of a store under that store's mutex, with the terms that its credential bought.
--   Proofs of the queue: Queue/Auth/Proofs of the authorization; Queue/Invariant of the lock-step
--   between the maps; Queue/Effects of what the steps leave alone; Queue/Ops of each operation;
--   Queue/Run of histories of calls. Proofs of presence: Presence/Invariant and Run of the lock-step, Victims and
--   Outcomes of the eviction, Drops and Leases of what the operations leave in the table. Proofs of the
--   prekeys: Prekey/Every, Fill, Caps and Kinds of what each pool keeps, Run of histories, Once of the
--   claims, Bucket and Rate of the token bucket. Proofs of the peers: Peer/Roster and Configured of the targets, Peer/Healths of
--   the summary. Proofs of the attachments: Attachment/Invariant, Pushes, Verdicts, Run, Caps of the
--   tables and their caps, Moves, Handed, Traces and Replays of what is delivered, Ledger, Charges,
--   Spent and Billing of the transit, Refusals of the errors. Proofs of admission: Admission/Tokens,
--   Linked, Lockstep, Opening, Forgetting, Upkeep and Run of the session tables, Nonces and SingleUse,
--   Outcomes, Redeemed and Redeems of the handlers, Indexes of the reloads, Retyped, Digits and Minted of the codes. Proofs of the syncer:
--   Mesh/Steady, and Chain, Cursors, Drained, Serving, Rising, Pulled and Carried of a sync that catches up. Proofs of the
--   handlers: Http/Admitted, Reading, Posting, Pages, Polled, and Sound, Boxed, Stocked and Steady of histories.
--   Base and Map hold the shared lemmas (Base/Arrays the arrays, Map/Entries the counts of a map), Tests
--   the runs at concrete inputs.
--
-- How the code is read:
--   * A method is a function from the store, the instant that its clock reads and its arguments to the
--     store and its answer. Each holds the mutex from its first look at a map to its end, so a
--     concurrent run is an order of calls: a list of instants and calls. Instants need not be in order.
--     Import of presence takes the mutex for each heartbeat and is modelled as one call of a history.
--   * A Go map is an association list with one entry a key at most. Its range loop walks the entries
--     in list order, one of the orders that Go may choose; a loop that writes walks the map as it was
--     at its start, which shows the same entries, since each body changes only the entry it visits.
--   * An instant or a duration is a number of nanoseconds; the zero instant, which IsZero tests, is a
--     constant above the origin. time.Add does not overflow in the model.
--   * int is the integers where a field may be negative (configuration, grants, limits) and the
--     naturals where it counts entries. The cursor s.seq is a uint64 and wraps.
--   * len is the length of a text in bytes, TrimSpace strips the code points of unicode.IsSpace.
--   * sort.Slice is a sorted rearrangement, insertion sort; where the source leaves an order of equals
--     open, the theorems only speak of order by the key and of membership.
--   * SHA-256 and base64, in the tags, are a parameter, a function from texts to texts. Nothing is
--     assumed of it.
--   * The tokens of a prekey bucket, a float64 in the source, are an exact number: the nanoseconds of
--     refill that they stand for. Rounding is not modelled.
--   * The status of a peer, behind a pointer in the source, is reached through the pool's map alone, so
--     it is a value of that map. An age in whole seconds is the truncated number.
--   * A token from crypto/rand is an argument of the call that draws it, nothing where the draw fails.
--     Ed25519 and base64 of keys and signatures are parameters, of which nothing is assumed.
--   * Transit hours are those of a clock after 1970, and the totals of bytes, int64 in the source, do not
--     wrap. An index outside of the bitmap of seen chunks is an outcome of its own, `panicked`.
--   * fetchSnapshot of the syncer is a parameter: for a peer, a round and a cursor, a page or an error.
--     The stores read their clocks at one instant for each page.
--   * A handler gets what net/http, encoding/json and strconv made of the request: the session token,
--     the fields of the capability header, the query's values, and the body as decoded or the way
--     that decoding failed. A reply is its status and code, or its value. The handler's readings of the clock
--     are a function of their number.
--   * Loops are recursion on the list walked, so no fuel is used, but for two. The loop over pages counts down from
--     pagesPerSync, the source's own bound. The long poll for chunks counts its rounds; its theorem says
--     how many are enough.
--
-- Not modelled: /nodes and the limits of bodies in internal/httpapi; the url that the relay advertises (internal/peer/selfurl.go); the
-- derivation of keys from codes and the credential file in internal/admission;
-- the request that fetchSnapshot makes, since the peer is another machine; configuration; the
-- command lines, files and keys (cmd, internal/issue), since they are input and output; the shell
-- scripts under deploy.
pub mod Admission
pub mod Attachment
pub mod Base
pub mod Map
pub mod Mesh
pub mod Http
pub mod Model
pub mod Peer
pub mod Prekey
pub mod Presence
pub mod Queue
mod Tests
