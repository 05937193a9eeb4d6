-- ===== src/Tests/MeshRuns.antt =====
-- The syncer at concrete inputs: a peer that serves its store, a peer that does not answer, and a peer
-- that lost its records.
use dee_relay.Base.{
  ℕ, ◌≤◌, ◌*◌, ◌≡◌, refl, [], ◌∷◌, String, pos, arith, nat_key, string_key, string_discrete,
}
use dee_relay.Map.Count.{count}
use dee_relay.Model.{Time}
use dee_relay.Queue.Store as QueueStore
use dee_relay.Queue.Ops.Lockstep.{new_store-Inv}
use dee_relay.Queue.Replicate.{page_of}
use dee_relay.Queue.Run.{posts, run}
use dee_relay.Presence.Table as PresenceTable
use dee_relay.Presence.Run.{run-new_store-InStep}
use dee_relay.Peer.Pool.{new_pool, targets, record_success, record_failure}
use dee_relay.Peer.Roster as Roster
use dee_relay.Peer.Configured.{run-new_pool}
use dee_relay.Mesh.Syncer.{
  Page, Syncer, Error, Fetched, fetched, missing, cursor_for, sync_peer, sync_all, page_size,
  fetch_failed,
}
use dee_relay.Mesh.Steady.{IsSteady, sync_all-IsSteady}
use dee_relay.Mesh.Serving.{left_after, IsUnique}
use dee_relay.Mesh.Carried.{PullsAll, sync_peer-PullsAll}
use dee_relay.Tests.QueueData.{program, small, letter, open_grant}

-- The peer's store: two letters, each with the ack of the node.
theirs : QueueStore.Store
theirs = run (QueueStore.new_store small "e2") (
    (20, posts (letter "m1" "bob" "") "n2" open_grant)
    ∷ (21, posts (letter "m2" "eve" "") "n2" open_grant)
    ∷ [])

abbrev serves : ℕ → Page
serves since = record {
  payload = page_of theirs since page_size;
  node_id = "n2";
  presence = [];
  presence_revocations = [];
}

abbrev ours : Syncer
ours = record {
  mesh_secret = "secret";
  max_payload_bytes = pos 16;
  max_purges = pos 2;
  store = QueueStore.new_store small "e1";
  pool = new_pool "n1" ("http://a" ∷ "http://b" ∷ []);
  presence = PresenceTable.new_store (pos 3) (pos 100);
  cursors = ("http://b", record { epoch = "e0"; seq = 9 }) ∷ [];
}

abbrev at_thirty : String → ℕ → Time
at_thirty url page = 30

-- The peer at one url serves, and nothing answers at the other.
abbrev network : String → ℕ → String → ℕ → Fetched
network url page peer since = elim (string_discrete url "http://b") [
  | yes e ↦ fetched (serves since)
  | no e ↦ missing "refused"
]

abbrev words : Error → String
words e = "failed"

ours-IsSteady : IsSteady ("http://a" ∷ "http://b" ∷ []) ours
unfolding program new_pool targets PresenceTable.new_store dee_relay.Presence.Run.run Roster.run
ours-IsSteady = record {
  store = new_store-Inv small "e1";
  presence = run-new_store-InStep (pos 3) (pos 100) [];
  roster = (run-new_pool "n1" ("http://a" ∷ "http://b" ∷ []) []).0;
  configured = refl;
}

mesh_code : Unit {0}
unfolding theirs program sync_peer sync_all new_pool targets record_success record_failure
    PresenceTable.new_store page_of
mesh_code = tt

theirs-IsUnique : IsUnique theirs
unfolding theirs program count
theirs-IsUnique n = ground arith

theirs_fits : left_after theirs 0 ≤ 19 * page_size
unfolding theirs program left_after count
theirs_fits = omega arith

sync_peer-PullsAll_example :
    PullsAll theirs serves
      (at_thirty "http://b")
      "http://b"
      ours
      (sync_peer (at_thirty "http://b") (λ page peer since. fetched (serves since)) ours "http://b")
sync_peer-PullsAll_example =
    sync_peer-PullsAll theirs theirs-IsUnique serves (λ since. refl) (at_thirty "http://b")
      "http://b" ours theirs_fits

sync_all-IsSteady_example :
    IsSteady ("http://a" ∷ "http://b" ∷ []) (sync_all words at_thirty network ours).0
sync_all-IsSteady_example =
    sync_all-IsSteady ("http://a" ∷ "http://b" ∷ []) words at_thirty network ours ours-IsSteady

one_failure : (sync_all words at_thirty network ours).1 ≡ ("http://a", fetch_failed "refused") ∷ []
unfolding mesh_code
one_failure = refl

-- From a cursor of the peer's former life, which it restarts.
caught_up :
    cursor_for (sync_all words at_thirty network ours).0 "http://b"
    ≡ record { epoch = "e2"; seq = 4 }
unfolding mesh_code cursor_for
caught_up = refl
