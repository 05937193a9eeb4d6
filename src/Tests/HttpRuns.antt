-- ===== src/Tests/HttpRuns.antt =====
-- The handlers at concrete inputs: mail that its owner fetches, a stranger's fetch and ack, and the pull of
-- a pool member.
use dee_relay.Base.{
  ℕ, ◌+◌, ◌*◌, arith, some, Option, Bool, ◌≡◌, ◌≢◌, refl, none, true, false, [], ◌∷◌, List, String,
  string_key, pos, ◌==◌, string_discrete, ap, inl, inr,
}
use dee_relay.Model.{Time, MessageEnvelope}
use dee_relay.Queue.Store as QueueStore
use dee_relay.Queue.Ops.Lockstep.{new_store-Inv}
use dee_relay.Queue.Auth.Proofs.{Presented}
use dee_relay.Queue.Run.{run-Inv, run, posts}
use dee_relay.Presence.Table as PresenceTable
use dee_relay.Presence.Run.{run-new_store-InStep}
use dee_relay.Prekey.Pools as PrekeyPools
use dee_relay.Attachment.Types as AttachmentTypes
use dee_relay.Admission.Gate.{admit, queue_grant, Redemption, handle_challenge}
use dee_relay.Admission.Sessions.{challenge, sweep_locked}
use dee_relay.Prekey.Run.{run-Every}
use dee_relay.Attachment.Run.{new_relay-IsRelay}
use dee_relay.Admission.Run.{new_gate, run-new_gate}
use dee_relay.Http.Types.{Server, chunks, decoded, refusal, messages, parse_limit, mesh_enabled}
use dee_relay.Http.Guards.{queue_auth, is_trusted_peer}
use dee_relay.Http.Mail.{handle_get_messages, handle_post_message, handle_post_ack, handle_get_acks}
use dee_relay.Http.Boxes.{cursor, handle_mesh_snapshot}
use dee_relay.Attachment.Ends.{drain}
use dee_relay.Http.Chunks.{Round, handle_get_attachment_chunks}
use dee_relay.Http.Polled.{tick, Ticks, IsAnswered, handle_get_attachment_chunks-IsAnswered}
use dee_relay.Http.Reading.{ReadsOwnMail, handle_get_messages-ReadsOwnMail}
use dee_relay.Http.Posting.{
  PostReply, handle_post_message-PostReply, IsTurnedDown, handle_post_ack-IsTurnedDown,
}
use dee_relay.Http.Pages.{ServesPool, handle_mesh_snapshot-ServesPool}
use dee_relay.Peer.Pool.{new_pool}
use dee_relay.Http.Requests.{
  Request, checks_health, challenges, redeems, gets_messages, posts_message, claims, polls, pulls,
  handle, serve, AreDrawn,
}
use dee_relay.Http.Sound.{IsSteady}
use dee_relay.Http.Steady.{serve-IsSteady}
use dee_relay.Tests.QueueData.{program, small, letter, open_grant, digest, read_receipt}

-- The tag of the secret "k".
abbrev bobs_tag : String
bobs_tag = "deechat.queue-tag.v1|k#"

abbrev mailbox : QueueStore.Store
mailbox =
    run (QueueStore.new_store small "e1")
      ((20, posts (letter "m1" "bob" bobs_tag) "n1" open_grant) ∷ [])

abbrev limits : PrekeyPools.Limits
limits = record {
  max_per_recipient = pos 2;
  max_buckets = pos 3;
  published_ttl = pos 100;
  claim_burst = pos 1;
  claim_refill = pos 10;
}

abbrev server : Server
server = record {
  cfg = record {
    node_id = "n1";
    require_fetch_auth = true;
    mesh_secret = "pool";
    relay_poll_timeout = 25_000_000_000;
  };
  store = mailbox;
  presence = PresenceTable.new_store (pos 3) (pos 100);
  attachments = AttachmentTypes.new_relay (pos 1) (pos 8) (pos 64) (pos 2) (pos 100);
  prekeys = PrekeyPools.new_store_with_limits limits;
  gate = new_gate false;
  pool = new_pool "n1" ("http://b" ∷ []);
  started_at = 7;
}

abbrev held : MessageEnvelope
held = record (letter "m1" "bob" bobs_tag) { expires_at = 120 }

abbrev clock : ℕ → Time
clock n = 30

http_code : Unit {0}
unfolding program new_gate admit queue_grant queue_auth is_trusted_peer mesh_enabled parse_limit
    handle_get_messages handle_post_message handle_post_ack handle_get_acks handle_mesh_snapshot
    serve PresenceTable.new_store
http_code = tt

-- The owner reads its letter, and another secret reads nothing, as if there were no mail.
owner_reads :
    (handle_get_messages digest server clock "" ("k" ∷ []) "bob" none).1 ≡ messages (held ∷ [])
unfolding http_code
owner_reads = refl

stranger_reads : (handle_get_messages digest server clock "" ("x" ∷ []) "bob" none).1 ≡ messages []
unfolding http_code
stranger_reads = refl

bare_read :
    (handle_get_messages digest server clock "" [] "bob" none).1 ≡ refusal 401 "capability_required"
unfolding http_code
bare_read = refl

refused_ack :
    (handle_post_ack digest server clock "" ("x" ∷ []) (decoded (read_receipt "m1"))).1
    ≡ refusal 403 "ack_not_authorized"
unfolding http_code
refused_ack = refl

handle_get_messages-ReadsOwnMail_example :
    ReadsOwnMail digest
      ("k" ∷ [])
      30
      server
      "bob"
      (handle_get_messages digest server clock "" ("k" ∷ []) "bob" none)
handle_get_messages-ReadsOwnMail_example =
    handle_get_messages-ReadsOwnMail digest server clock "" ("k" ∷ []) "bob" none refl

handle_post_message-PostReply_example :
    PostReply server clock ""
      (decoded (letter "m2" "eve" "t"))
      (handle_post_message server clock "" (decoded (letter "m2" "eve" "t")))
handle_post_message-PostReply_example =
    handle_post_message-PostReply server clock "" (decoded (letter "m2" "eve" "t"))

not_bobs : "deechat.queue-tag.v1|x#" ≢ bobs_tag
unfolding string_discrete
not_bobs e = let same : false ≡ true = ap (λ t. t == bobs_tag) e in cc same

not-Presented : ¬ Presented digest bobs_tag ("x" ∷ [])
unfolding program
not-Presented (inl (named, same)) = not_bobs same
not-Presented (inr h) = h

handle_post_ack-IsTurnedDown_example :
    IsTurnedDown server
      (handle_post_ack digest server clock "" ("x" ∷ []) (decoded (read_receipt "m1")))
unfolding program
handle_post_ack-IsTurnedDown_example =
    handle_post_ack-IsTurnedDown digest server (read_receipt "m1")
      (record { tag = bobs_tag; records = 2 }) refl clock "" ("x" ∷ []) (λ e. cc) not-Presented

handle_mesh_snapshot-ServesPool_example :
    ServesPool server clock "pool" none
      (cursor 1)
      (handle_mesh_snapshot server clock "pool" (cursor 1) none)
handle_mesh_snapshot-ServesPool_example =
    handle_mesh_snapshot-ServesPool server clock "pool" none (cursor 1)

server-IsSteady : IsSteady server
unfolding PresenceTable.new_store dee_relay.Presence.Run.run dee_relay.Admission.Run.run
    dee_relay.Prekey.Run.run PrekeyPools.new_store_with_limits
server-IsSteady = record {
  store = run-Inv (QueueStore.new_store small "e1") _ (new_store-Inv small "e1");
  presence = run-new_store-InStep (pos 3) (pos 100) [];
  sessions = run-new_gate (λ text. none) (λ key text mark. false) false [] tt;
  prekeys = run-Every limits [];
  attachments = new_relay-IsRelay (pos 1) (pos 8) (pos 64) (pos 2) (pos 100);
}

abbrev proof : Redemption
proof = record { credential = "c"; nonce = "nonce"; signature = "s" }

abbrev idle_round : Round
idle_round = record { swept = 30; handed = 30; checked = 30; hung_up = true }

abbrev requests : List ((ℕ → Time) × Request)
requests =
    (clock, checks_health)
    ∷ (clock, challenges (some "nonce"))
    ∷ (clock, redeems (some proof) (some "token"))
    ∷ (clock, gets_messages "" ("k" ∷ []) "bob" none)
    ∷ (clock, posts_message "" (decoded (letter "m2" "eve" "t")))
    ∷ (clock, claims "" "tag" "")
    ∷ (clock, polls 2 "" (λ k. idle_round) none "bob" "cap")
    ∷ (clock, pulls "pool" (cursor 0) none)
    ∷ []

abbrev hex : ℕ → String
hex n = "1"

abbrev no_key : String → Option (List ℕ)
no_key text = none

abbrev no_proof : List ℕ → String → List ℕ → Bool
no_proof key text mark = false

requests-AreDrawn : AreDrawn digest hex no_key no_proof server requests
unfolding http_code handle handle_challenge challenge sweep_locked
requests-AreDrawn = (tt, (tt, (refl, (tt, (tt, (tt, (tt, (tt, tt))))))))

serve-IsSteady_example : IsSteady (serve digest hex no_key no_proof server requests)
serve-IsSteady_example =
    serve-IsSteady digest hex no_key no_proof server requests requests-AreDrawn server-IsSteady

-- A poll that looks every 200 milliseconds, for a transfer that never comes.
abbrev idle : ℕ → Round
idle k = record {
  swept = 30 + k * tick;
  handed = 30 + k * tick;
  checked = 30 + k * tick;
  hung_up = false;
}

abbrev idle-Ticks : Ticks idle 30
idle-Ticks = record { begins = omega arith; waits = λ k. omega arith }

-- A wait of 0 seconds answers at once, and one of more nanoseconds than 63 bits hold as well.
no_wait :
    (handle_get_attachment_chunks 1 server clock "" idle (some (pos 0)) "bob" "cap").1
    ≡ some (chunks [])
unfolding http_code handle_get_attachment_chunks AttachmentTypes.new_relay drain
no_wait = refl

long_wait :
    (handle_get_attachment_chunks 1 server clock "" idle (some (pos 10_000_000_000)) "bob" "cap").1
    ≡ some (chunks [])
unfolding http_code handle_get_attachment_chunks AttachmentTypes.new_relay drain
long_wait = refl

handle_get_attachment_chunks-IsAnswered_example :
    IsAnswered (handle_get_attachment_chunks 126 server clock "" idle none "bob" "cap")
handle_get_attachment_chunks-IsAnswered_example =
    handle_get_attachment_chunks-IsAnswered 126 server clock "" idle none "bob" "cap" idle-Ticks
      (omega arith)
