-- ===== src/Http/Boxes.antt =====
-- internal/httpapi/server.go: the handlers of presence, prekeys and purges, and the page that a pool
-- member pulls. Each reading of the clock is an argument.
use dee_relay.Base.{
  ℕ, Bool, true, false, Option, none, some, List, [], String, if◌then◌else◌, is_empty, ℤ, pos,
}
use dee_relay.Model.{Time, PresenceHeartbeat, PrekeyPublish, PrekeyEntry}
use dee_relay.Admission.Types.{Grant}
use dee_relay.Queue.Purge.{purge_owner}
use dee_relay.Queue.Replicate.{snapshot_since}
use dee_relay.Presence.Beats.{heartbeat_with_grant}
use dee_relay.Presence.Revoke.{revoke}
use dee_relay.Presence.Lists.{query, snapshot, revocations_of}
use dee_relay.Prekey.Publish.{publish}
use dee_relay.Prekey.Claim.{claim, status}
use dee_relay.Http.Types.{
  Server, Body, decoded, Reply, refusal, accepted, statuses, removed, purged, published, claimed,
  available, page, decode_error, parse_limit,
}
use dee_relay.Http.Guards.{when_admitted, queue_subject, presence_grant, is_trusted_peer}

module _ (digest : String → String) (decimal : ℕ → String) where
  unfoldable pub heartbeat_decoded :
      Server → Time → Grant → List String → Body PresenceHeartbeat → Server × Reply
  unfolding presence_grant
  heartbeat_decoded s now grant secrets (decoded beat) =
      let (presence, seated) =
        heartbeat_with_grant s.presence now beat (presence_grant digest decimal grant secrets) in
      (
        record s { presence = presence },
        if seated then accepted else refusal 400 "invalid_presence",
      )
  heartbeat_decoded s now grant secrets body = (s, decode_error body "invalid_presence")

  unfoldable pub handle_presence_heartbeat :
      Server → (ℕ → Time) → String → List String → Body PresenceHeartbeat → Server × Reply
  unfolding when_admitted heartbeat_decoded
  handle_presence_heartbeat s clock token secrets body =
      when_admitted s clock token (λ t grant. heartbeat_decoded t (clock 2) grant secrets body)

unfoldable pub query_decoded : Server → Time → Body (List String) → Server × Reply
query_decoded s now (decoded grants) =
    let (presence, found) = query s.presence now grants in
    (record s { presence = presence }, statuses found)
query_decoded s now body = (s, decode_error body "invalid_query")

unfoldable pub handle_presence_query :
    Server → (ℕ → Time) → String → Body (List String) → Server × Reply
unfolding when_admitted query_decoded
handle_presence_query s clock token body =
    when_admitted s clock token (λ t grant. query_decoded t (clock 2) body)

unfoldable pub handle_presence_revoke : Server → Time → Body String → Server × Reply
handle_presence_revoke s now (decoded owner) =
    if is_empty owner
    then (s, refusal 400 "invalid_revoke")
    else let (presence, count) = revoke s.presence now owner in
      (record s { presence = presence }, removed count)
handle_presence_revoke s now body = (s, decode_error body "invalid_revoke")

unfoldable pub handle_profile_purge : Server → Time → Time → Body String → Server × Reply
handle_profile_purge s now later (decoded hash) =
    if is_empty hash
    then (s, refusal 400 "invalid_purge")
    else let (store, mailed, acked) = purge_owner s.store now hash in
      let (presence, count) = revoke s.presence later hash in
      (record s { store = store; presence = presence }, purged mailed acked count)
handle_profile_purge s now later body = (s, decode_error body "invalid_purge")

-- Neither entries nor a last resort.
unfoldable offers_nothing : List PrekeyEntry → Option PrekeyEntry → Bool
offers_nothing [] none = true
offers_nothing entries last_resort = false

unfoldable pub is_empty_publish : PrekeyPublish → Bool
unfolding offers_nothing
is_empty_publish value = offers_nothing value.entries value.last_resort

module _ (digest : String → String) where
  unfoldable pub publish_as : Server → Time → Time → String → Body PrekeyPublish → Server × Reply
  unfolding is_empty_publish
  publish_as s now later owner (decoded value) =
      if is_empty_publish value
      then (s, refusal 400 "invalid_prekey_publish")
      else let (filled, added, fits) = publish s.prekeys now owner value in
        let (counted, unused) = status filled later owner value.device_key in
        if fits
        then (record s { prekeys = counted }, published added unused)
        else (record s { prekeys = filled }, refusal 429 "prekey_store_full")
  publish_as s now later owner body = (s, decode_error body "invalid_prekey_publish")

  unfoldable pub with_subject : Server → List String → (String → Server × Reply) → Server × Reply
  unfolding queue_subject
  with_subject s secrets rest = elim (queue_subject digest secrets) [
    | none ↦ (s, refusal 401 "capability_required")
    | some owner ↦ rest owner
  ]

  unfoldable pub handle_publish_prekeys :
      Server → (ℕ → Time) → String → List String → Body PrekeyPublish → Server × Reply
  unfolding when_admitted with_subject publish_as
  handle_publish_prekeys s clock token secrets body =
      when_admitted s clock token
        (λ t grant. with_subject t secrets (λ owner. publish_as t (clock 2) (clock 3) owner body))

  unfoldable pub status_as : Server → Time → String → String → Server × Reply
  status_as s now device owner =
      let (prekeys, unused) = status s.prekeys now owner device in
      (record s { prekeys = prekeys }, available unused)

  unfoldable pub handle_prekey_status :
      Server → (ℕ → Time) → String → List String → String → Server × Reply
  unfolding when_admitted with_subject status_as
  handle_prekey_status s clock token secrets device =
      when_admitted s clock token (λ t grant. with_subject t secrets (status_as t (clock 2) device))

unfoldable pub claim_admitted : Server → Time → String → String → Server × Reply
claim_admitted s now tag device =
    if is_empty tag
    then (s, refusal 400 "missing_tag")
    else let (prekeys, entry) = claim s.prekeys now tag device in
      elim entry [
        | none ↦ (record s { prekeys = prekeys }, refusal 404 "prekey_pool_drained")
        | some value ↦ (record s { prekeys = prekeys }, claimed value)
      ]

unfoldable pub handle_claim_prekey : Server → (ℕ → Time) → String → String → String → Server × Reply
unfolding when_admitted claim_admitted
handle_claim_prekey s clock token tag device =
    when_admitted s clock token (λ t grant. claim_admitted t (clock 2) tag device)

-- The cursor of the query as ParseUint reads it: absent, no cursor, or a number.
pub data Since : Type 0 where
  absent unread : Since
  cursor : ℕ → Since

unfoldable pub serve_page : Server → (ℕ → Time) → ℕ → Option ℤ → Server × Reply
unfolding parse_limit
serve_page s clock since limit =
    let (store, payload) = snapshot_since s.store (clock 0) since (pos (parse_limit limit 500)) in
    let (seen, beats) = snapshot s.presence (clock 1) in
    let (presence, tombstones) = revocations_of seen (clock 2) in
    (
      record s { store = store; presence = presence },
      page (record {
        payload = payload;
        node_id = s.cfg.node_id;
        presence = beats;
        presence_revocations = tombstones;
      }),
    )

-- `parseSince`, and the page from there.
unfoldable pub serve_since : Server → (ℕ → Time) → Since → Option ℤ → Server × Reply
unfolding serve_page
serve_since s clock absent limit = serve_page s clock 0 limit
serve_since s clock unread limit = (s, refusal 400 "invalid_since")
serve_since s clock (cursor n) limit = serve_page s clock n limit

unfoldable pub handle_mesh_snapshot :
    Server → (ℕ → Time) → String → Since → Option ℤ → Server × Reply
unfolding is_trusted_peer serve_since
handle_mesh_snapshot s clock presented since limit =
    if is_trusted_peer s.cfg presented
    then serve_since s clock since limit
    else (s, refusal 403 "untrusted_peer")
