-- ===== src/Http/Boxed.antt =====
-- The handlers of presence, purges and the snapshot keep the server sound.
use dee_relay.Base.{ℕ, Option, List, String, string_key, if_both, is_empty, ℤ, pos}
use dee_relay.Model.{Time}
use dee_relay.Queue.Ops.Lockstep.{purge_owner-Inv, snapshot_since-Inv}
use dee_relay.Presence.Invariant.{prune_locked-InStep}
use dee_relay.Presence.Run.{revoke-InStep}
use dee_relay.Presence.Lists.{query, snapshot, revocations_of}
use dee_relay.Http.Types.{Server, Body, decoded, too_large, late, malformed, parse_limit}
use dee_relay.Http.Boxes.{
  query_decoded, handle_presence_revoke, handle_profile_purge, Since, absent, unread, cursor,
  serve_page, serve_since,
}
use dee_relay.Http.Sound.{IsSteady, KeepsSteady, with_presence}

pub query_decoded-IsSteady :
    (s : Server) (now : Time) (body : Body (List String))
    → IsSteady s
    → IsSteady (query_decoded s now body).0
unfolding query_decoded query
query_decoded-IsSteady s now too_large v = v
query_decoded-IsSteady s now late v = v
query_decoded-IsSteady s now malformed v = v
query_decoded-IsSteady s now (decoded grants) v =
    with_presence v (prune_locked-InStep now v.presence)

pub handle_presence_revoke-IsSteady :
    (s : Server) (now : Time) (body : Body String)
    → IsSteady s
    → IsSteady (handle_presence_revoke s now body).0
unfolding handle_presence_revoke
handle_presence_revoke-IsSteady s now too_large v = v
handle_presence_revoke-IsSteady s now late v = v
handle_presence_revoke-IsSteady s now malformed v = v
handle_presence_revoke-IsSteady s now (decoded owner) v =
    if_both KeepsSteady (is_empty owner) v
      (with_presence v (revoke-InStep s.presence now owner v.presence))

pub handle_profile_purge-IsSteady :
    (s : Server) (now later : Time) (body : Body String)
    → IsSteady s
    → IsSteady (handle_profile_purge s now later body).0
unfolding handle_profile_purge
handle_profile_purge-IsSteady s now later too_large v = v
handle_profile_purge-IsSteady s now later late v = v
handle_profile_purge-IsSteady s now later malformed v = v
handle_profile_purge-IsSteady s now later (decoded hash) v =
    if_both KeepsSteady (is_empty hash) v (record {
      store = purge_owner-Inv now hash v.store;
      presence = revoke-InStep s.presence later hash v.presence;
      sessions = v.sessions;
      prekeys = v.prekeys;
      attachments = v.attachments;
    })

pub serve_page-IsSteady :
    (s : Server) (clock : ℕ → Time) (n : ℕ) (limit : Option ℤ)
    → IsSteady s
    → IsSteady (serve_page s clock n limit).0
unfolding serve_page snapshot revocations_of
serve_page-IsSteady s clock n limit v = record {
  store = snapshot_since-Inv (clock 0) n (pos (parse_limit limit 500)) v.store;
  presence = prune_locked-InStep (clock 2) (prune_locked-InStep (clock 1) v.presence);
  sessions = v.sessions;
  prekeys = v.prekeys;
  attachments = v.attachments;
}

pub serve_since-IsSteady :
    (s : Server) (clock : ℕ → Time) (since : Since) (limit : Option ℤ)
    → IsSteady s
    → IsSteady (serve_since s clock since limit).0
unfolding serve_since
serve_since-IsSteady s clock absent limit v = serve_page-IsSteady s clock 0 limit v
serve_since-IsSteady s clock unread limit v = v
serve_since-IsSteady s clock (cursor n) limit v = serve_page-IsSteady s clock n limit v
