-- ===== src/Http/Sound.antt =====
-- What it is for the server to be sound, and that the gate in front of a handler keeps it so.
use dee_relay.Base.{ℕ, false, none, String, string_key}
use dee_relay.Model.{Time}
use dee_relay.Admission.Types.{Grant}
use dee_relay.Admission.Lockstep as Lockstep
use dee_relay.Admission.Gate.{Gate}
use dee_relay.Admission.Run.{admit-Steady}
use dee_relay.Queue.Store as QueueStore
use dee_relay.Presence.Table as PresenceTable
use dee_relay.Queue.Invariant.{Inv}
use dee_relay.Presence.Invariant.{InStep}
use dee_relay.Http.Types.{Server, Reply}
use dee_relay.Http.Guards.{when_admitted}
use dee_relay.Http.Admitted.{when_admitted-lift}
use dee_relay.Prekey.Pools as PrekeyPools
use dee_relay.Prekey.Run.{IsStocked}
use dee_relay.Attachment.Types as AttachmentTypes
use dee_relay.Attachment.Invariant.{IsRelay}

-- The stores are sound: the queue and the presence table with their indexes and counters, the session tables,
-- the pools of prekeys within their cap, and the attachment relay within its caps.
pub record IsSteady (s : Server) : Type 0 where
  pub store : Inv s.store
  pub presence : InStep s.presence
  pub sessions : Lockstep.InStep s.gate.sessions
  pub prekeys : IsStocked s.prekeys
  pub attachments : IsRelay s.attachments

abbrev pub KeepsSteady : Server × Reply → Type 0
KeepsSteady x = IsSteady x.0

-- A new value for one of the stores.
module _ {s : Server} (v : IsSteady s) where
  pub with_store : {q : QueueStore.Store} → Inv q → IsSteady (record s { store = q })
  with_store h = record {
    store = h;
    presence = v.presence;
    sessions = v.sessions;
    prekeys = v.prekeys;
    attachments = v.attachments;
  }

  pub with_presence : {p : PresenceTable.Store} → InStep p → IsSteady (record s { presence = p })
  with_presence h = record {
    store = v.store;
    presence = h;
    sessions = v.sessions;
    prekeys = v.prekeys;
    attachments = v.attachments;
  }

  pub with_gate : {g : Gate} → Lockstep.InStep g.sessions → IsSteady (record s { gate = g })
  with_gate h = record {
    store = v.store;
    presence = v.presence;
    sessions = h;
    prekeys = v.prekeys;
    attachments = v.attachments;
  }

  pub with_prekeys : {p : PrekeyPools.Store} → IsStocked p → IsSteady (record s { prekeys = p })
  with_prekeys h = record {
    store = v.store;
    presence = v.presence;
    sessions = v.sessions;
    prekeys = h;
    attachments = v.attachments;
  }

  pub with_attachments :
      {r : AttachmentTypes.Relay} → IsRelay r → IsSteady (record s { attachments = r })
  with_attachments h = record {
    store = v.store;
    presence = v.presence;
    sessions = v.sessions;
    prekeys = v.prekeys;
    attachments = h;
  }

pub when_admitted-IsSteady :
    (s : Server) (clock : ℕ → Time) (token : String) (rest : Server → Grant → Server × Reply)
    → ((t : Server) (grant : Grant) → IsSteady t → IsSteady (rest t grant).0)
    → IsSteady s
    → IsSteady (when_admitted s clock token rest).0
when_admitted-IsSteady s clock token rest h v =
    let kept = with_gate v (
      admit-Steady (λ text. none) (λ key text mark. false) s.gate (clock 0) (clock 1) token
        v.sessions) in
    when_admitted-lift KeepsSteady s clock token rest (λ grant e. h _ grant kept)
      (λ status code fault. kept)
