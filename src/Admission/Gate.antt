-- ===== src/Admission/Gate.antt =====
-- internal/httpapi/admission.go: the challenge exchange and the check that guards the queue and the
-- attachment endpoints. The JSON decoding of a request is done: nothing stands for one that fails.
use dee_relay.Base.{
  ℕ, ◌/◌, Bool, ◌||◌, Option, none, some, List, String, if◌then◌else◌, is_empty, pos,
}
use dee_relay.Model.{Time, Duration, zero_time}
use dee_relay.Admission.Types.{expired_credential, gate_busy, Result, ok, err, Terms, Grant}
use dee_relay.Admission.Sessions.{Sessions, challenge, open_session, resolve, forget}
use dee_relay.Admission.Proof.{verify_proof}
use dee_relay.Admission.Store.{Store, find}
use dee_relay.Queue.Types as QueueTypes
use dee_relay.Attachment.Types as AttachmentTypes

pub record Gate : Type 0 where
  pub admissions : Store
  pub sessions : Sessions
  pub require_admission : Bool

-- The body of a redemption.
pub record Redemption : Type 0 where
  pub credential : String
  pub nonce : String
  pub signature : String

-- What is written: a refusal is its status and its code.
pub data Reply : Type 0 where
  refusal : ℕ → String → Reply
  challenged : String → ℕ → Reply
  redeemed : String → ℕ → Terms → Reply

-- `int(ttl.Seconds())`
unfoldable pub whole_seconds : Duration → ℕ
whole_seconds ttl = ttl / 1_000_000_000

unfoldable pub answer_challenge : Result (String × Duration) → Reply
unfolding whole_seconds
answer_challenge (ok (nonce, ttl)) = challenged nonce (whole_seconds ttl)
answer_challenge (err e) = refusal 429 "admission_busy"

unfoldable pub handle_challenge : Gate → Time → Option String → Gate × Reply
unfolding answer_challenge
handle_challenge g now random =
    let (s, result) = challenge g.sessions now random in
    (record g { sessions = s }, answer_challenge result)

unfoldable pub answer_open : Terms → Result (String × Duration) → Reply
unfolding whole_seconds
answer_open terms (ok (token, ttl)) = redeemed token (whole_seconds ttl) terms
answer_open terms (err gate_busy) = refusal 429 "admission_busy"
answer_open terms (err e) = refusal 403 "admission_refused"

-- What follows a proof that holds: the look-up of the credential, and the new session.
unfoldable pub redeem_found : Gate → String → Time → Option String → Result Grant → Gate × Reply
unfolding answer_open
redeem_found g credential opened random (ok grant) =
    let (s, result) = open_session g.sessions opened credential random in
    (record g { sessions = s }, answer_open grant.terms result)
redeem_found g credential opened random (err expired_credential) =
    (record g { sessions = forget g.sessions credential }, refusal 403 "admission_expired")
redeem_found g credential opened random (err e) = (g, refusal 403 "admission_refused")

unfoldable pub redeem_proved :
    Gate → Redemption → Time → Time → Option String → Result (Unit {0}) → Gate × Reply
unfolding redeem_found
redeem_proved g value looked opened random (ok tt) =
    redeem_found g value.credential opened random (find g.admissions value.credential looked)
redeem_proved g value looked opened random (err e) = (g, refusal 403 "admission_refused")

unfoldable pub is_incomplete : Redemption → Bool
is_incomplete value = is_empty value.credential || is_empty value.nonce || is_empty value.signature

module _ (decode : String → Option (List ℕ))
    (ed25519_verify : List ℕ → String → List ℕ → Bool) where
  -- The clock is read for the proof, for the credential and for the session.
  unfoldable pub handle_redeem :
      Gate → Time → Time → Time → Option Redemption → Option String → Gate × Reply
  unfolding redeem_proved is_incomplete
  handle_redeem g proved looked opened none random = (g, refusal 400 "invalid_admission_proof")
  handle_redeem g proved looked opened (some value) random =
      if is_incomplete value
      then (g, refusal 400 "invalid_admission_proof")
      else elim (decode value.signature) [
        | none ↦ (g, refusal 400 "invalid_admission_proof")
        | some signature ↦
            let (s, result) =
              verify_proof decode ed25519_verify g.sessions proved value.credential value.nonce
                signature in
            redeem_proved (record g { sessions = s }) value looked opened random result
      ]

-- `admission.Grant{}`
abbrev pub no_grant : Grant
no_grant = record {
  index = 0;
  id = "";
  terms = record {
    tier = "";
    not_after = zero_time;
    queue_slots = pos 0;
    retention_window = 0;
    attachment_bytes = pos 0;
    concurrent_transfers = pos 0;
    transit_bytes_per_day = pos 0;
    max_per_pair = pos 0;
  };
}

-- What `admit` answers: the grant, or what it wrote.
pub data Verdict : Type 0 where
  admitted : Grant → Verdict
  turned_away : ℕ → String → Verdict

unfoldable pub admit_found : Gate → String → Result Grant → Gate × Verdict
admit_found g credential (ok grant) = (g, admitted grant)
admit_found g credential (err expired_credential) =
    (record g { sessions = forget g.sessions credential }, turned_away 403 "admission_expired")
admit_found g credential (err e) =
    (record g { sessions = forget g.sessions credential }, turned_away 403 "admission_refused")

unfoldable pub admit_resolved : Gate → Time → Result String → Gate × Verdict
unfolding admit_found
admit_resolved g looked (ok credential) =
    admit_found g credential (find g.admissions credential looked)
admit_resolved g looked (err e) = (g, turned_away 401 "admission_stale")

unfoldable pub admit : Gate → Time → Time → String → Gate × Verdict
unfolding admit_resolved
admit g resolved looked token =
    if is_empty token
    then (if g.require_admission
        then (g, turned_away 401 "admission_required")
        else (g, admitted no_grant))
    else let (s, result) = resolve g.sessions resolved token in
      admit_resolved (record g { sessions = s }) looked result

-- The terms handed down to the queue and to the attachment relay.
unfoldable pub queue_grant : Grant → QueueTypes.Grant
queue_grant grant = record {
  credential = grant.index;
  slots = grant.terms.queue_slots;
  max_per_pair = grant.terms.max_per_pair;
  retention = pos grant.terms.retention_window;
}

unfoldable pub attachment_grant : Grant → AttachmentTypes.Grant
attachment_grant grant = record {
  credential = grant.index;
  attachment_bytes = grant.terms.attachment_bytes;
  concurrent_transfers = grant.terms.concurrent_transfers;
  transit_bytes_per_day = grant.terms.transit_bytes_per_day;
}
