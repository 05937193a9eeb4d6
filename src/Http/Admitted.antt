-- ===== src/Http/Admitted.antt =====
-- What holds of a handler behind the gate: it holds where the request is turned away and where its rest
-- runs.
use dee_relay.Base.{
  ℕ, ◌≤◌, subst, if_both, is_empty, ◌≡◌, ◌⊎◌, inl, inr, refl, some, List, [], ◌∷◌, String,
  Option-cases, arith, not,
}
use dee_relay.Model.{Time}
use dee_relay.Admission.Types.{
  Grant, Result, ok, err, unknown_credential, expired_credential, bad_proof, gate_busy, no_session,
}
use dee_relay.Admission.Sessions.{resolve}
use dee_relay.Admission.Store.{find}
use dee_relay.Admission.Gate.{
  Gate, admit_found, admit_resolved, admit, Verdict, admitted, turned_away,
}
use dee_relay.Queue.Auth.{Auth, new_auth}
use dee_relay.Http.Types.{Config, Server, Reply, refusal}
use dee_relay.Http.Guards.{when_admitted, queue_auth}
use dee_relay.Http.Mail.{with_auth}

pub Verdict-cases :
    (v : Verdict)
    → ((grant : Grant) × (v ≡ admitted grant))
      ⊎ ((status : ℕ) × (code : String) × (v ≡ turned_away status code))
Verdict-cases (admitted grant) = inl (grant, refl)
Verdict-cases (turned_away status code) = inr (status, code, refl)

-- The gate turns a request away with a status of the client's fault.
abbrev IsFault : Verdict → Type 0
IsFault (admitted grant) = Unit
IsFault (turned_away status code) = 400 ≤ status

abbrev Faults : Gate × Verdict → Type 0
Faults x = IsFault x.1

admit_found-IsFault :
    (g : Gate) (credential : String) (r : Result Grant) → Faults (admit_found g credential r)
unfolding admit_found
admit_found-IsFault g credential (ok grant) = tt
admit_found-IsFault g credential (err unknown_credential) = omega arith
admit_found-IsFault g credential (err expired_credential) = omega arith
admit_found-IsFault g credential (err bad_proof) = omega arith
admit_found-IsFault g credential (err gate_busy) = omega arith
admit_found-IsFault g credential (err no_session) = omega arith

admit_resolved-IsFault :
    (g : Gate) (looked : Time) (r : Result String) → Faults (admit_resolved g looked r)
unfolding admit_resolved
admit_resolved-IsFault g looked (ok credential) =
    admit_found-IsFault g credential (find g.admissions credential looked)
admit_resolved-IsFault g looked (err e) = omega arith

admit-IsFault :
    (g : Gate) (resolved looked : Time) (token : String) → Faults (admit g resolved looked token)
unfolding admit
admit-IsFault g resolved looked token =
    if_both Faults (is_empty token) (if_both Faults g.require_admission (omega arith) tt) (
      admit_resolved-IsFault (record g { sessions = (resolve g.sessions resolved token).0 }) looked
        (resolve g.sessions resolved token).1)

pub when_admitted-lift :
    (P : Server × Reply → Type 0) (s : Server) (clock : ℕ → Time) (token : String)
    (rest : Server → Grant → Server × Reply)
    → ((grant : Grant)
        → (admit s.gate (clock 0) (clock 1) token).1 ≡ admitted grant
        → P (rest (record s { gate = (admit s.gate (clock 0) (clock 1) token).0 }) grant))
    → ((status : ℕ) (code : String)
        → 400 ≤ status
        → P (record s { gate = (admit s.gate (clock 0) (clock 1) token).0 }, refusal status code))
    → P (when_admitted s clock token rest)
unfolding when_admitted
when_admitted-lift P s clock token rest through away =
    elim (Verdict-cases (admit s.gate (clock 0) (clock 1) token).1) [
      | inl (grant, e) ↦ rw (when_admitted, e) (through grant e)
      | inr (status, code, e) ↦
          rw (when_admitted, e)
            (away status code (subst IsFault e (admit-IsFault s.gate (clock 0) (clock 1) token)))
    ]

pub with_auth-lift :
    (digest : String → String) (P : Server × Reply → Type 0) (s : Server) (secrets : List String)
    (rest : Auth → Server × Reply)
    → P (s, refusal 401 "capability_required")
    → ((auth : Auth) → queue_auth digest s.cfg secrets ≡ some auth → P (rest auth))
    → P (with_auth digest s secrets rest)
unfolding with_auth
with_auth-lift digest P s secrets rest bare through =
    elim (Option-cases (queue_auth digest s.cfg secrets)) [
      | inl e ↦ rw (with_auth, e) bare
      | inr (auth, e) ↦ rw (with_auth, e) (through auth e)
    ]

pub queue_auth-new_auth :
    (digest : String → String) (cfg : Config) (secrets : List String) (auth : Auth)
    → queue_auth digest cfg secrets ≡ some auth
    → auth ≡ new_auth digest secrets (not cfg.require_fetch_auth)
unfolding queue_auth
queue_auth-new_auth digest cfg [] auth e = ground arith
queue_auth-new_auth digest cfg (secret ∷ rest) auth e = ground arith
