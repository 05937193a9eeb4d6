-- ===== src/Admission/Proof.antt =====
-- internal/admission/credential.go: Transcript and Verify; session.go: VerifyProof. base64 and Ed25519
-- are parameters: the bytes that a text decodes to, if any, and the check of a signature.
use dee_relay.Base.{
  ℕ, Bool, false, not, ◌||◌, Option, none, some, List, String, nat_key, ◌/=◌, if◌then◌else◌, length,
}
use Prim.Native.String.{◌++◌}
use dee_relay.Model.{Time}
use dee_relay.Admission.Types.{bad_proof, Result, ok, err}
use dee_relay.Admission.Sessions.{Sessions, spend_nonce_locked}

abbrev pub proof_domain : String
proof_domain = "deechat.admission-proof.v1|"

unfoldable pub transcript : String → String → String
transcript nonce credential_id = proof_domain ++ nonce ++ "|" ++ credential_id

module _ (decode : String → Option (List ℕ))
    (ed25519_verify : List ℕ → String → List ℕ → Bool) where
  unfoldable pub verify : String → String → List ℕ → Bool
  unfolding transcript
  verify credential_id nonce signature = elim (decode credential_id) [
    | none ↦ false
    | some key ↦
        if length key /= 32
        then false
        else if length signature /= 64
        then false
        else ed25519_verify key (transcript nonce credential_id) signature
  ]

  unfoldable pub verify_proof :
      Sessions → Time → String → String → List ℕ → Sessions × Result (Unit {0})
  unfolding spend_nonce_locked verify
  verify_proof s now credential_id nonce signature =
      let (s', spent) = spend_nonce_locked s nonce now in
      if not spent || not (verify credential_id nonce signature)
      then (s', err bad_proof)
      else (s', ok tt)
