-- ===== src/Tests/AdmissionRuns.antt =====
-- The gate at concrete inputs: a challenge, its redemption, a request that is let through, and a
-- replayed redemption.
use dee_relay.Base.{
  ◌^◌, ◌<◌, ◌≡◌, ◌≢◌, refl, none, some, true, [], ◌∷◌, List, String, Option, pos, Bool,
  string_discrete, ℕ_discrete, is_empty, is_space, string_key, ℕ, length, arith, inl, ◌==◌,
  if◌then◌else◌,
}
use dee_relay.Map.{lookup, insert, remove, get_or, has}
use dee_relay.Attachment.Bitmap.{zeros}
use dee_relay.Admission.Codes.{new_code, normalize_code}
use dee_relay.Admission.Retyped.{Retypes, ends, writes, groups, same, small, small_o, IsGrouping}
use dee_relay.Admission.Minted.{normalize_code-new_code}
use dee_relay.Admission.Types.{Terms, Credential}
use dee_relay.Admission.Sessions.{
  new_sessions, sweep_locked, challenge, open_session, admit_token, resolve, forget, drop_locked,
  spend_nonce_locked,
}
use dee_relay.Admission.Proof.{verify, verify_proof}
use dee_relay.Admission.Store.{new_store, find, replace, give_index}
use dee_relay.Admission.Gate.{
  Gate, Redemption, refusal, redeemed, handle_challenge, handle_redeem, redeem_proved,
  is_incomplete, admit, admitted, whole_seconds, answer_challenge, answer_open,
}
use dee_relay.Admission.Lockstep.{InStep}
use dee_relay.Admission.Run.{
  Call, challenges, redeems, admits, reloads, step, run, new_gate, run-new_gate,
}
use dee_relay.Admission.SingleUse.{nonce_once}
use dee_relay.Admission.Outcomes.{Admits, admit-Admits}
use dee_relay.Admission.Redeems.{IsRedeemed, handle_redeem-IsRedeemed}
use dee_relay.Admission.Indexes.{AreKnown, IsNumbered, reload, reload-IsNumbered}

gate_code : Unit {0}
unfolding step run new_gate new_store new_sessions sweep_locked challenge open_session admit_token
    resolve forget drop_locked spend_nonce_locked verify verify_proof find replace give_index
    handle_challenge handle_redeem redeem_proved is_incomplete admit whole_seconds answer_challenge
    answer_open lookup insert remove get_or has is_empty string_discrete ℕ_discrete zeros reload
gate_code = tt

-- Thirty-two bytes of key, sixty-four of signature; every signature is good.
decode : String → Option (List ℕ)
unfolding zeros string_discrete
decode text =
    if text == "key" then some (zeros 32) else if text == "signature" then some (zeros 64) else none

abbrev any_signature : List ℕ → String → List ℕ → Bool
any_signature key text signature = true

abbrev terms : Terms
terms = record {
  tier = "crew";
  not_after = 1_000_000_000_000_000;
  queue_slots = pos 90;
  retention_window = 0;
  attachment_bytes = pos 0;
  concurrent_transfers = pos 1;
  transit_bytes_per_day = pos 0;
  max_per_pair = pos 0;
}

abbrev circle : Credential
circle = record { id = "key"; terms = terms }

abbrev value : Redemption
value = record { credential = "key"; nonce = "n"; signature = "signature" }

abbrev exchange : List Call
exchange =
    reloads (circle ∷ [])
    ∷ challenges 10 (some "n")
    ∷ redeems 20 20 20 (some value) (some "token")
    ∷ admits 30 30 "token"
    ∷ []

abbrev opened_gate : Gate
opened_gate =
    run decode any_signature (new_gate true) (reloads (circle ∷ []) ∷ challenges 10 (some "n") ∷ [])

redeemed_once :
    (handle_redeem decode any_signature opened_gate 20 20 20 (some value) (some "token")).1
    ≡ redeemed "token" 900 terms
unfolding gate_code decode
redeemed_once = refl

let_through :
    (admit (run decode any_signature (new_gate true) exchange) 40 40 "token").1
    ≡ admitted (record { index = 1; id = "key"; terms = terms })
unfolding gate_code decode
let_through = refl

not_twice :
    (handle_redeem decode any_signature
      (run decode any_signature (new_gate true) exchange)
      40
      40
      40
      (some value)
      (some "other")).1
    ≡ refusal 403 "admission_refused"
unfolding gate_code decode
not_twice = refl

run-new_gate_example : InStep (run decode any_signature (new_gate true) exchange).sessions
unfolding gate_code decode
run-new_gate_example = run-new_gate decode any_signature true exchange (tt, (tt, (refl, (tt, tt))))

opened-InStep : InStep opened_gate.sessions
opened-InStep =
    run-new_gate decode any_signature true (reloads (circle ∷ []) ∷ challenges 10 (some "n") ∷ [])
      (tt, (tt, tt))

handle_redeem-IsRedeemed_example :
    IsRedeemed decode any_signature opened_gate
      (handle_redeem decode any_signature opened_gate 20 20 20 (some value) (some "token")).0
      20
      20
      20
      value
      (some "token")
      "token"
      terms
unfolding gate_code decode
handle_redeem-IsRedeemed_example =
    handle_redeem-IsRedeemed decode any_signature opened_gate 20 20 20 value (some "token") "token"
      900 terms refl opened-InStep refl

admit-Admits_example :
    Admits opened_gate 30 30 "token"
      (admit opened_gate 30 30 "token").0
      (admit opened_gate 30 30 "token").1
admit-Admits_example = admit-Admits opened_gate 30 30 "token" opened-InStep

nonce_once_example :
    let after_first =
      (handle_redeem decode any_signature opened_gate 20 20 20 (some value) (some "token")).0 in
    (handle_redeem decode any_signature
      (run decode any_signature after_first (challenges 25 (some "fresh") ∷ []))
      30
      30
      30
      (some value)
      (some "other")).1
    ≢ redeemed "other" 900 terms
unfolding gate_code decode
nonce_once_example =
    nonce_once decode any_signature "n" opened_gate 20 20 20 value (some "token") (zeros 64)
      (challenges 25 (some "fresh") ∷ []) 30 30 30 value (some "other") "other" 900 terms refl refl
      refl refl ((λ e. cc e), tt)

abbrev second : Credential
second = record { id = "second key"; terms = terms }

reload-IsNumbered_example :
    let s = reload new_store ((circle ∷ []) ∷ []) in
    let t = replace s (second ∷ circle ∷ []) in
    ((id : String) (i : ℕ) → lookup id s.index ≡ some i → lookup id t.index ≡ some i)
    × AreKnown t.credentials t
    × (length t.index < 2 ^ 32 → IsNumbered t.index t.next_index)
reload-IsNumbered_example = reload-IsNumbered ((circle ∷ []) ∷ []) (second ∷ circle ∷ [])

-- The bytes 0 and 1, and two ways to type their code, `000G`.
abbrev drawn : List ℕ
drawn = 0 ∷ 1 ∷ []

abbrev printed : List ℕ
printed = 48 ∷ 48 ∷ 48 ∷ 71 ∷ []

drawn_code : new_code (some drawn) ≡ some printed
unfolding new_code
drawn_code = refl

abbrev hyphen : IsGrouping 45
hyphen = record {
  no_digit = inl (omega arith);
  no_capital = inl (omega arith);
  no_small = inl (omega arith);
  no_dotless_i = λ e. omega arith;
  no_long_s = λ e. omega arith;
}

retyped : Retypes (111 ∷ 45 ∷ 48 ∷ 48 ∷ 103 ∷ []) printed
retyped = writes 111 48 _ _ small_o (
    groups 45 _ _ hyphen (
      writes 48 48 _ _ (same 48) (
        writes 48 48 _ _ (same 48)
          (writes 103 71 _ _ (small 71 (omega arith) (omega arith)) ends))))

plainly : Retypes printed printed
plainly =
    writes 48 48 _ _ (same 48)
      (writes 48 48 _ _ (same 48) (writes 48 48 _ _ (same 48) (writes 71 71 _ _ (same 71) ends)))

normalize_code-new_code_example :
    (normalize_code (111 ∷ 45 ∷ 48 ∷ 48 ∷ 103 ∷ []) ≡ printed) × (drawn ≡ drawn)
unfolding normalize_code ℕ_discrete is_space
normalize_code-new_code_example =
    normalize_code-new_code drawn drawn printed printed (111 ∷ 45 ∷ 48 ∷ 48 ∷ 103 ∷ []) printed refl
      (omega arith, (omega arith, tt)) (omega arith, (omega arith, tt)) drawn_code drawn_code
      retyped plainly refl
