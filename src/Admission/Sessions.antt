-- ===== src/Admission/Sessions.antt =====
-- internal/admission/session.go: the nonces that prove a credential and the tokens that stand for it.
-- What randomToken answers, a token of crypto/rand or nothing where that fails, is an argument.
use dee_relay.Base.{
  ℕ, ◌+◌, ◌*◌, Bool, false, not, Option, none, some, List, [], ◌∷◌, ◌++◌, String, string_key,
  nat_key, ◌==◌, ltb, leb, if◌then◌else◌, length, is_empty,
}
use dee_relay.Map.{Map, lookup, get_or, insert, remove}
use dee_relay.Model.{Time, Duration, after}
use dee_relay.Admission.Types.{gate_busy, no_session, Result, ok, err}

abbrev pub nonce_ttl : Duration
nonce_ttl = 30 * 1_000_000_000

abbrev pub session_ttl : Duration
session_ttl = 15 * 60_000_000_000

abbrev pub max_nonces : ℕ
max_nonces = 8192

abbrev pub max_sessions_per_credential : ℕ
max_sessions_per_credential = 128

abbrev pub max_sessions : ℕ
max_sessions = 16384

pub record SessionEntry : Type 0 where
  pub credential_id : String
  pub expires_at : Time

pub record Sessions : Type 0 where
  pub nonces : Map String Time
  pub sessions : Map String SessionEntry
  pub by_credential : Map String (List String)

unfoldable pub new_sessions : Sessions
new_sessions = record { nonces = []; sessions = []; by_credential = [] }

-- The tokens of a list other than one, which the loop of `dropLocked` keeps.
unfoldable pub tokens_without : String → List String → List String
tokens_without token [] = []
tokens_without token (candidate ∷ rest) =
    let remaining = tokens_without token rest in
    if candidate == token then remaining else candidate ∷ remaining

-- The end of `dropLocked`: a credential without tokens leaves the map.
unfoldable pub put_tokens :
    String → List String → Map String (List String) → Map String (List String)
put_tokens credential_id [] m = remove credential_id m
put_tokens credential_id (token ∷ rest) m = insert credential_id (token ∷ rest) m

unfoldable pub drop_locked : Sessions → String → String → Sessions
unfolding tokens_without put_tokens
drop_locked s token credential_id = record s {
  sessions = remove token s.sessions;
  by_credential =
      put_tokens credential_id (tokens_without token (get_or [] credential_id s.by_credential))
        s.by_credential;
}

-- The two loops of `sweepLocked`.
unfoldable pub sweep_nonces : Time → Map String Time → Map String Time → Map String Time
sweep_nonces now [] m = m
sweep_nonces now ((nonce, expiry) ∷ entries) m =
    sweep_nonces now entries (if not (after expiry now) then remove nonce m else m)

unfoldable pub sweep_sessions : Time → Map String SessionEntry → Sessions → Sessions
unfolding drop_locked
sweep_sessions now [] s = s
sweep_sessions now ((token, entry) ∷ entries) s =
    sweep_sessions now entries
      (if not (after entry.expires_at now) then drop_locked s token entry.credential_id else s)

unfoldable pub sweep_locked : Time → Sessions → Sessions
unfolding sweep_nonces sweep_sessions
sweep_locked now s =
    let s' : Sessions = record s { nonces = sweep_nonces now s.nonces s.nonces } in
    sweep_sessions now s'.sessions s'

unfoldable pub spend_nonce_locked : Sessions → String → Time → Sessions × Bool
spend_nonce_locked s nonce now = elim (lookup nonce s.nonces) [
  | none ↦ (s, false)
  | some expiry ↦ (record s { nonces = remove nonce s.nonces }, after expiry now)
]

-- The table after the sweep, with a nonce where there is room and randomness.
unfoldable pub issue_nonce : Sessions → Time → Option String → Sessions × Result (String × Duration)
issue_nonce s now random =
    if leb max_nonces (length s.nonces) then (s, err gate_busy) else elim random [
      | none ↦ (s, err gate_busy)
      | some nonce ↦
          (record s { nonces = insert nonce (now + nonce_ttl) s.nonces }, ok (nonce, nonce_ttl))
    ]

unfoldable pub challenge : Sessions → Time → Option String → Sessions × Result (String × Duration)
unfolding sweep_locked issue_nonce
challenge s now random = issue_nonce (sweep_locked now s) now random

-- `for len(tokens) > maxSessionsPerCredential`: the oldest tokens go.
unfoldable pub trim_tokens :
    List String → Map String SessionEntry → Map String SessionEntry × List String
trim_tokens [] m = (m, [])
trim_tokens (token ∷ rest) m =
    let trimmed = trim_tokens rest (remove token m) in
    if ltb max_sessions_per_credential (length (token ∷ rest)) then trimmed else (m, token ∷ rest)

unfoldable pub admit_token : Sessions → Time → String → String → Sessions
unfolding trim_tokens
admit_token s now credential_id token =
    let entry : SessionEntry = record {
      credential_id = credential_id;
      expires_at = now + session_ttl;
    } in
    let (sessions, tokens) =
      trim_tokens (get_or [] credential_id s.by_credential ++ (token ∷ []))
        (insert token entry s.sessions) in
    record s { sessions = sessions; by_credential = insert credential_id tokens s.by_credential }

unfoldable pub open_swept :
    Sessions → Time → String → Option String → Sessions × Result (String × Duration)
unfolding admit_token
open_swept s now credential_id random =
    if leb max_sessions (length s.sessions) then (s, err gate_busy) else elim random [
      | none ↦ (s, err gate_busy)
      | some token ↦ (admit_token s now credential_id token, ok (token, session_ttl))
    ]

unfoldable pub open_session :
    Sessions → Time → String → Option String → Sessions × Result (String × Duration)
unfolding sweep_locked open_swept
open_session s now credential_id random = open_swept (sweep_locked now s) now credential_id random

unfoldable pub resolve : Sessions → Time → String → Sessions × Result String
unfolding drop_locked
resolve s now token =
    if is_empty token then (s, err no_session) else elim (lookup token s.sessions) [
      | none ↦ (s, err no_session)
      | some entry ↦
          if not (after entry.expires_at now)
          then (drop_locked s token entry.credential_id, err no_session)
          else (s, ok entry.credential_id)
    ]

unfoldable pub delete_all : List String → Map String SessionEntry → Map String SessionEntry
delete_all [] m = m
delete_all (token ∷ rest) m = delete_all rest (remove token m)

unfoldable pub forget : Sessions → String → Sessions
unfolding delete_all
forget s credential_id = record s {
  sessions = delete_all (get_or [] credential_id s.by_credential) s.sessions;
  by_credential = remove credential_id s.by_credential;
}

unfoldable pub counts : Sessions → ℕ × ℕ
counts s = (length s.nonces, length s.sessions)
