-- ===== src/Admission/Opening.antt =====
-- Open keeps the sessions' invariant, the trim of a credential's oldest tokens included.
use dee_relay.Base.{
  ◌+◌, ◌≤◌, ◌<◌, ◌≡◌, refl, sym, subst, none, List, [], ◌∷◌, ◌++◌, String, string_key, ltb, length,
  In, arith, Bool-cases, inl, inr,
}
use dee_relay.Map.{
  Map, lookup, get_or, insert, remove, lookup-insert, Distinct, Distinct-insert, Distinct-remove,
}
use dee_relay.Map.Count.{length-insert, length-remove}
use dee_relay.Model.{Time}
use dee_relay.Admission.Sessions.{
  Sessions, SessionEntry, trim_tokens, admit_token, max_sessions, max_sessions_per_credential,
  session_ttl,
}
use dee_relay.Admission.Tokens.{IsOnce, IsWithout, tail-IsWithout}
use dee_relay.Admission.Linked.{Linked, Linked-congr, owns_at, remove-Linked, insert-Linked}
use dee_relay.Admission.Lockstep.{InStep, tokens_of}

get_or-insert :
    (credential c : String) (tokens : List String) (m : Map String (List String))
    → get_or [] c (insert credential tokens m) ≡ owns_at credential tokens (λ k. get_or [] k m) c
unfolding get_or
get_or-insert credential c tokens m = ground (arith, lookup-insert credential c tokens m)

pub owns_at_same :
    (credential : String) (tokens : List String) (owns : String → List String)
    → owns_at credential tokens owns credential ≡ tokens
owns_at_same credential tokens owns = ground arith

pub owns_at_twice :
    (credential c : String) (tokens rest : List String) (owns : String → List String)
    → owns_at credential rest (owns_at credential tokens owns) c ≡ owns_at credential rest owns c
owns_at_twice credential c tokens rest owns = ground arith

-- What the table and the list of one credential are after the oldest tokens went.
record IsTrimmed (m : Map String SessionEntry) (credential : String) (owns : String → List String)
    (r : Map String SessionEntry × List String) : Type 0 where
  distinct : Distinct r.0
  linked : Linked r.0 (owns_at credential r.1 owns)
  fewer : length r.0 ≤ length m
  share : length r.1 ≤ max_sessions_per_credential

trim_tokens-IsTrimmed :
    (credential : String) (owns : String → List String) (tokens : List String)
    (m : Map String SessionEntry)
    → Distinct m
    → Linked m (owns_at credential tokens owns)
    → IsTrimmed m credential owns (trim_tokens tokens m)
unfolding trim_tokens
trim_tokens-IsTrimmed credential owns [] m d v = record {
  distinct = d;
  linked = v;
  fewer = omega arith;
  share = omega arith;
}
trim_tokens-IsTrimmed credential owns (token ∷ rest) m d v =
    elim (Bool-cases (ltb max_sessions_per_credential (length (token ∷ rest)))) [
      | inr fits ↦
          rw fits (record { distinct = d; linked = v; fewer = omega arith; share = ground arith })
      | inl over ↦
          let same = owns_at_same credential (token ∷ rest) owns in
          let once = subst IsOnce same (v.once credential) in
          let (e, found, mine) =
            v.listed credential token (subst (λ l. In token l) (sym same) (inl refl)) in
          let smaller =
            Linked-congr (owns_at credential rest (owns_at credential (token ∷ rest) owns))
              (owns_at credential rest owns)
              (λ c. owns_at_twice credential c (token ∷ rest) rest owns)
              (remove-Linked v credential token rest (λ f h. ground (arith, found, mine))
                (subst (λ l. IsWithout token l rest) (sym same)
                  (tail-IsWithout token rest once))) in
          let w =
            trim_tokens-IsTrimmed credential owns rest (remove token m) (Distinct-remove token m d)
              smaller in
          rw over (record {
            distinct = w.distinct;
            linked = w.linked;
            fewer = omega (arith, w.fewer, length-remove token m d);
            share = w.share;
          })
    ]

pub admit_token-InStep :
    (s : Sessions) (now : Time) (credential token : String)
    → lookup token s.sessions ≡ none
    → length s.sessions < max_sessions
    → InStep s
    → InStep (admit_token s now credential token)
unfolding admit_token
admit_token-InStep s now credential token fresh room v =
    let entry : SessionEntry = record {
      credential_id = credential;
      expires_at = now + session_ttl;
    } in
    let m = insert token entry s.sessions in
    let added = tokens_of s credential ++ (token ∷ []) in
    let w =
      trim_tokens-IsTrimmed credential (tokens_of s) added m
        (Distinct-insert token entry s.sessions v.distinct_sessions)
        (insert-Linked v.linked token entry fresh) in
    let left = (trim_tokens added m).1 in
    record {
      distinct_nonces = v.distinct_nonces;
      distinct_sessions = w.distinct;
      linked =
          Linked-congr (owns_at credential left (tokens_of s))
            (tokens_of (admit_token s now credential token))
            (λ c. sym (get_or-insert credential c left s.by_credential)) w.linked;
      few_nonces = v.few_nonces;
      few_sessions = omega (arith, w.fewer, room, length-insert token entry s.sessions);
      share =
          λ c. ground (arith, v.share c, w.share, get_or-insert credential c left s.by_credential);
    }
