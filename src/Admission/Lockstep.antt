-- ===== src/Admission/Lockstep.antt =====
-- The sessions' invariant and its upkeep: the link between the two tables and the three bounds.
use dee_relay.Base.{
  ◌≤◌, ◌≡◌, sym, not, none, some, List, [], ◌∷◌, String, string_key, length, All, arith, if_both,
}
use dee_relay.Map.{Map, lookup, get_or, remove, lookup-remove, Distinct, Distinct-remove}
use dee_relay.Map.Count.{length-remove}
use dee_relay.Model.{Time, after}
use dee_relay.Admission.Sessions.{
  Sessions, SessionEntry, tokens_without, drop_locked, sweep_nonces, sweep_sessions, sweep_locked,
  max_nonces, max_sessions, max_sessions_per_credential,
}
use dee_relay.Admission.Tokens.{tokens_without-IsWithout, length-tokens_without}
use dee_relay.Admission.Linked.{Linked, Linked-congr, owns_at, remove-Linked, get_or-put_tokens}

abbrev pub tokens_of : Sessions → String → List String
tokens_of s credential = get_or [] credential s.by_credential

pub record InStep (s : Sessions) : Type 0 where
  pub distinct_nonces : Distinct s.nonces
  pub distinct_sessions : Distinct s.sessions
  pub linked : Linked s.sessions (tokens_of s)
  pub few_nonces : length s.nonces ≤ max_nonces
  pub few_sessions : length s.sessions ≤ max_sessions
  pub share : (c : String) → length (tokens_of s c) ≤ max_sessions_per_credential

pub drop_locked-InStep :
    (s : Sessions) (token credential : String)
    → ((e : SessionEntry) → lookup token s.sessions ≡ some e → e.credential_id ≡ credential)
    → InStep s
    → InStep (drop_locked s token credential)
unfolding drop_locked
drop_locked-InStep s token credential owned v =
    let rest = tokens_without token (tokens_of s credential) in
    record {
      distinct_nonces = v.distinct_nonces;
      distinct_sessions = Distinct-remove token s.sessions v.distinct_sessions;
      linked =
          Linked-congr (owns_at credential rest (tokens_of s))
            (tokens_of (drop_locked s token credential))
            (λ c. sym (get_or-put_tokens credential c rest s.by_credential))
            (remove-Linked v.linked credential token rest owned
              (tokens_without-IsWithout token (tokens_of s credential) (v.linked.once credential)));
      few_nonces = v.few_nonces;
      few_sessions =
          omega (arith, v.few_sessions, length-remove token s.sessions v.distinct_sessions);
      share = λ c. ground (
        arith,
        v.share c,
        v.share credential,
        get_or-put_tokens credential c rest s.by_credential,
        length-tokens_without token (tokens_of s credential),
      );
    }

-- Every entry of a list of entries is the table's, where the table still has its token.
abbrev Current : Map String SessionEntry → Map String SessionEntry → Type 0
Current entries m =
    All (λ e. (x : SessionEntry) → lookup e.0 m ≡ some x → x.credential_id ≡ e.1.credential_id)
      entries

Current-remove :
    (token : String) (entries m : Map String SessionEntry)
    → Current entries m
    → Current entries (remove token m)
Current-remove token [] m c = tt
Current-remove token ((t, e) ∷ entries) m c =
    (λ x h. c.0 x (ground (arith, lookup-remove token t m)), Current-remove token entries m c.1)

Current-cons :
    (t : String) (e : SessionEntry) (entries m : Map String SessionEntry)
    → lookup t entries ≡ none
    → Current entries m
    → Current entries ((t, e) ∷ m)
unfolding lookup
Current-cons t e [] m absent c = tt
Current-cons t e ((u, f) ∷ entries) m absent c =
    (λ x h. c.0 x (ground arith), Current-cons t e entries m (ground arith) c.1)

Current-self : (m : Map String SessionEntry) → Distinct m → Current m m
unfolding lookup
Current-self [] d = tt
Current-self ((t, e) ∷ m) d = (λ x h. ground arith, Current-cons t e m m d.0 (Current-self m d.1))

sweep_sessions-InStep :
    (now : Time) (entries : Map String SessionEntry) (s : Sessions)
    → Current entries s.sessions
    → InStep s
    → InStep (sweep_sessions now entries s)
unfolding sweep_sessions drop_locked
sweep_sessions-InStep now [] s c v = v
sweep_sessions-InStep now ((token, entry) ∷ entries) s c v =
    if_both (λ (t : Sessions). InStep (sweep_sessions now entries t))
      (not (after entry.expires_at now))
      (sweep_sessions-InStep now entries (drop_locked s token entry.credential_id)
        (Current-remove token entries s.sessions c.1)
        (drop_locked-InStep s token entry.credential_id c.0 v))
      (sweep_sessions-InStep now entries s c.1 v)

-- The nonces after their sweep.
record FewNonces (m : Map String Time) : Type 0 where
  distinct : Distinct m
  few : length m ≤ max_nonces

sweep_nonces-FewNonces :
    (now : Time) (entries m : Map String Time)
    → FewNonces m
    → FewNonces (sweep_nonces now entries m)
unfolding sweep_nonces
sweep_nonces-FewNonces now [] m v = v
sweep_nonces-FewNonces now ((nonce, expiry) ∷ entries) m v =
    if_both (λ (t : Map String Time). FewNonces (sweep_nonces now entries t))
      (not (after expiry now))
      (sweep_nonces-FewNonces now entries (remove nonce m) (record {
        distinct = Distinct-remove nonce m v.distinct;
        few = omega (arith, v.few, length-remove nonce m v.distinct);
      }))
      (sweep_nonces-FewNonces now entries m v)

pub nonces-InStep :
    (s : Sessions) (m : Map String Time)
    → Distinct m
    → length m ≤ max_nonces
    → InStep s
    → InStep (record s { nonces = m })
nonces-InStep s m d few v = record {
  distinct_nonces = d;
  distinct_sessions = v.distinct_sessions;
  linked = v.linked;
  few_nonces = few;
  few_sessions = v.few_sessions;
  share = v.share;
}

pub sweep_locked-InStep : (now : Time) (s : Sessions) → InStep s → InStep (sweep_locked now s)
unfolding sweep_locked
sweep_locked-InStep now s v =
    let swept = sweep_nonces now s.nonces s.nonces in
    let w =
      sweep_nonces-FewNonces now s.nonces s.nonces
        (record { distinct = v.distinct_nonces; few = v.few_nonces }) in
    sweep_sessions-InStep now s.sessions (record s { nonces = swept })
      (Current-self s.sessions v.distinct_sessions) (nonces-InStep s swept w.distinct w.few v)
