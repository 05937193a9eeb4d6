-- ===== src/Admission/Forgetting.antt =====
-- Forget keeps the sessions' invariant and leaves the credential no session.
use dee_relay.Base.{
  ◌≤◌, ◌≡◌, refl, sym, subst, ◌∙◌, some, List, [], ◌∷◌, String, string_key, length, In, arith, inl,
}
use dee_relay.Map.{Map, lookup, get_or, remove, lookup-remove, Distinct, Distinct-remove}
use dee_relay.Map.Count.{length-remove}
use dee_relay.Admission.Sessions.{Sessions, SessionEntry, delete_all, forget}
use dee_relay.Admission.Tokens.{IsOnce, IsWithout, tail-IsWithout}
use dee_relay.Admission.Linked.{Linked, Linked-congr, owns_at, remove-Linked}
use dee_relay.Admission.Lockstep.{InStep, tokens_of}
use dee_relay.Admission.Opening.{owns_at_same, owns_at_twice}

record IsCleared (m : Map String SessionEntry) (credential : String) (owns : String → List String)
    (r : Map String SessionEntry) : Type 0 where
  distinct : Distinct r
  linked : Linked r (owns_at credential [] owns)
  fewer : length r ≤ length m

delete_all-IsCleared :
    (credential : String) (owns : String → List String) (tokens : List String)
    (m : Map String SessionEntry)
    → Distinct m
    → Linked m (owns_at credential tokens owns)
    → IsCleared m credential owns (delete_all tokens m)
unfolding delete_all
delete_all-IsCleared credential owns [] m d v = record {
  distinct = d;
  linked = v;
  fewer = omega arith;
}
delete_all-IsCleared credential owns (token ∷ rest) m d v =
    let same = owns_at_same credential (token ∷ rest) owns in
    let once = subst IsOnce same (v.once credential) in
    let (e, found, mine) = v.listed credential token (subst (In token) (sym same) (inl refl)) in
    let smaller =
      Linked-congr (owns_at credential rest (owns_at credential (token ∷ rest) owns))
        (owns_at credential rest owns) (λ c. owns_at_twice credential c (token ∷ rest) rest owns)
        (remove-Linked v credential token rest (λ f h. ground (arith, found, mine))
          (subst (λ l. IsWithout token l rest) (sym same) (tail-IsWithout token rest once))) in
    let w =
      delete_all-IsCleared credential owns rest (remove token m) (Distinct-remove token m d)
        smaller in
    record {
      distinct = w.distinct;
      linked = w.linked;
      fewer = omega (arith, w.fewer, length-remove token m d);
    }

get_or-remove :
    (credential c : String) (m : Map String (List String))
    → get_or [] c (remove credential m) ≡ owns_at credential [] (λ k. get_or [] k m) c
unfolding get_or
get_or-remove credential c m = ground (arith, lookup-remove credential c m)

owns_at_own :
    (credential c : String) (owns : String → List String)
    → owns c ≡ owns_at credential (owns credential) owns c
owns_at_own credential c owns = ground arith

pub forget-InStep : (s : Sessions) (credential : String) → InStep s → InStep (forget s credential)
unfolding forget
forget-InStep s credential v =
    let w =
      delete_all-IsCleared credential (tokens_of s) (tokens_of s credential) s.sessions
        v.distinct_sessions
        (Linked-congr (tokens_of s) (owns_at credential (tokens_of s credential) (tokens_of s))
          (λ c. owns_at_own credential c (tokens_of s)) v.linked) in
    record {
      distinct_nonces = v.distinct_nonces;
      distinct_sessions = w.distinct;
      linked =
          Linked-congr (owns_at credential [] (tokens_of s)) (tokens_of (forget s credential))
            (λ c. sym (get_or-remove credential c s.by_credential)) w.linked;
      few_nonces = v.few_nonces;
      few_sessions = omega (arith, w.fewer, v.few_sessions);
      share = λ c. ground (arith, v.share c, get_or-remove credential c s.by_credential);
    }

-- No token stands for the credential any more.
pub forget_clears :
    (s : Sessions) (credential : String)
    → InStep s
    → (t : String) (e : SessionEntry) → lookup t (forget s credential).sessions ≡ some e
    → ¬ (e.credential_id ≡ credential)
unfolding forget
forget_clears s credential v t e h mine =
    let w = forget-InStep s credential v in
    let i : In t (tokens_of (forget s credential) credential) =
      subst (λ c. In t (tokens_of (forget s credential) c)) mine (w.linked.held t e h) in
    subst (In t)
      (get_or-remove credential credential s.by_credential
        ∙ owns_at_same credential [] (tokens_of s))
      i
