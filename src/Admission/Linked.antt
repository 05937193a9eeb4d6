-- ===== src/Admission/Linked.antt =====
-- The lock-step between the session table and the tokens of each credential: a token stands in the list
-- of a credential exactly if the table holds it for that credential, and stands there once.
use dee_relay.Base.{
  ◌≡◌, ◌≢◌, sym, ap, subst, ◌∙◌, none, some, List, [], ◌∷◌, ◌++◌, inl, inr, String, string_key,
  ◌==◌, if◌then◌else◌, In, arith, string_discrete,
}
use dee_relay.Map.{Map, lookup, get_or, insert, remove, lookup-insert, lookup-remove}
use dee_relay.Admission.Sessions.{SessionEntry, put_tokens}
use dee_relay.Admission.Tokens.{
  IsOnce, IsWithout, In-append, In-append_last, In-append_cases, append-IsOnce,
}

pub record Linked (m : Map String SessionEntry) (owns : String → List String) : Type 0 where
  pub listed :
      (c t : String)
      → In t (owns c)
      → (e : SessionEntry) × (lookup t m ≡ some e) × (e.credential_id ≡ c)
  pub held : (t : String) (e : SessionEntry) → lookup t m ≡ some e → In t (owns e.credential_id)
  pub once : (c : String) → IsOnce (owns c)

pub Linked-congr :
    {m : Map String SessionEntry} (owns others : String → List String)
    → ((c : String) → owns c ≡ others c)
    → Linked m owns
    → Linked m others
Linked-congr owns others same v = record {
  listed = λ c t i. v.listed c t (subst (In t) (sym (same c)) i);
  held = λ t e h. subst (In t) (same e.credential_id) (v.held t e h);
  once = λ c. subst IsOnce (same c) (v.once c);
}

-- One credential's list replaced.
abbrev pub owns_at : String → List String → (String → List String) → String → List String
owns_at credential tokens owns c = if credential == c then tokens else owns c

module _ {m : Map String SessionEntry} {owns : String → List String} (v : Linked m owns)
    (credential token : String) (rest : List String)
    (owned : (e : SessionEntry) → lookup token m ≡ some e → e.credential_id ≡ credential)
    (w : IsWithout token (owns credential) rest) where
  -- The token leaves the table and its list.
  pub remove-Linked : Linked (remove token m) (owns_at credential rest owns)
  remove-Linked = record {
    listed = λ c t i. elim (string_discrete credential c) [
      | yes same ↦
          let (old, ne) = w.fewer t (ground arith) in
          let (e, found, mine) = v.listed credential t old in
          (e, ground (arith, lookup-remove token t m), cc (mine, same))
      | no apart ↦
          let (e, found, mine) = v.listed c t (ground arith) in
          let ne : t ≢ token = λ (p : t ≡ token).
            apart (sym (owned e (subst (λ k. lookup k m ≡ some e) p found)) ∙ mine) in
          (e, ground (arith, lookup-remove token t m), mine)
    ];
    held = λ t e h.
        let ne : t ≢ token = λ (p : t ≡ token). ground (arith, lookup-remove token t m) in
        let found : lookup t m ≡ some e = ground (arith, lookup-remove token t m) in
        ground (arith, v.held t e found, w.others t);
    once = λ c. ground (arith, v.once c, w.once);
  }

pub get_or-put_tokens :
    (credential c : String) (tokens : List String) (m : Map String (List String))
    → get_or [] c (put_tokens credential tokens m)
      ≡ owns_at credential tokens (λ k. get_or [] k m) c
unfolding put_tokens get_or
get_or-put_tokens credential c [] m = ground (arith, lookup-remove credential c m)
get_or-put_tokens credential c (t ∷ tokens) m =
    ground (arith, lookup-insert credential c (t ∷ tokens) m)

module _ {m : Map String SessionEntry} {owns : String → List String} (v : Linked m owns)
    (token : String) (entry : SessionEntry) (fresh : lookup token m ≡ none) where
  unowned : (c : String) → ¬ In token (owns c)
  unowned c i = let (e, found, mine) = v.listed c token i in cc (found, fresh)

  old_entry :
      (c t : String)
      → In t (owns c)
      → (e : SessionEntry) × (lookup t (insert token entry m) ≡ some e) × (e.credential_id ≡ c)
  old_entry c t i =
      let ne : token ≢ t = λ (p : token ≡ t). unowned c (subst (λ k. In k (owns c)) (sym p) i) in
      let (e, found, mine) = v.listed c t i in
      (e, ground (arith, lookup-insert token t entry m), mine)

  -- A token that the table does not hold goes in with its entry.
  pub insert-Linked :
      Linked
        (insert token entry m)
        (owns_at entry.credential_id (owns entry.credential_id ++ (token ∷ [])) owns)
  insert-Linked = record {
    listed = λ c t i. elim (string_discrete entry.credential_id c) [
      | no apart ↦ old_entry c t (ground arith)
      | yes same ↦ elim (In-append_cases t token (owns entry.credential_id) (ground arith)) [
        | inl j ↦ old_entry c t (subst (λ k. In t (owns k)) same j)
        | inr p ↦ (entry, ground (arith, lookup-insert token t entry m), same)
      ]
    ];
    held = λ t e h. elim (string_discrete token t) [
      | yes p ↦
          let mine : entry ≡ e = ground (arith, lookup-insert token t entry m) in
          let there : In t (owns entry.credential_id ++ (token ∷ [])) =
            subst (λ k. In k (owns entry.credential_id ++ (token ∷ []))) p
              (In-append_last token (owns entry.credential_id)) in
          let own : entry.credential_id ≡ e.credential_id = ap (λ x. x.credential_id) mine in
          ground (arith, there, own)
      | no apart ↦
          let found : lookup t m ≡ some e = ground (arith, lookup-insert token t entry m) in
          let old = v.held t e found in
          elim (string_discrete entry.credential_id e.credential_id) [
            | yes same ↦ ground (
              arith,
              In-append t token (owns entry.credential_id)
                  (subst (λ k. In t (owns k)) (sym same) old),
            )
            | no other ↦ ground (arith, old)
          ]
    ];
    once = λ c. ground (
      arith,
      v.once c,
      append-IsOnce token (owns entry.credential_id) (v.once entry.credential_id)
          (unowned entry.credential_id),
    );
  }
