-- ===== src/Queue/Auth/Proofs.antt =====
-- internal/queue/capability.go: what a permitted tag says about the secrets that were presented.
use dee_relay.Base.{
  ℕ, ◌+◌, ◌≤◌, ◌<◌, ◌≡◌, ◌≢◌, ◌⊎◌, ◌↔◌, Bool, true, List, [], ◌∷◌, String, string_key, arith,
  trim_space, is_empty→eq, not_empty→ne, ne→not_empty, length, nat_key,
}
use Prim.Native.String.{◌++◌}
use dee_relay.Queue.Auth.{
  Auth, tag_domain, tag_for_secret, max_capabilities, derive_tags, new_auth, any_tag, permits,
}

-- A tag stands in a list.
abbrev pub Holds : String → List String → Type 0
Holds tag [] = ⊥
Holds tag (t ∷ ts) = (t ≡ tag) ⊎ Holds tag ts

-- What entitles a caller to a record that carries a tag.
abbrev pub Entitled : Auth → String → Type 0
Entitled a tag =
    (a.trusted ≡ true) ⊎ ((tag ≡ "") × (a.allow_untagged ≡ true)) ⊎ ((tag ≢ "") × Holds tag a.tags)

any_tag_iff : (tags : List String) (tag : String) → (any_tag tags tag ≡ true) ↔ Holds tag tags
unfolding any_tag
any_tag_iff [] tag = ((λ h. cc), (λ h. elim h [ ]))
any_tag_iff (t ∷ ts) tag = let (to, from) = any_tag_iff ts tag in ground (arith, to, from)

-- A record is served to a trusted caller, to anybody where it has no tag and untagged reads are
-- allowed, and otherwise exactly to a caller with its tag.
pub permits_iff : (a : Auth) (tag : String) → (permits a tag ≡ true) ↔ Entitled a tag
unfolding permits
permits_iff a tag =
    let (to, from) = any_tag_iff a.tags tag in
    ground (arith, to, from, is_empty→eq tag, not_empty→ne tag, ne→not_empty tag)

-- One of the secrets, once trimmed, hashes to the tag.
abbrev pub Presented : (String → String) → String → List String → Type 0
Presented digest tag [] = ⊥
Presented digest tag (s ∷ ss) =
    ((trim_space s ≢ "") × (digest (tag_domain ++ trim_space s) ≡ tag)) ⊎ Presented digest tag ss

derive_tags-Presented :
    (digest : String → String) (n : ℕ) (secrets : List String) (tag : String)
    → Holds tag (derive_tags digest n secrets)
    → Presented digest tag secrets
unfolding derive_tags tag_for_secret
derive_tags-Presented digest n [] tag h = h
derive_tags-Presented digest n (s ∷ ss) tag h = ground (
  arith,
  not_empty→ne (trim_space s),
  derive_tags-Presented digest n ss tag,
  derive_tags-Presented digest (n + 1) ss tag,
)

-- The rest of the loop derives no more than what is left of the cap.
derive_tags-length :
    (digest : String → String) (n : ℕ) (secrets : List String)
    → n < max_capabilities
    → n + length (derive_tags digest n secrets) ≤ max_capabilities
unfolding derive_tags
derive_tags-length digest n [] h = omega arith
derive_tags-length digest n (s ∷ ss) h =
    ground (arith, derive_tags-length digest n ss, derive_tags-length digest (n + 1) ss)

-- A tagged record is served to a request only if one of the secrets that it presented hashes to
-- the tag, and no request is worth more than four tags.
pub new_auth-Presented :
    (digest : String → String) (secrets : List String) (allow_untagged : Bool) (tag : String)
    → tag ≢ ""
    → ((permits (new_auth digest secrets allow_untagged) tag ≡ true) → Presented digest tag secrets)
      × (length (new_auth digest secrets allow_untagged).tags ≤ 4)
unfolding new_auth permits
new_auth-Presented digest secrets allow_untagged tag h = (
  λ p.
      derive_tags-Presented digest 0 secrets tag
        ((any_tag_iff (derive_tags digest 0 secrets) tag).0 (ground (arith, ne→not_empty tag h))),
  omega (arith, derive_tags-length digest 0 secrets),
)
