-- ===== src/Queue/Auth.antt =====
-- internal/queue/capability.go: what one request proved about the queues it may touch.
-- SHA-256 and base64 are a parameter, `digest`, from a text to the text of its hash.
pub mod Proofs
use dee_relay.Base.{
  ℕ, ◌+◌, Bool, true, false, ◌||◌, List, [], ◌∷◌, String, string_key, nat_key, ◌==◌, if◌then◌else◌,
  trim_space, is_empty,
}
use Prim.Native.String.{◌++◌}

abbrev pub tag_domain : String
tag_domain = "deechat.queue-tag.v1|"

abbrev pub max_capabilities : ℕ
max_capabilities = 4

unfoldable pub tag_for_secret : (String → String) → String → String
unfolding is_empty
tag_for_secret digest secret = if is_empty secret then "" else digest (tag_domain ++ secret)

pub record Auth : Type 0 where
  pub tags : List String
  pub allow_untagged : Bool
  pub trusted : Bool

unfoldable pub trusted_auth : Auth
trusted_auth = record { tags = []; allow_untagged = true; trusted = true }

-- The loop of `NewAuth`, with `n` tags derived so far.
unfoldable pub derive_tags : (String → String) → ℕ → List String → List String
derive_tags digest n [] = []
derive_tags digest n (secret ∷ rest) =
    let s = trim_space secret in
    let skipped = derive_tags digest n rest in
    let later = derive_tags digest (n + 1) rest in
    if is_empty s
    then skipped
    else (tag_for_secret digest s ∷ (if n + 1 == max_capabilities then [] else later))

unfoldable pub new_auth : (String → String) → List String → Bool → Auth
unfolding derive_tags
new_auth digest secrets allow_untagged = record {
  tags = derive_tags digest 0 secrets;
  allow_untagged = allow_untagged;
  trusted = false;
}

unfoldable pub authorizes_untagged : Auth → Bool
authorizes_untagged a = a.allow_untagged

first_tag : List String → String
first_tag [] = ""
first_tag (t ∷ ts) = t

unfoldable pub subject : Auth → String
unfolding first_tag
subject a = first_tag a.tags

-- The loop of `permits`; a comparison in constant time is an equality of bytes.
unfoldable pub any_tag : List String → String → Bool
any_tag [] tag = false
any_tag (candidate ∷ rest) tag = candidate == tag || any_tag rest tag

unfoldable pub permits : Auth → String → Bool
unfolding any_tag is_empty
permits a tag =
    if a.trusted then true else if is_empty tag then a.allow_untagged else any_tag a.tags tag
