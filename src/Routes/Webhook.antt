-- ===== src/Routes/Webhook.antt =====
-- The bucket of a webhook, which is called by its ID and a secret token.
use nirn_proxy.Identity.{is_numeric_input}
use nirn_proxy.Routes.{major_webhooks, slash}
use nirn_proxy.Base.{◌≡◌, true, List, [], ◌∷◌, ◌++◌, Bytes, codes, split, before}

-- What a path begins with, before the part `webhooks`.
pub data Prefix : Type 0 where
  versioned : (version : Bytes) → is_numeric_input version ≡ true → Prefix
  unversioned : Prefix
  bare : Prefix

abbrev pub behind_prefix : Prefix → Bytes → Bytes
behind_prefix (versioned version h) s = codes "/api/v" ++ (version ++ slash ∷ s)
behind_prefix unversioned s = codes "/api/" ++ s
behind_prefix bare s = slash ∷ s

-- What follows the token: nothing, a query, or further parts, which a query may follow.
pub data Tail : Type 0 where
  ended : Tail
  queried : Bytes → Tail
  further : Bytes → Tail

abbrev pub tail_text : Tail → Bytes
tail_text ended = []
tail_text (queried query) = b'?' ∷ query
tail_text (further rest) = slash ∷ rest

abbrev more_parts : Tail → List Bytes
more_parts ended = []
more_parts (queried query) = []
more_parts (further rest) = split (before rest b'?') slash

abbrev pub webhook_path : Prefix → Bytes → Bytes → Tail → Bytes
webhook_path prefix id token tail =
    behind_prefix prefix (major_webhooks ++ slash ∷ (id ++ slash ∷ (token ++ tail_text tail)))
