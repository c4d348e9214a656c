-- ===== src/Logs/Tests.antt =====
-- Texts with tokens.
use nirn_proxy.Logs.{
  run, secret_at, match_at, scan, redact_log_secrets, text, error, Entry, redact_value, fire,
  redact_field,
}
use nirn_proxy.Logs.Hidden.{of_webhook, keyword, token_redacted}
use nirn_proxy.Base.{◌≡◌, refl, [], ◌∷◌, ◌++◌, nat_eq, bytes_eq, get, put, Bytes, codes}

two_tokens :
    redact_log_secrets (codes "a/webhooks/12/secret?x=/interactions/34/other/callback")
    ≡ codes "a/webhooks/12/:token?x=/interactions/34/:token/callback"
unfolding redact_log_secrets scan match_at secret_at run
two_tokens = refl

no_token :
    redact_log_secrets (codes "/webhooks/12 /webhooks//x") ≡ codes "/webhooks/12 /webhooks//x"
unfolding redact_log_secrets scan match_at secret_at run
no_token = refl

abbrev url : Bytes
url = codes "Post https://discord.com/api"

token_redacted_example :
    redact_log_secrets
      (url ++ (keyword of_webhook ++ (codes "12" ++ b'/' ∷ (codes "secret" ++ codes "?wait=1"))))
    ≡ url
      ++ (keyword of_webhook
          ++ (codes "12" ++ b'/' ∷ (codes ":token" ++ redact_log_secrets (codes "?wait=1"))))
token_redacted_example =
    token_redacted of_webhook url (codes "12") (codes "secret") (codes "?wait=1") refl refl
      (refl, (refl, tt)) refl (refl, (refl, (refl, (refl, (refl, (refl, tt)))))) refl

abbrev entry : Entry
entry = record {
  message = codes "failed";
  level = 2;
  fields =
      (codes "error", error (codes "/webhooks/12/secret"))
      ∷ (codes "node", text (codes "/webhooks/12/secret"))
      ∷ [];
}

fired :
    (fire entry).0.fields
    ≡ (codes "error", text (codes "/webhooks/12/:token"))
      ∷ (codes "node", text (codes "/webhooks/12/secret"))
      ∷ []
unfolding fire redact_field redact_value redact_log_secrets scan match_at secret_at run put get
fired = refl
