-- ===== src/Routes/Tests.antt =====
-- Paths of the program's own tests, and the theorems at some of them.
use nirn_proxy.Utf8.{valid_from, to_valid_utf8}
use nirn_proxy.Base64.{decode_std}
use nirn_proxy.Identity.{is_numeric_input}
use nirn_proxy.Routes.{
  get_optimistic_bucket_path, is_interaction_endpoint, major_parameter, metrics_path_from_bucket,
}
use nirn_proxy.Routes.Laws.{version_and_query_ignored}
use nirn_proxy.Utf8.{valid_from, to_valid_utf8}
use nirn_proxy.Base.{◌≡◌, refl, true, [], ◌∷◌, ◌++◌, codes, split, cut, parse_uint}

reactions :
    get_optimistic_bucket_path 0
      (codes "/api/v6/channels/872712139712913438/messages/872712150509047809/reactions/x")
      (codes "GET")
    ≡ codes "/channels/872712139712913438/messages/!/reactions/!/!"
unfolding get_optimistic_bucket_path cut split is_numeric_input
reactions = refl

interaction_token :
    get_optimistic_bucket_path 0
      (codes "/api/v10/webhooks/203039963636301824/aW50ZXJhY3Rpb246MTIzOmFi/messages/@original")
      (codes "POST")
    ≡ codes "/webhooks/203039963636301824/123/messages/@original"
unfolding get_optimistic_bucket_path cut split is_numeric_input decode_std
interaction_token = refl

-- A deleted message whose number does not fit 64 bits counts as new.
unreadable_message :
    get_optimistic_bucket_path 0
      (codes "/api/v9/channels/1/messages/99999999999999999999")
      (codes "DELETE")
    ≡ codes "/channels/1/messages/!10smsg"
unfolding get_optimistic_bucket_path cut split is_numeric_input parse_uint
unreadable_message = refl

-- The switch falls through from the guilds to the test for a callback.
guild_callback :
    get_optimistic_bucket_path 0 (codes "/api/v9/guilds/7/x/callback") (codes "GET")
    ≡ codes "/interactions/7/!/callback"
unfolding get_optimistic_bucket_path cut split is_numeric_input
guild_callback = refl

webhook_follow_up :
    is_interaction_endpoint (codes "/api/v10/webhooks/1/aW50ZXJhY3Rpb246MTIz") ≡ true
unfolding is_interaction_endpoint cut split is_numeric_input
webhook_follow_up = refl

metrics :
    metrics_path_from_bucket (codes "/channels/203039963636301824/messages/123")
    ≡ codes "/channels/!/messages/!"
unfolding metrics_path_from_bucket split is_numeric_input valid_from
metrics = refl

channel_parameter :
    major_parameter (λ n. []) (codes "/api/v9/channels/5/messages") ≡ codes "channels:5"
unfolding major_parameter cut split is_numeric_input
channel_parameter = refl

version_and_query_ignored_example :
    get_optimistic_bucket_path 0 (codes "/api/v9/gateway/bot") (codes "GET")
    ≡ get_optimistic_bucket_path 0 (codes "/api/v10/gateway/bot?x=1") (codes "GET")
unfolding is_numeric_input
version_and_query_ignored_example =
    version_and_query_ignored 0 (codes "GET") (codes "9") (codes "10") (codes "gateway/bot")
      (codes "x=1") refl refl
      (refl, (refl, (refl, (refl, (refl, (refl, (refl, (refl, (refl, (refl, (refl, tt)))))))))))

not_utf8 :
    metrics_path_from_bucket (codes "/a" ++ 0xFF ∷ 0xC3 ∷ b'/' ∷ 0xC3 ∷ 0xA9 ∷ [])
    ≡ codes "/a@/" ++ 0xC3 ∷ 0xA9 ∷ []
unfolding metrics_path_from_bucket split is_numeric_input valid_from to_valid_utf8
not_utf8 = refl
