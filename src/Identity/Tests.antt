-- ===== src/Identity/Tests.antt =====
-- Headers and what they are identified as, with a hash that keeps the text.
use nirn_proxy.Identity.{
  AuthType, identify, anonymous, bot_id_from_token, is_numeric_input, cut_blank,
}
use nirn_proxy.Base64.{decode_raw_std}
use nirn_proxy.Base.{◌≡◌, refl, Bytes, codes, cut, trim_space}

abbrev keep_text : Bytes → Bytes
keep_text s = s

basic_is_anonymous : identify keep_text (codes "basic dXNlcg==") ≡ anonymous
unfolding identify trim_space cut_blank
basic_is_anonymous = refl

-- The first part of a bot token is the bot's ID in base64.
bot_token_id : (identify keep_text (codes "Bot MTIz.x.y")).bot_id ≡ codes "123"
unfolding identify trim_space cut_blank bot_id_from_token is_numeric_input cut decode_raw_std
bot_token_id = refl

bare_token_is_bot : (identify keep_text (codes " MTIz.x.y ")).kind ≡ AuthType.bot
unfolding identify trim_space cut_blank
bare_token_is_bot = refl
