-- ===== src/Forward.antt =====
-- What a request is changed to before it is sent on (internal/proxy/transport.go): the `Rewrite` of the
-- two reverse proxies of `initReverseProxies`, and `preserveForwardingHeaders`. The names of headers
-- are those that Go makes canonical. Of `SetURL` there is the scheme with the host.
pub mod Laws
mod Tests
use nirn_proxy.Base.{
  ℕ, Bool, Option, none, some, List, [], ◌∷◌, ◌++◌, if◌then◌else◌, count, ◌==◌, nat_eq, bytes_eq,
  get, put, Bytes, codes,
}

abbrev pub Header : Type 0
Header = List (Bytes × List Bytes)

-- `proxyRequest.Out`
pub record Out : Type 0 where
  pub target : Bytes
  pub header : Header

-- A header that was there is copied.
abbrev pub copy_found : Bytes → Option (List Bytes) → Header → Header
copy_found name none header = header
copy_found name (some values) header = put header name values

pub copy_all : List Bytes → Header → Header → Header
copy_all [] received header = header
copy_all (name ∷ names) received header =
    copy_all names received (copy_found name (get received name) header)

abbrev pub forwarding_names : List Bytes
forwarding_names =
    codes "Forwarded"
    ∷ codes "X-Forwarded-For"
    ∷ codes "X-Forwarded-Host"
    ∷ codes "X-Forwarded-Proto"
    ∷ []

abbrev first_value : Option (List Bytes) → Bytes
first_value none = []
first_value (some []) = []
first_value (some (value ∷ values)) = value

abbrev pub user_agent : Bytes
user_agent = codes "User-Agent"

abbrev pub default_agent : List Bytes
default_agent = codes "DiscordBot (https://github.com/Melonly-Moderation/nirn-proxy, dev)" ∷ []

-- `Get`, the first value.
abbrev pub no_agent : Header → Bool
no_agent received = first_value (get received user_agent) == []

-- `preserveForwardingHeaders`
unfoldable pub preserve_forwarding_headers : Header → Header → Header
unfolding copy_all
preserve_forwarding_headers received header =
    let copied = copy_all forwarding_names received header in
    if no_agent received then put copied user_agent default_agent else copied

-- The `Rewrite` of `discordProxy`.
unfoldable pub rewrite_to_discord : Header → Out → Out
unfolding preserve_forwarding_headers
rewrite_to_discord received out = record {
  target = codes "https://discord.com";
  header = preserve_forwarding_headers received out.header;
}

abbrev pub hop_name : Bytes
hop_name = codes "X-Nirn-Hop"

-- The `Rewrite` of `peerProxy`, for the address of a node and the count of hops.
unfoldable pub rewrite_to_peer : (ℕ → Bytes) → Bytes → ℕ → Header → Out → Out
unfolding preserve_forwarding_headers
rewrite_to_peer itoa address hop received out = record {
  target = codes "https://" ++ address;
  header = put (preserve_forwarding_headers received out.header) hop_name (itoa hop ∷ []);
}
