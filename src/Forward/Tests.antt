-- ===== src/Forward/Tests.antt =====
-- A request that another proxy has passed on.
use nirn_proxy.Forward.{Header, Out, rewrite_to_discord, preserve_forwarding_headers}
use nirn_proxy.Base.{◌≡◌, refl, [], ◌∷◌, nat_eq, bytes_eq, get, put, codes}

abbrev received : Header
received =
    (codes "X-Forwarded-For", codes "1.2.3.4" ∷ [])
    ∷ (codes "User-Agent", codes "bot" ∷ [])
    ∷ (codes "X-Nirn-Hop", codes "0" ∷ [])
    ∷ []

abbrev out : Out
out = record { target = []; header = (codes "User-Agent", codes "bot" ∷ []) ∷ [] }

forwarded : rewrite_to_discord received out ≡ record {
  target = codes "https://discord.com";
  header =
      (codes "User-Agent", codes "bot" ∷ []) ∷ (codes "X-Forwarded-For", codes "1.2.3.4" ∷ []) ∷ [];
}
unfolding rewrite_to_discord preserve_forwarding_headers put get
forwarded = refl
