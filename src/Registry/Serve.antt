-- ===== src/Registry/Serve.antt =====
-- `client`, closed or open, for each kind of identity.
use nirn_proxy.Base.{
  ℕ, ◌≡◌, refl, sym, ◌≢◌, inl, inr, Bool, true, false, Option, some, if◌then◌else◌, Option-cases,
  subst,
}
use nirn_proxy.Client.{World}
use nirn_proxy.Identity.{Identity, AuthType, bot, no_auth, bearer}
use nirn_proxy.Registry.{Registry, Error, client, anonymous_client, proxy_closed, by_kind}
use nirn_proxy.Registry.Evict.{total}
use nirn_proxy.Registry.Capacity.{Fits}
use nirn_proxy.Registry.Outcome.{Result, refused, served}
use nirn_proxy.Registry.Enroll.{known_client-Result}

Result-Fits :
    (now limit : ℕ) (identity : Identity) (w : World) (r : Registry)
    {x : Registry × World × Option Error}
    → Fits r
    → Result now limit identity w r x
    → Fits x.0
Result-Fits now limit identity w r f (refused crowded absent) = f
Result-Fits now limit identity w r f (served t v s origin grown) = grown.fits

-- The state for requests without a token is not counted, and there is one of it.
anonymous-Fits : (now : ℕ) (w : World) (r : Registry) → Fits r → Fits (anonymous_client now r w).0
unfolding anonymous_client total
anonymous-Fits now w r f = elim (Option-cases r.no_auth_state) [
  | inl e ↦ rw (e, anonymous_client) f
  | inr (s, e) ↦
      rw (e, anonymous_client)
        (record {
          distinct_bots = f.distinct_bots;
          distinct_bearers = f.distinct_bearers;
          bearers_fit = f.bearers_fit;
          all_fit = f.all_fit;
        })
]

by_kind-Fits :
    (kind : AuthType) (now limit : ℕ) (identity : Identity) (w : World) (r : Registry)
    → Fits r
    → Fits (by_kind kind now limit identity r w).0
by_kind-Fits no_auth now limit identity w r f = anonymous-Fits now w r f
by_kind-Fits bot now limit identity w r f =
    Result-Fits now limit identity w r f (known_client-Result now limit identity w r f)
by_kind-Fits bearer now limit identity w r f =
    Result-Fits now limit identity w r f (known_client-Result now limit identity w r f)

by_kind-Result :
    (kind : AuthType) (now limit : ℕ) (identity : Identity) (w : World) (r : Registry)
    → kind ≢ no_auth
    → Fits r
    → Result now limit identity w r (by_kind kind now limit identity r w)
by_kind-Result no_auth now limit identity w r token f = absurd (token refl)
by_kind-Result bot now limit identity w r token f = known_client-Result now limit identity w r f
by_kind-Result bearer now limit identity w r token f = known_client-Result now limit identity w r f

unless-Fits :
    (closed : Bool) (r : Registry) (w : World) (x : Registry × World × Option Error)
    → Fits r
    → Fits x.0
    → Fits (if closed then (r, w, some proxy_closed) else x).0
unless-Fits true r w x f g = f
unless-Fits false r w x f g = g

-- `client` keeps the number of bearer clients and of all clients within their limits, and each key
-- in a group once, whichever branch it takes.
pub client-Fits :
    (now limit : ℕ) (identity : Identity) (w : World) (r : Registry)
    → Fits r
    → Fits (client now limit identity r w).0
unfolding client
client-Fits now limit identity w r f =
    unless-Fits r.closed r w (by_kind identity.kind now limit identity r w) f
      (by_kind-Fits identity.kind now limit identity w r f)

-- For a token, while the proxy is open, `client` refuses only if the token has no state and there is no
-- place: for a bearer token the limit of bearer clients is reached and none of them is idle, or, for
-- any token, the limit of all clients is reached and none of all is idle. Then it changes nothing; else it keeps the clients
-- that are not idle, and begins a request on the state that the token had, or on a new one if it
-- had none. Keys stand once, and the limits hold, before and after.
pub client-Result :
    (now limit : ℕ) (identity : Identity) (w : World) (r : Registry)
    → identity.kind ≢ no_auth
    → r.closed ≡ false
    → Fits r
    → Result now limit identity w r (client now limit identity r w)
unfolding client
client-Result now limit identity w r token unclosed f =
    subst
      (λ b.
        Result now limit identity w r
          (if b then (r, w, some proxy_closed) else by_kind identity.kind now limit identity r w))
      (sym unclosed) (by_kind-Result identity.kind now limit identity w r token f)
