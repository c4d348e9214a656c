-- ===== src/Transport/Laws.antt =====
-- The transport for Discord that is built.
use nirn_proxy.Transport.{HttpTransport, tuned, outbound, without_h2, new_http_transport, restrict}
use nirn_proxy.Base.{
  ◌≤◌, ◌≡◌, refl, sym, inl, inr, Bool, true, false, not, ◌||◌, Option, none, some, List, [], ◌∷◌,
  arith, Option-cases, is_some, any, ◌==◌, nat_eq, bytes_eq, Bytes, codes, Loaded, ◌>>=◌, Ensures,
  Ensures-bind, or_error-some, ok, err,
}

-- The other side can be offered HTTP/2: by the protocols, or by the names in the TLS handshake.
abbrev pub offers_h2 : Bool → Option (List Bytes) → Bool
offers_h2 http2 none = http2
offers_h2 http2 (some protos) = http2 || any (λ p. p == codes "h2") protos

abbrev pub is_empty : Bytes → Bool
is_empty [] = true
is_empty (c ∷ s) = false

-- Where connections start from.
abbrev pub local_addr : HttpTransport → Option Bytes
local_addr t = elim t.dialer [ none ↦ none | some d ↦ some d.local_addr ]

module _ (resolve : Bytes → Option Bytes) where
  abbrev pub wanted : HttpTransport → Bytes → Option Bytes
  wanted default [] = local_addr default
  wanted default (c ∷ ip) = resolve (c ∷ ip)

  pub record Built (default : HttpTransport) (outbound_ip : Bytes) (disable_http2 : Bool)
      (t : HttpTransport) : Type 0 where
    pub no_h2 : disable_http2 ≡ true → offers_h2 t.http2 t.tls_next_protos ≡ false
    pub h2 : disable_http2 ≡ false → t.http2 ≡ true
    pub from : local_addr t ≡ wanted default outbound_ip
    pub bounded : (t.max_conns_per_host ≡ 1024) × (t.max_idle_conns_per_host ≤ t.max_conns_per_host)

  abbrev pub is_ok : Loaded HttpTransport → Bool
  is_ok (ok t) = true
  is_ok (err e) = false

  record Before (default : HttpTransport) (ip : Bytes) (d : Bool) (t : HttpTransport) : Type 0 where
    pub protocols : t.http2 ≡ not d
    pub start : local_addr t ≡ wanted default ip
    pub most : t.max_conns_per_host ≡ 1024
    pub most_idle : t.max_idle_conns_per_host ≡ 1024

  outbound-Before :
      (default : HttpTransport) (ip : Bytes) (d : Bool)
      → Ensures (Before default ip d) (outbound resolve ip (tuned d default))
  unfolding outbound tuned Ensures
  outbound-Before default [] d = record {
    protocols = refl;
    start = refl;
    most = refl;
    most_idle = refl;
  }
  outbound-Before default (c ∷ ip) d =
      Ensures-bind _ (Before default (c ∷ ip) d) _ _ (or_error-some _ (resolve (c ∷ ip)))
        λ address e. record { protocols = refl; start = sym e; most = refl; most_idle = refl }

  quiet_h2 :
      (d http2 : Bool) (protos : Option (List Bytes))
      → http2 ≡ not d
      → d ≡ true
      → offers_h2 http2 (restrict d protos) ≡ false
  quiet_h2 true http2 none h e = h
  quiet_h2 true http2 (some protos) h e = rw h refl
  quiet_h2 false http2 protos h e = cc

  without_h2-Built :
      (default : HttpTransport) (ip : Bytes) (d : Bool) (t : HttpTransport)
      → Before default ip d t
      → Built default ip d (without_h2 resolve d t)
  unfolding without_h2
  without_h2-Built default ip d t b = record {
    no_h2 = quiet_h2 d t.http2 t.tls_next_protos b.protocols;
    h2 = λ e. ground (arith, b.protocols);
    from = b.start;
    bounded = (b.most, omega (arith, b.most, b.most_idle));
  }

  built-ok :
      (default : HttpTransport) (ip : Bytes) (d : Bool)
      → is_ok (new_http_transport resolve default ip d) ≡ (is_empty ip || is_some (resolve ip))
  unfolding new_http_transport outbound ◌>>=◌
  built-ok default [] d = refl
  built-ok default (c ∷ ip) d = elim (Option-cases (resolve (c ∷ ip))) [
    | inl e ↦ rw e refl
    | inr (address, e) ↦ rw e refl
  ]

  -- A transport for Discord is built exactly if no outbound address is given or it resolves. Its
  -- connections start from that address, if one is given, and to one host there are at most 1024.
  -- With HTTP/2 disabled it is offered in no way, even if the transport that this one is made from
  -- does so.
  new_http_transport-Built :
      (default : HttpTransport) (outbound_ip : Bytes) (disable_http2 : Bool)
      → (is_ok (new_http_transport resolve default outbound_ip disable_http2)
          ≡ (is_empty outbound_ip || is_some (resolve outbound_ip)))
        × Ensures
            (Built default outbound_ip disable_http2)
            (new_http_transport resolve default outbound_ip disable_http2)
  unfolding new_http_transport Ensures
  new_http_transport-Built default ip d = (
    built-ok default ip d,
    Ensures-bind _ (Built default ip d) _ _ (outbound-Before default ip d)
        (without_h2-Built default ip d),
  )
