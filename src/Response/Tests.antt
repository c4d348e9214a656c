-- ===== src/Response/Tests.antt =====
-- A response 429 for the second of two buckets, which names the bucket of the first.
use nirn_proxy.Client
use nirn_proxy.Client.{World, find}
use nirn_proxy.Identity.{bot}
use nirn_proxy.Pacer
use nirn_proxy.Registry.{State, unknown}
use nirn_proxy.Response.{RateLimitInfo, Clock, observe_response, parse_remaining}
use nirn_proxy.Response.Block.{limited_blocks}
use nirn_proxy.Base.{
  ℕ, ◌+◌, ◌≤◌, ◌≡◌, refl, true, false, none, some, [], ◌∷◌, pos, nat_eq, bytes_eq, get, codes,
  parse_uint,
}

plus_accepted : parse_remaining (codes "+5") ≡ some 5
unfolding parse_remaining parse_uint
plus_accepted = refl

too_large : parse_remaining (codes "2147483648") ≡ none
unfolding parse_remaining parse_uint
too_large = refl

abbrev world : World
world = record {
  slots = record { limit = pos 9; used = pos 2 };
  cells = λ p. record { active = pos 1; last_used = 0; ready_at = 5 };
  fresh = 2;
}

abbrev state : State
state = record {
  client = record { buckets = (10, 0) ∷ (11, 1) ∷ []; aliases = []; alias_limit = false };
  pacer = record { interval = 20; next = 0; blocked_until = 0 };
  validity = unknown;
  active = pos 1;
  last_used = 0;
}

abbrev info : RateLimitInfo
info = record {
  bucket = codes "b";
  scope = codes "user";
  remaining = pos 0;
  reset_after = 900;
  global = false;
}

abbrev clock : Clock
clock = record { pacing = 100; blocking = 101 }

limited_blocks_example :
    let r =
      observe_response clock bot false false 429 (info, true) 11 (codes "guilds:1") 1 state world in
    (q : ℕ) × (find r.0.client 11 ≡ some q)
    × (101 + Pacer.minimum_retry_delay ≤ (r.1.cells q).ready_at)
unfolding find Client.canonical get
limited_blocks_example =
    limited_blocks clock bot false false (info, true) 11 (codes "guilds:1") 1 state world refl refl
