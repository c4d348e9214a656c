-- ===== src/Registry/Tests.antt =====
-- A registry for two clients, one of each group, where the bearer's was last used at time 3.
use nirn_proxy.Base.{ℕ, refl, false, none, [], ◌∷◌, arith, pos, nat_eq, bytes_eq, get}
use nirn_proxy.Client.{World}
use nirn_proxy.Identity.{Identity, bot}
use nirn_proxy.Registry.{Registry, State, client, valid}
use nirn_proxy.Registry.Evict.{total}
use nirn_proxy.Registry.Capacity.{Fits}
use nirn_proxy.Registry.Outcome.{Result}
use nirn_proxy.Registry.Serve.{client-Fits, client-Result}

abbrev world : World
world = record {
  slots = record { limit = pos 10; used = pos 0 };
  cells = λ p. record { active = pos 0; last_used = 0; ready_at = 0 };
  fresh = 0;
}

abbrev state : ℕ → State
state last_used = record {
  client = record { buckets = []; aliases = []; alias_limit = false };
  pacer = record { interval = 20; next = 0; blocked_until = 0 };
  validity = valid;
  active = pos 0;
  last_used = last_used;
}

abbrev registry : Registry
registry = record {
  bots = ((1 ∷ []), state 5) ∷ [];
  bearers = ((2 ∷ []), state 3) ∷ [];
  no_auth_state = none;
  closed = false;
  max_bearer_clients = 1;
  max_client_states = 2;
}

abbrev newcomer : Identity
newcomer = record { kind = bot; key = 4 ∷ []; bot_id = []; label = [] }

registry_fits : Fits registry
registry_fits = record {
  distinct_bots = (unfold get in refl, tt);
  distinct_bearers = (unfold get in refl, tt);
  bearers_fit = omega arith;
  all_fit = unfold total in omega arith;
}

client-Fits_example : Fits (client 9 50 newcomer registry world).0
client-Fits_example = client-Fits 9 50 newcomer world registry registry_fits

client-Result_example :
    Result 700_000_000_000 50 newcomer world registry
      (client 700_000_000_000 50 newcomer registry world)
client-Result_example =
    client-Result 700_000_000_000 50 newcomer world registry (λ e. cc) refl registry_fits
