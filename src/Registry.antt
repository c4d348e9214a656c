-- ===== src/Registry.antt =====
-- The clients of a `Proxy` (internal/proxy/scheduler.go): `client`, `evictOldestIdle`,
-- `sweepClients` and `globalLimit`. Each runs under the clients' mutex. Go visits a map in an order
-- that it does not fix; here it is the order of the list, which decides between clients that were
-- last used at the same time.
pub mod Evict
pub mod Capacity
pub mod Admit
pub mod Outcome
pub mod Enroll
pub mod Serve
mod Tests
use nirn_proxy.Bucket
use nirn_proxy.Client
use nirn_proxy.Client.{Client, World}
use nirn_proxy.Identity.{Identity, AuthType, bot, no_auth, bearer}
use nirn_proxy.Pacer
use nirn_proxy.Pacer.{Pacer}
use nirn_proxy.Base.{
  ℕ, ◌+◌, ◌-◌, Bool, true, false, not, ◌&&◌, ◌||◌, Option, none, some, List, [], ◌∷◌, ◌++◌, map,
  ltb, leb, ◌=ᵇ◌, if◌then◌else◌, length, any, ℤ, ◌+ℤ◌, ◌-ℤ◌, leb_ℤ, pos, nat_eq, bytes_eq, get, put,
  delete, Bytes,
}

pub data Validity : Type 0 where
  unknown : Validity
  valid : Validity
  invalid : Validity

-- `clientState`; its maps are the record `Client`.
pub record State : Type 0 where
  pub client : Client
  pub pacer : Pacer
  pub validity : Validity
  pub active : ℤ
  pub last_used : ℕ

-- A map from the hash of a token.
abbrev pub Group : Type 0
Group = List (Bytes × State)

pub record Registry : Type 0 where
  pub bots : Group
  pub bearers : Group
  pub no_auth_state : Option State
  pub closed : Bool
  pub max_bearer_clients : ℕ
  pub max_client_states : ℕ

pub data Error : Type 0 where
  too_many_clients : Error
  proxy_closed : Error

pub new_client_state : ℕ → Identity → ℕ → State
new_client_state now identity global_limit = record {
  client = record { buckets = []; aliases = []; alias_limit = false };
  pacer = Pacer.new_pacer global_limit;
  validity = elim identity.kind [ no_auth ↦ valid | bot ↦ unknown | bearer ↦ unknown ];
  active = pos 0;
  last_used = now;
}

pub begin : ℕ → State → State
begin now s = record s { active = s.active +ℤ pos 1; last_used = now }

pub finish : ℕ → State → State
finish now s = record s { active = s.active -ℤ pos 1; last_used = now }

-- A bucket that has a request or is blocked.
busy : ℕ → World → ℕ × ℕ → Bool
busy now w (hash, p) =
    not (leb_ℤ (w.cells p).active (pos 0) && leb_ℤ (pos 0) (w.cells p).active)
    || Bucket.blocked now (w.cells p)

-- `clientState.idle`
pub idle : ℕ → World → State → Bool
unfolding busy
idle now w s =
    not (
      Pacer.blocked now s.pacer
      || not (leb_ℤ s.active (pos 0) && leb_ℤ (pos 0) s.active)
      || leb (now - s.last_used) Bucket.client_idle_timeout)
    && not (any (busy now w) s.client.buckets)

-- An entry of a group, with the group that it is in.
pub record Candidate : Type 0 where
  pub in_bearers : Bool
  pub key : Bytes
  pub state : State

abbrev pub candidates : Bool → Group → List Candidate
candidates tag [] = []
candidates tag ((key, s) ∷ rest) =
    record { in_bearers = tag; key = key; state = s } ∷ candidates tag rest

abbrev pub older : Candidate → Option Candidate → Bool
older c none = true
older c (some best) = ltb c.state.last_used best.state.last_used

-- The loops of `evictOldestIdle`.
pub oldest : ℕ → World → List Candidate → Option Candidate → Option Candidate
unfolding idle
oldest now w [] best = best
oldest now w (c ∷ rest) best =
    oldest now w rest (if idle now w c.state && older c best then some c else best)

-- `oldestState.clear()` and `delete(oldestGroup, oldestKey)`
pub drop_candidate : Candidate → Registry → World → Registry × World
drop_candidate c r w =
    let (cleared, w') = Client.clear c.state.client w in
    (
      if c.in_bearers
          then record r { bearers = delete r.bearers c.key }
          else record r { bots = delete r.bots c.key },
      w',
    )

-- `evictOldestIdle`; none if no client is idle.
pub evict_oldest_idle : ℕ → List Candidate → Registry → World → Option (Registry × World)
unfolding drop_candidate
evict_oldest_idle now cs r w = elim (oldest now w cs none) [
  | none ↦ none
  | some c ↦ some (drop_candidate c r w)
]

-- An eviction that is made only if a limit is reached.
abbrev pub make_room : Bool → ℕ → List Candidate → Registry → World → Option (Registry × World)
make_room full now cs r w = if full then evict_oldest_idle now cs r w else some (r, w)

abbrev pub group : AuthType → Registry → Group
group bearer r = r.bearers
group bot r = r.bots
group no_auth r = r.bots

abbrev pub with_group : AuthType → Group → Registry → Registry
with_group bearer g r = record r { bearers = g }
with_group bot g r = record r { bots = g }
with_group no_auth g r = record r { bots = g }

abbrev pub is_bearer : AuthType → Bool
is_bearer bearer = true
is_bearer bot = false
is_bearer no_auth = false

-- `client` for an identity that has no state yet: room for one more, a new state, and its begin.
pub admit : ℕ → ℕ → Identity → Registry → World → Registry × World × Option Error
unfolding new_client_state begin
admit now global_limit identity r w =
    elim (make_room (leb r.max_client_states (length r.bots + length r.bearers)) now
      (candidates false r.bots ++ candidates true r.bearers) r w) [
        | none ↦ (r, w, some too_many_clients)
        | some (r', w') ↦ (
          with_group identity.kind
              (put (group identity.kind r') identity.key
                (begin now (new_client_state now identity global_limit)))
              r',
          w',
          none,
        )
      ]

pub enroll : ℕ → ℕ → Identity → Registry → World → Registry × World × Option Error
unfolding admit
enroll now global_limit identity r w =
    elim (make_room (is_bearer identity.kind && leb r.max_bearer_clients (length r.bearers)) now
      (candidates true r.bearers) r w) [
        | none ↦ (r, w, some too_many_clients)
        | some (r', w') ↦ admit now global_limit identity r' w'
      ]

-- `client` for a token.
pub known_client : ℕ → ℕ → Identity → Registry → World → Registry × World × Option Error
unfolding enroll begin
known_client now global_limit identity r w = elim (get (group identity.kind r) identity.key) [
  | some s ↦
      (with_group identity.kind (put (group identity.kind r) identity.key (begin now s)) r, w, none)
  | none ↦ enroll now global_limit identity r w
]

pub anonymous_client : ℕ → Registry → World → Registry × World × Option Error
unfolding begin
anonymous_client now r w = elim r.no_auth_state [
  | none ↦ (r, w, some proxy_closed)
  | some s ↦ (record r { no_auth_state = some (begin now s) }, w, none)
]

abbrev pub by_kind :
    AuthType → ℕ → ℕ → Identity → Registry → World → Registry × World × Option Error
by_kind no_auth now global_limit identity r w = anonymous_client now r w
by_kind bot now global_limit identity r w = known_client now global_limit identity r w
by_kind bearer now global_limit identity r w = known_client now global_limit identity r w

-- `client`: no error means that the identity's state is there, and began a request.
unfoldable pub client : ℕ → ℕ → Identity → Registry → World → Registry × World × Option Error
unfolding known_client anonymous_client
client now global_limit identity r w =
    if r.closed
    then (r, w, some proxy_closed)
    else by_kind identity.kind now global_limit identity r w

-- `globalLimit`: by the bot's ID, else by the fingerprint of the token.
unfoldable pub global_limit : List (Bytes × ℕ) → (Bytes → Bytes) → Identity → ℕ
global_limit overrides fingerprint identity =
    let limit_of = λ (o : Option ℕ). elim o as (λ _. ℕ) [ none ↦ 0 | some n ↦ n ] in
    let by_id = limit_of (get overrides identity.bot_id) in
    let by_token = limit_of (get overrides (fingerprint identity.key)) in
    if not (by_id =ᵇ 0)
    then by_id
    else if not (by_token =ᵇ 0)
    then by_token
    else Pacer.discord_global_limit

-- The first part of `sweepClients`: idle clients of a group go.
drop_idle : ℕ → Group → World → Group × World
unfolding idle
drop_idle now [] w = ([], w)
drop_idle now ((key, s) ∷ rest) w =
    let cleared = (Client.clear s.client w).1 in
    let gone = drop_idle now rest cleared in
    let (kept, w') = drop_idle now rest w in if idle now w s then gone else ((key, s) ∷ kept, w')

-- The second part: the buckets of the others are swept.
sweep_group : ℕ → Group → World → Group × World
sweep_group now [] w = ([], w)
sweep_group now ((key, s) ∷ rest) w =
    let (c, w') = Client.sweep now s.client w in
    let (swept, w'') = sweep_group now rest w' in ((key, record s { client = c }) ∷ swept, w'')

abbrev sweep_anonymous : ℕ → Option State → World → Option State × World
sweep_anonymous now none w = (none, w)
sweep_anonymous now (some s) w =
    let (c, w') = Client.sweep now s.client w in (some (record s { client = c }), w')

sweep_clients : ℕ → Registry → World → Registry × World
unfolding drop_idle sweep_group
sweep_clients now r w =
    let (bots, w1) = drop_idle now r.bots w in
    let (bearers, w2) = drop_idle now r.bearers w1 in
    let (anonymous, w3) = sweep_anonymous now r.no_auth_state w2 in
    let (swept_bots, w4) = sweep_group now bots w3 in
    let (swept_bearers, w5) = sweep_group now bearers w4 in
    (record r { bots = swept_bots; bearers = swept_bearers; no_auth_state = anonymous }, w5)
