-- ===== src/Program/Run/Protocol.antt =====
-- What the program may call when, told from what is open and started at the time: an independent
-- description of the way that `run` takes.
use nirn_proxy.Config.{AppConfig, clustering_enabled}
use nirn_proxy.Program.{
  Server, public, metrics, pprof, peer, Action, make_proxy, listen, start, join, close_proxy,
  shutdown, close_listener, Trace,
}
use nirn_proxy.Base.{
  ◌≡◌, Bool, true, false, not, ◌&&◌, ◌||◌, Option, none, some, List, [], ◌∷◌, ◌++◌, if◌then◌else◌,
  keep, any, Loaded, ok, err,
}

abbrev pub same : Server → Server → Bool
same public public = true
same metrics metrics = true
same pprof pprof = true
same peer peer = true
same _ _ = false

abbrev pub has : List Server → Server → Bool
has ss s = any (λ t. same s t) ss

abbrev pub without : Server → List Server → List Server
without s ss = keep (λ t. not (same s t)) ss

-- Whether the proxy was made and whether it is closed, the listeners that are open, the servers that
-- are started and not shut down, and whether the cluster was joined.
pub record Held : Type 0 where
  pub made : Bool
  pub closed : Bool
  pub listening : List Server
  pub serving : List Server
  pub joined : Bool

abbrev pub when : Bool → Held → Option Held
when true h = some h
when false h = none

abbrev pub is_peer : Server → Bool
is_peer s = same s peer

abbrev pub is_empty : List Server → Bool
is_empty [] = true
is_empty (s ∷ ss) = false

-- One call, of a program that clusters or not: what is held after it, and none if it must not be
-- made.
abbrev pub follow_one : Bool → Action → Held → Option Held
follow_one clustering (make_proxy ok') h = when (not h.made) (record h { made = ok' })
follow_one clustering (listen s ok') h =
    when (h.made && not h.closed && not (has h.listening s))
      (record h { listening = if ok' then h.listening ++ s ∷ [] else h.listening })
follow_one clustering (start s) h =
    when
      (has h.listening s
        && not (has h.serving s)
        && not h.closed
        && (is_peer s || not clustering || h.joined))
      (record h { serving = h.serving ++ s ∷ [] })
follow_one clustering (join ok') h =
    when (has h.serving peer && not h.joined) (record h { joined = ok' })
follow_one clustering close_proxy h = when h.made (record h { closed = true })
follow_one clustering (shutdown s) h =
    when (h.closed && has h.listening s) (record h { serving = without s h.serving })
follow_one clustering (close_listener s) h =
    when (has h.listening s && not (has h.serving s))
      (record h { listening = without s h.listening })

abbrev pub follow : Bool → List Action → Held → Option Held
follow clustering [] h = some h
follow clustering (a ∷ as') h = elim (follow_one clustering a h) [
  | none ↦ none
  | some h' ↦ follow clustering as' h'
]

-- At the end no listener is open and no server started, and a proxy that was made is closed.
abbrev pub ended : Held → Bool
ended h = is_empty h.listening && is_empty h.serving && (h.closed || not h.made)

abbrev pub Obeys : Bool → Held → Trace → Type 0
Obeys clustering h (actions, es) = elim (follow clustering actions h) as (λ _. Type 0) [
  | none ↦ ⊥
  | some h' ↦ ended h' ≡ true
]

abbrev pub nothing_held : Held
nothing_held = record { made = false; closed = false; listening = []; serving = []; joined = false }

-- With a proxy, and these listeners and servers.
abbrev pub with : List Server → List Server → Bool → Held
with listening serving joined = record {
  made = true;
  closed = false;
  listening = listening;
  serving = serving;
  joined = joined;
}

-- Whether the configuration, if it was loaded, is one of a cluster.
abbrev pub clusters_loaded :
    {Pool Certificate : Type 0} → Loaded (AppConfig Pool Certificate) → Bool
clusters_loaded (err e) = false
clusters_loaded (ok c) = clustering_enabled c.cluster.members c.cluster.dns
