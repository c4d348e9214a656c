-- ===== src/Lifecycle/Shutdown.antt =====
-- After `Close` has returned, no memberlist is alive.
use nirn_proxy.Lifecycle.{
  Phase, outside, joining, candidate, failing, clearing, over, Closer, not_called, waiting, leaving,
  closed, System, enter_phase, is_free, begin_join, create, install, shut_candidate, clear_join,
  is_own, close, take_cluster, shut_cluster, Step, joins, creates, fails, installs, shuts, clears,
  closes, takes, leaves, Reach, here, next, start,
}
use nirn_proxy.Base.{
  ℕ, ◌≡◌, refl, inl, inr, Bool, true, false, not, ◌&&◌, ◌||◌, Option, none, some, arith,
  if◌then◌else◌, Bool-cases,
}

abbrev in_join : Phase → Bool
in_join outside = false
in_join joining = true
in_join candidate = true
in_join failing = true
in_join clearing = true
in_join over = false

abbrev has_candidate : Phase → Bool
has_candidate outside = false
has_candidate joining = false
has_candidate candidate = true
has_candidate failing = true
has_candidate clearing = false
has_candidate over = false

abbrev taken_over : Closer → Option ℕ
taken_over not_called = none
taken_over waiting = none
taken_over (leaving c) = c
taken_over closed = none

abbrev has_taken : Closer → Bool
has_taken not_called = false
has_taken waiting = false
has_taken (leaving c) = true
has_taken closed = true

abbrev is_called : Closer → Bool
is_called not_called = false
is_called waiting = true
is_called (leaving c) = true
is_called closed = true

-- Each join that is under way has the channel, and each memberlist that is alive has an owner: its
-- own call, the proxy, or `Close`.
pub record Inv (s : System) : Type 0 where
  joined : (j : ℕ) → in_join (s.phase j) ≡ true → is_own j s.join_done ≡ true
  marked : s.cluster_joining ≡ not (is_free s.join_done)
  apart : (is_free s.join_done || is_free s.cluster) ≡ true
  owned :
      (j : ℕ)
      → s.live j ≡ true
      → (has_candidate (s.phase j) || is_own j s.cluster || is_own j (taken_over s.closer)) ≡ true
  stops : is_called s.closer ≡ true → s.stopped ≡ true
  taken : has_taken s.closer ≡ true → (is_free s.join_done && is_free s.cluster) ≡ true

begin_join-Inv : (i : ℕ) (s : System) → s.phase i ≡ outside → Inv s → Inv (begin_join i s)
unfolding begin_join
begin_join-Inv i s h v =
    elim (Bool-cases (s.stopped || not (is_free s.cluster) || s.cluster_joining)) [
      | inl e ↦ rw e (record {
        joined = λ j. ground (arith, v.joined j);
        marked = v.marked;
        apart = v.apart;
        owned = λ j. ground (arith, v.owned j);
        stops = v.stops;
        taken = v.taken;
      })
      | inr e ↦ rw e (record {
        joined = λ j. ground (arith, v.joined j, v.marked);
        marked = refl;
        apart = ground (arith, v.apart);
        owned = λ j. ground (arith, v.owned j);
        stops = v.stops;
        taken = ground (arith, v.stops);
      })
    ]

create-Inv :
    (i : ℕ) (created : Bool) (s : System) → s.phase i ≡ joining → Inv s → Inv (create i created s)
unfolding create
create-Inv i true s h v = record {
  joined = λ j. ground (arith, v.joined j, v.joined i);
  marked = v.marked;
  apart = v.apart;
  owned = λ j. ground (arith, v.owned j);
  stops = v.stops;
  taken = v.taken;
}
create-Inv i false s h v = record {
  joined = λ j. ground (arith, v.joined j, v.joined i);
  marked = v.marked;
  apart = v.apart;
  owned = λ j. ground (arith, v.owned j);
  stops = v.stops;
  taken = v.taken;
}

fails-Inv : (i : ℕ) (s : System) → s.phase i ≡ candidate → Inv s → Inv (enter_phase i failing s)
fails-Inv i s h v = record {
  joined = λ j. ground (arith, v.joined j, v.joined i);
  marked = v.marked;
  apart = v.apart;
  owned = λ j. ground (arith, v.owned j);
  stops = v.stops;
  taken = v.taken;
}

-- While a join is under way the proxy has no memberlist, so that none is lost.
installed-Inv :
    (i : ℕ) (s : System)
    → s.phase i ≡ candidate
    → s.stopped ≡ false
    → Inv s
    → Inv (
        enter_phase i over
          (record s { cluster = some i; cluster_joining = false; join_done = none }))
installed-Inv i s h e v = record {
  joined = λ j. ground (arith, v.joined j, v.joined i);
  marked = refl;
  apart = refl;
  owned = λ j. ground (arith, v.owned j, v.joined i, v.apart);
  stops = v.stops;
  taken = ground (arith, v.stops);
}

choose-Inv :
    (b : Bool) (s t : System) → (b ≡ true → Inv s) → (b ≡ false → Inv t) → Inv (if b then s else t)
choose-Inv true s t f g = f refl
choose-Inv false s t f g = g refl

install-Inv : (i : ℕ) (s : System) → s.phase i ≡ candidate → Inv s → Inv (install i s)
unfolding install
install-Inv i s h v =
    choose-Inv s.stopped _ _ (λ e. fails-Inv i s h v) (λ e. installed-Inv i s h e v)

shut_candidate-Inv : (i : ℕ) (s : System) → s.phase i ≡ failing → Inv s → Inv (shut_candidate i s)
unfolding shut_candidate
shut_candidate-Inv i s h v = record {
  joined = λ j. ground (arith, v.joined j, v.joined i);
  marked = v.marked;
  apart = v.apart;
  owned = λ j. ground (arith, v.owned j);
  stops = v.stops;
  taken = v.taken;
}

clear_join-Inv : (i : ℕ) (s : System) → s.phase i ≡ clearing → Inv s → Inv (clear_join i s)
unfolding clear_join
clear_join-Inv i s h v =
    let own : is_own i s.join_done ≡ true = ground (arith, v.joined i) in
    rw own (record {
      joined = λ j. ground (arith, v.joined j, v.joined i);
      marked = refl;
      apart = ground (arith, v.apart);
      owned = λ j. ground (arith, v.owned j);
      stops = v.stops;
      taken = ground (arith, v.taken);
    })

close-Inv : (s : System) → s.closer ≡ not_called → Inv s → Inv (close s)
unfolding close
close-Inv s h v = record {
  joined = v.joined;
  marked = v.marked;
  apart = v.apart;
  owned = λ j. ground (arith, v.owned j);
  stops = λ e. refl;
  taken = λ e. cc;
}

take_cluster-Inv : (s : System) → s.closer ≡ waiting → Inv s → Inv (take_cluster s)
unfolding take_cluster
take_cluster-Inv s h v = elim (Bool-cases (is_free s.join_done)) [
  | inl e ↦ rw e (record {
    joined = v.joined;
    marked = v.marked;
    apart = ground arith;
    owned = λ j. ground (arith, v.owned j);
    stops = λ f. ground (arith, v.stops);
    taken = λ f. ground arith;
  })
  | inr e ↦ rw e v
]

shut_cluster-Inv :
    (c : Option ℕ) (s : System) → s.closer ≡ leaving c → Inv s → Inv (shut_cluster c s)
unfolding shut_cluster
shut_cluster-Inv none s h v = record {
  joined = v.joined;
  marked = v.marked;
  apart = v.apart;
  owned = λ j. ground (arith, v.owned j);
  stops = λ f. ground (arith, v.stops);
  taken = λ f. ground (arith, v.taken);
}
shut_cluster-Inv (some c) s h v = record {
  joined = v.joined;
  marked = v.marked;
  apart = v.apart;
  owned = λ j. ground (arith, v.owned j);
  stops = λ f. ground (arith, v.stops);
  taken = λ f. ground (arith, v.taken);
}

Step-Inv : {s t : System} → Step s t → Inv s → Inv t
Step-Inv {s = s} (joins i h) v = begin_join-Inv i s h v
Step-Inv {s = s} (creates i created h) v = create-Inv i created s h v
Step-Inv {s = s} (fails i h) v = fails-Inv i s h v
Step-Inv {s = s} (installs i h) v = install-Inv i s h v
Step-Inv {s = s} (shuts i h) v = shut_candidate-Inv i s h v
Step-Inv {s = s} (clears i h) v = clear_join-Inv i s h v
Step-Inv {s = s} (closes h) v = close-Inv s h v
Step-Inv {s = s} (takes h) v = take_cluster-Inv s h v
Step-Inv {s = s} (leaves c h) v = shut_cluster-Inv c s h v

Reach-Inv : {s : System} → Reach start s → Inv s
Reach-Inv here = record {
  joined = λ j e. cc;
  marked = refl;
  apart = refl;
  owned = λ j e. cc;
  stops = λ e. cc;
  taken = λ e. cc;
}
Reach-Inv (next r step) = Step-Inv step (Reach-Inv r)

-- However calls of `JoinCluster` and `Close` interleave, once `Close` has shut down what it took
-- over, no memberlist is alive, not even one that a join made meanwhile, and the proxy has none.
pub none_alive_after_close :
    {s : System} (i : ℕ)
    → Reach start s
    → s.closer ≡ closed
    → (s.live i ≡ false) × (s.cluster ≡ none)
none_alive_after_close {s = s} i r h =
    let v = Reach-Inv r in (ground (arith, v.owned i, v.joined i, v.taken), ground (arith, v.taken))
