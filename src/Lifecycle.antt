-- ===== src/Lifecycle.antt =====
-- `JoinCluster` and `Close` of internal/proxy/cluster.go and proxy.go: who owns the live memberlist
-- while the two race. A call of `JoinCluster` is a number; each section under `clusterMu` is one
-- step, as is each call of the gossip library. What fails outside these sections is the choice of
-- the environment, and the peers' transport goes the way of the memberlist.
pub mod Shutdown
mod Tests
use nirn_proxy.Base.{ℕ, ◌≡◌, Bool, true, false, not, ◌||◌, Option, none, some, ◌=ᵇ◌, if◌then◌else◌}

-- A call of `JoinCluster`: not begun, marked as joining, with a memberlist of its own, giving up,
-- without a memberlist again, and after it was installed or has returned.
pub data Phase : Type 0 where
  outside : Phase
  joining : Phase
  candidate : Phase
  failing : Phase
  clearing : Phase
  over : Phase

-- `Close`: not called, waiting for a join, with the memberlist that it took over, and done.
pub data Closer : Type 0 where
  not_called : Closer
  waiting : Closer
  leaving : Option ℕ → Closer
  closed : Closer

-- `ctx`, `cluster`, `clusterJoining` and `clusterJoinDone`, each by the call that it belongs to, the
-- memberlists that are alive, and where the goroutines are.
pub record System : Type 0 where
  pub stopped : Bool
  pub cluster : Option ℕ
  pub cluster_joining : Bool
  pub join_done : Option ℕ
  pub live : ℕ → Bool
  pub phase : ℕ → Phase
  pub closer : Closer

abbrev pub update {ℓ} : {A : Type ℓ} → (ℕ → A) → ℕ → A → ℕ → A
update f i a j = if i =ᵇ j then a else f j

abbrev pub enter_phase : ℕ → Phase → System → System
enter_phase i p s = record s { phase = update s.phase i p }

abbrev pub is_free : Option ℕ → Bool
is_free none = true
is_free (some i) = false

-- The first section of `JoinCluster`.
pub begin_join : ℕ → System → System
begin_join i s =
    if s.stopped || not (is_free s.cluster) || s.cluster_joining
    then enter_phase i over s
    else enter_phase i joining (record s { cluster_joining = true; join_done = some i })

-- `memberlist.Create`
pub create : ℕ → Bool → System → System
create i created s =
    if created
    then enter_phase i candidate (record s { live = update s.live i true })
    else enter_phase i failing s

-- The second section: the memberlist becomes the proxy's, unless the proxy was closed.
pub install : ℕ → System → System
install i s =
    if s.stopped
    then enter_phase i failing s
    else enter_phase i over
        (record s { cluster = some i; cluster_joining = false; join_done = none })

-- The deferred function: the shutdown of the candidate.
pub shut_candidate : ℕ → System → System
shut_candidate i s = enter_phase i clearing (record s { live = update s.live i false })

abbrev pub is_own : ℕ → Option ℕ → Bool
is_own i none = false
is_own i (some j) = i =ᵇ j

-- And its section.
pub clear_join : ℕ → System → System
clear_join i s =
    if is_own i s.join_done
    then enter_phase i over (record s { cluster_joining = false; join_done = none })
    else enter_phase i over s

-- `Close`, which cancels `ctx`.
pub close : System → System
close s = record s { stopped = true; closer = waiting }

-- A round of the loop of `closeCluster`.
pub take_cluster : System → System
take_cluster s =
    if is_free s.join_done then record s { cluster = none; closer = leaving s.cluster } else s

abbrev shut : Option ℕ → (ℕ → Bool) → ℕ → Bool
shut none live = live
shut (some i) live = update live i false

-- `Leave` and `Shutdown` of what was taken over.
pub shut_cluster : Option ℕ → System → System
shut_cluster c s = record s { live = shut c s.live; closer = closed }

pub data Step (s : System) : System → Type 0 where
  joins : (i : ℕ) → s.phase i ≡ outside → Step s (begin_join i s)
  creates : (i : ℕ) (created : Bool) → s.phase i ≡ joining → Step s (create i created s)
  fails : (i : ℕ) → s.phase i ≡ candidate → Step s (enter_phase i failing s)
  installs : (i : ℕ) → s.phase i ≡ candidate → Step s (install i s)
  shuts : (i : ℕ) → s.phase i ≡ failing → Step s (shut_candidate i s)
  clears : (i : ℕ) → s.phase i ≡ clearing → Step s (clear_join i s)
  closes : s.closer ≡ not_called → Step s (close s)
  takes : s.closer ≡ waiting → Step s (take_cluster s)
  leaves : (c : Option ℕ) → s.closer ≡ leaving c → Step s (shut_cluster c s)

pub data Reach (first : System) : System → Type 0 where
  here : Reach first first
  next : {last then_last : System} → Reach first last → Step last then_last → Reach first then_last

abbrev pub start : System
start = record {
  stopped = false;
  cluster = none;
  cluster_joining = false;
  join_done = none;
  live = λ i. false;
  phase = λ i. outside;
  closer = not_called;
}
