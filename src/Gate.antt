-- ===== src/Gate.antt =====
-- `fifoGate` of internal/proxy/scheduler.go: a FIFO semaphore with capacity one and a bounded wait
-- list. Each function is one critical section of the gate's mutex, or one choice of a `select`; a
-- waiter is the goroutine that pushed it, and its `element` is set exactly while it is in the list.
pub mod Ownership
pub mod Release
pub mod Safety
pub mod Fifo
mod Tests
use nirn_proxy.Base.{
  ℕ, ◌≡◌, ◌⊎◌, Bool, true, false, not, Option, none, some, List, [], ◌∷◌, ◌++◌, leb, ◌=ᵇ◌,
  if◌then◌else◌, length, all,
}

pub record Gate : Type 0 where
  pub held : Bool
  pub max_waiters : ℕ
  pub waiters : List ℕ

new_fifo_gate : ℕ → Gate
new_fifo_gate max_waiters = record { held = false; max_waiters = max_waiters; waiters = [] }

-- Where a goroutine stands in `acquire` and after it.
pub data Phase : Type 0 where
  -- not in `acquire`, and without the gate
  outside : Phase
  -- took the free gate, and will look at `ctx.Err`
  entered : Phase
  -- in the `select`, its element in the list
  queued : Phase
  -- in the `select`, its `ready` channel closed
  granted : Phase
  -- `acquire` returned nil
  inside : Phase
  -- about to call `release` and to return the context's error
  backing_out : Phase

-- The first critical section of `acquire`: the gate, and where the caller goes on.
pub enter : ℕ → Gate → Gate × Phase
enter i g =
    if not g.held
    then (record g { held = true }, entered)
    else if leb g.max_waiters (length g.waiters)
    then (g, outside)
    else (record g { waiters = g.waiters ++ i ∷ [] }, queued)

-- `ctx.Err()` after the gate was taken or handed over.
pub check : Bool → Phase
check cancelled = if cancelled then backing_out else inside

-- `release`: the gate, and the waiter whose channel is closed.
pub release : Gate → Gate × Option ℕ
release g = elim g.waiters [
  | [] ↦ (record g { held = false }, none)
  | w ∷ ws ↦ (record g { waiters = ws }, some w)
]

-- `list.Remove`.
pub remove : ℕ → List ℕ → List ℕ
remove i [] = []
remove i (w ∷ ws) = if w =ᵇ i then ws else w ∷ remove i ws

-- The `ctx.Done` branch: a waiter that is still in the list leaves it, one that was granted must
-- give the gate back.
pub cancel : ℕ → Phase → Gate → Gate × Phase
unfolding remove
cancel i queued g = (record g { waiters = remove i g.waiters }, outside)
cancel i p g = (g, backing_out)

-- The gate and all goroutines that use it.
pub record System : Type 0 where
  pub gate : Gate
  pub phase : ℕ → Phase

abbrev pub update : (ℕ → Phase) → ℕ → Phase → ℕ → Phase
update f i p j = if i =ᵇ j then p else f j

abbrev pub settle : ℕ → Gate × Phase → System → System
settle i (g, p) s = record { gate = g; phase = update s.phase i p }

abbrev wake : Option ℕ → (ℕ → Phase) → ℕ → Phase
wake none f = f
wake (some w) f = update f w granted

abbrev pub hand_over : ℕ → Gate × Option ℕ → System → System
hand_over i (g, w) s = record { gate = g; phase = wake w (update s.phase i outside) }

-- One atomic step of goroutine `i`. The Boolean of `look` says whether the context has ended.
pub data Step (s : System) : System → Type 0 where
  call : (i : ℕ) → s.phase i ≡ outside → Step s (settle i (enter i s.gate) s)
  look :
      (i : ℕ) (cancelled : Bool)
      → (s.phase i ≡ entered) ⊎ (s.phase i ≡ granted)
      → Step s (settle i (s.gate, check cancelled) s)
  give_up :
      (i : ℕ)
      → (s.phase i ≡ queued) ⊎ (s.phase i ≡ granted)
      → Step s (settle i (cancel i (s.phase i) s.gate) s)
  leave :
      (i : ℕ)
      → (s.phase i ≡ inside) ⊎ (s.phase i ≡ backing_out)
      → Step s (hand_over i (release s.gate) s)

-- Every state that some sequence of steps leads to.
pub data Reach (first : System) : System → Type 0 where
  here : Reach first first
  next : {last then_last : System} → Reach first last → Step last then_last → Reach first then_last

pub start : ℕ → System
unfolding new_fifo_gate
start max_waiters = record { gate = new_fifo_gate max_waiters; phase = λ i. outside }
