-- ===== src/Timeout/Obeys.antt =====
-- The context of a request to another node is canceled once.
use nirn_proxy.Timeout.{
  Answer, broken, silent, answered, Action, open_context, send, cancel, close_body, Body,
  cluster_peer_round_trip, handle, round_trip, close, closes, lifetime,
}
use nirn_proxy.Base.{
  ℕ, zero, suc, ◌≡◌, refl, Bool, true, false, not, ◌&&◌, Option, none, some, List, [], ◌∷◌, Loaded,
  ok, err,
}

-- Whether the context was opened, and whether it was canceled.
pub record Held : Type 0 where
  pub opened : Bool
  pub canceled : Bool

abbrev when : Bool → Held → Option Held
when true h = some h
when false h = none

-- A request is sent with an open context, which is canceled once; a body is closed only after that.
abbrev follow_one : Action → Held → Option Held
follow_one (open_context timeout) h = when (not h.opened) (record h { opened = true })
follow_one send h = when (h.opened && not h.canceled) h
follow_one cancel h = when (h.opened && not h.canceled) (record h { canceled = true })
follow_one close_body h = when h.canceled h

abbrev pub follow : List Action → Held → Option Held
follow [] h = some h
follow (a ∷ as') h = elim (follow_one a h) [ none ↦ none | some h' ↦ follow as' h' ]

abbrev pub fresh : Held
fresh = record { opened = false; canceled = false }

abbrev running : Bool → Held
running canceled = record { opened = true; canceled = canceled }

abbrev is_open : Loaded Body → Bool
is_open (err e) = false
is_open (ok b) = true

abbrev is_zero : ℕ → Bool
is_zero zero = true
is_zero (suc n) = false

closed_again :
    (n : ℕ) → follow (closes n (record { cleaned = true })) (running true) ≡ some (running true)
unfolding closes close
closed_again zero = refl
closed_again (suc n) = closed_again n

closed :
    (n : ℕ)
    → follow (closes n (record { cleaned = false })) (running false)
      ≡ some (running (not (is_zero n)))
unfolding closes close
closed zero = refl
closed (suc n) = closed_again n

-- A request to another node opens one context. It is canceled exactly once: at once, if no response
-- is handed over, and else with the first close of its body, before the body itself is closed; only
-- until then it stays open, however often the body is closed.
pub canceled_once :
    (timeout : ℕ) (configured : Bool) (a : Answer) (n : ℕ)
    → follow (lifetime timeout configured a n) fresh
      ≡ some (running (not (is_open (round_trip timeout configured a).1 && is_zero n)))
unfolding lifetime round_trip cluster_peer_round_trip handle
canceled_once timeout false a n = refl
canceled_once timeout true (broken e true) n = refl
canceled_once timeout true (broken e false) n = refl
canceled_once timeout true silent n = refl
canceled_once timeout true (answered has_body) n = closed n
