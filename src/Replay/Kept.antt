-- ===== src/Replay/Kept.antt =====
-- A body that is sent again is the body that was read.
use nirn_proxy.Budget
use nirn_proxy.Budget.{Budget}
use nirn_proxy.Capture.{Capture, Replayed, Chunk, read_chunks}
use nirn_proxy.Capture.Kept.{
  Holds, Replays, unkept, memory, file, unclosed, buffered, replay-Replays, bytes_of,
  read_chunks-Holds,
}
use nirn_proxy.Replay.{
  BodyReplay, new_capture, capturing, new_captured, ready, with_replayed, again, Answers, body,
  read_body, new_body_replay, prepare_retry, once, known_length,
}
use nirn_proxy.Base.{
  ℕ, suc, ◌≡◌, refl, inl, inr, Bool, true, false, ◌&&◌, Option, none, some, List, [], arith,
  Bool-cases, all, ℤ, pos_part, ltb_ℤ, leb_ℤ, pos, Bytes,
}

-- What `newBodyReplay` makes of a body that can be read once holds nothing yet.
data Fresh : Option BodyReplay → Type 0 where
  refused : Fresh none
  fresh :
      (content_length : ℤ) (limit : ℕ) (overflow : Bool) (reserved : ℕ)
      → Fresh (some (capturing (new_capture content_length limit overflow reserved)))

new_captured-Fresh :
    (content_length : ℤ) (limit : ℕ) (b : Budget) → Fresh (new_captured content_length limit b).0
unfolding new_captured
new_captured-Fresh n limit b = elim (Bool-cases (ltb_ℤ (pos limit) n)) [
  | inl e ↦ rw (e, new_captured) (fresh n limit true 0)
  | inr e ↦ elim (Bool-cases (leb_ℤ b.limit (pos 0) && leb_ℤ (pos 0) b.limit)) [
    | inl f ↦ rw (e, f, new_captured) (fresh n limit true 0)
    | inr f ↦ elim (Bool-cases (ltb_ℤ (pos 0) n)) [
      | inr g ↦ rw (e, f, g, new_captured) (fresh n limit false 0)
      | inl g ↦ elim (Bool-cases (Budget.reserve n b).1) [
        | inl h ↦ rw (e, f, g, h, new_captured) (fresh n limit false (pos_part n))
        | inr h ↦ rw (e, f, g, h, new_captured) refused
      ]
    ]
  ]
]

pub fresh-Holds :
    (n : ℤ) (limit : ℕ) (overflow : Bool) (reserved : ℕ)
    → Holds [] (new_capture n limit overflow reserved)
fresh-Holds n limit overflow reserved = record {
  counted = refl;
  unsealed = refl;
  place = buffered refl refl refl;
}

with_replayed_lem :
    (all : Bytes) (answers : Answers) (attempt : ℕ) (c : Capture) {x : Capture × Replayed}
    → answers.opens ≡ true
    → Replays all c x
    → let (kept, answer) = with_replayed (capturing c) x in
      answer ≡ ready → (body answers (suc attempt) kept ≡ (kept, again all)) × (c.complete ≡ true)
unfolding body
with_replayed_lem all answers attempt c o unkept e = cc
with_replayed_lem all answers attempt c o (memory f) e = (refl, f)
with_replayed_lem all answers attempt c o (file f g) e = (ground arith, f)
with_replayed_lem all answers attempt c o unclosed e = cc

retried :
    (all : Bytes) (closes : Bool) (answers : Answers) (attempt : ℕ) (c : Capture)
    → Holds all c
    → answers.opens ≡ true
    → let (kept, answer) = prepare_retry closes (capturing c) in
      answer ≡ ready → (body answers (suc attempt) kept ≡ (kept, again all)) × (c.complete ≡ true)
unfolding prepare_retry
retried all closes answers attempt c h o =
    with_replayed_lem all answers attempt c o (replay-Replays all closes c h)

fresh_body :
    (ks : List Chunk) (closes : Bool) (answers : Answers) (attempt : ℕ) (r : BodyReplay)
    (b : Budget) {o : Option BodyReplay}
    → Fresh o
    → o ≡ some r
    → answers.opens ≡ true
    → let (kept, answer) = prepare_retry closes (read_body ks r b).0 in
      answer ≡ ready → body answers (suc attempt) kept ≡ (kept, again (bytes_of ks))
unfolding read_body
fresh_body ks closes answers attempt r b refused e o = cc
fresh_body ks closes answers attempt r b (fresh n limit overflow reserved) e o =
    let start = new_capture n limit overflow reserved in
    let same : capturing start ≡ r = cc in
    let holds = read_chunks-Holds ks [] start b (fresh-Holds n limit overflow reserved) in
    let again_all =
      retried (bytes_of ks) closes answers attempt (read_chunks ks start b).0 holds o in
    rw (← same) (λ h. (again_all h).0)

-- A body that can be read once, and that passed through its capture in any pieces, is sent whole in
-- every later attempt once `prepareRetry` says that it can be sent again, whether it was kept in
-- memory or in a file, if the file can be opened.
pub replayed_body :
    (ks : List Chunk) (closes : Bool) (answers : Answers) (attempt : ℕ) (content_length : ℤ)
    (limit : ℕ) (r : BodyReplay) (b v : Budget)
    → (new_body_replay once content_length limit b).0 ≡ some r
    → answers.opens ≡ true
    → (prepare_retry closes (read_body ks r v).0).1 ≡ ready
    → body answers (suc attempt) (prepare_retry closes (read_body ks r v).0).0
      ≡ ((prepare_retry closes (read_body ks r v).0).0, again (bytes_of ks))
unfolding new_body_replay
replayed_body ks closes answers attempt content_length limit r b v made o =
    fresh_body ks closes answers attempt r v
      (new_captured-Fresh (known_length content_length) limit b) made o
