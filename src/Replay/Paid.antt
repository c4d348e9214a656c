-- ===== src/Replay/Paid.antt =====
-- What a body that may be sent again takes of the budget for retries, and gives back.
use nirn_proxy.Budget
use nirn_proxy.Budget.{Budget}
use nirn_proxy.Budget.Laws.{reserve-Reserved, refused, made, release_lem}
use nirn_proxy.Capture.{Capture, Chunk, Replayed, read_chunks, replay}
use nirn_proxy.Capture.Kept.{
  Replays, unkept, memory, file, unclosed, bytes_of, read_chunks-Holds, replay-Replays,
}
use nirn_proxy.Capture.Paid.{
  Pays, Pays-refl, Covered, cleanup_lem, read_chunks-Pays, held, read_chunks-Covered, held_reserved,
}
use nirn_proxy.Replay.Kept.{fresh-Holds}
use nirn_proxy.Replay.{
  once, BodyReplay, new_capture, capturing, known_length, new_captured, new_body_replay, read_body,
  prepare_retry, with_replayed, close,
}
use nirn_proxy.Base.{
  ℕ, ◌≡◌, refl, sym, ap, ◌∙◌, inl, inr, Bool, true, false, ◌&&◌, Option, none, some, List, [],
  arith, Bool-cases, all, ℤ, pos_part, neg_part, ◌+ℤ◌, ◌≤ℤ◌, ltb_ℤ, leb_ℤ, eq_of_parts, int_laws,
  pos, Bytes, subst,
}

-- What `newBodyReplay` reserves.
data Started (b : Budget) : Option BodyReplay × Budget → Type 0 where
  turned_down : Started b (none, b)
  started :
      (n : ℤ) (limit : ℕ) (overflow : Bool) (reserved : ℕ) (v : Budget)
      → (overflow ≡ true → reserved ≡ 0)
      → Pays (new_capture n limit overflow 0) b (new_capture n limit overflow reserved) v
      → Started b (some (capturing (new_capture n limit overflow reserved)), v)

unpaid :
    (n : ℤ) (limit : ℕ) (overflow : Bool) (b : Budget)
    → Started b (some (capturing (new_capture n limit overflow 0)), b)
unpaid n limit overflow b =
    let c = new_capture n limit overflow 0 in
    started n limit overflow 0 b (λ h. refl) (Pays-refl c c b refl)

new_captured-Started : (n : ℤ) (limit : ℕ) (b : Budget) → Started b (new_captured n limit b)
unfolding new_captured
new_captured-Started n limit b = elim (Bool-cases (ltb_ℤ (pos limit) n)) [
  | inl e ↦ rw (e, new_captured) (unpaid n limit true b)
  | inr e ↦ elim (Bool-cases (leb_ℤ b.limit (pos 0) && leb_ℤ (pos 0) b.limit)) [
    | inl f ↦ rw (e, f, new_captured) (unpaid n limit true b)
    | inr f ↦ elim (Bool-cases (ltb_ℤ (pos 0) n)) [
      | inr g ↦ rw (e, f, g, new_captured) (unpaid n limit false b)
      | inl g ↦ elim (reserve-Reserved n b) [
        | refused h ↦ rw (e, f, g, h, new_captured) turned_down
        | made v h l u a ↦
            rw (e, f, g, h, new_captured)
              (started n limit false (pos_part n) v (λ i. cc)
                (record {
                  balanced = eq_of_parts _ _ (omega (int_laws, ap pos_part a, ap neg_part a));
                  limited = l;
                  within = u;
                }))
      ]
    ]
  ]
]

fresh-Covered :
    (n : ℤ) (limit : ℕ) (overflow : Bool) (reserved : ℕ)
    → (overflow ≡ true → reserved ≡ 0)
    → Covered (new_capture n limit overflow reserved)
fresh-Covered n limit overflow reserved h = record {
  reads_reserved = λ e. omega arith;
  nothing_left = λ e. (h e, refl, refl);
}

-- `prepareRetry` changes nothing of what is reserved.
with_replayed_reserved :
    (all : Bytes) (c : Capture) {x : Capture × Replayed}
    → Replays all c x
    → (d : Capture) × ((with_replayed (capturing c) x).0.captured ≡ some d)
      × (d.reserved ≡ c.reserved)
with_replayed_reserved all c unkept = (c, refl, refl)
with_replayed_reserved all c (memory f) = (record c { sealed = true; buffer = [] }, refl, refl)
with_replayed_reserved all c (file f g) =
    (record c { sealed = true; file_open = false }, refl, refl)
with_replayed_reserved all c unclosed = (record c { sealed = true; file_open = false }, refl, refl)

close_reserved :
    (r : BodyReplay) (c : Capture) (b : Budget)
    → r.captured ≡ some c
    → (close r b).1 ≡ Budget.release (pos c.reserved) b
unfolding close
close_reserved r c b e = ground (arith, cleanup_lem c b)

-- What is given back at the end is what was reserved, at the start and for the bytes read.
budget_eq : (a b : Budget) → a.limit ≡ b.limit → a.used ≡ b.used → a ≡ b
budget_eq a b p q = λ i. record { limit = p i; used = q i }

settled :
    (c d : Capture) (a b v : Budget)
    → Pays (record c { reserved = 0 }) a c b
    → Pays c b d v
    → Budget.release (pos d.reserved) v ≡ a
settled c d a b v first second =
    let (same, back) = release_lem (pos d.reserved) v in
    budget_eq _ _ (same ∙ second.limited ∙ first.limited) (
      eq_of_parts _ _ (
        omega (
          int_laws,
          ap pos_part back,
          ap neg_part back,
          ap pos_part first.balanced,
          ap neg_part first.balanced,
          ap pos_part second.balanced,
          ap neg_part second.balanced,
        )))

closed_body :
    (ks : List Chunk) (closes : Bool) (r : BodyReplay) (b : Budget) {x : Option BodyReplay × Budget}
    → Started b x
    → x.0 ≡ some r
    → let (read, v) = read_body ks r x.1 in (close (prepare_retry closes read).0 v).1 ≡ b
unfolding read_body prepare_retry
closed_body ks closes r b turned_down e = cc
closed_body ks closes r b (started n limit overflow reserved v h p) e =
    let start = new_capture n limit overflow reserved in
    let same : capturing start ≡ r = cc in
    let holds = read_chunks-Holds ks [] start v (fresh-Holds n limit overflow reserved) in
    let (d, w) = read_chunks ks start v in
    let (kept, is_kept, reserves) =
      with_replayed_reserved (bytes_of ks) d (replay-Replays (bytes_of ks) closes d holds) in
    let back =
      close_reserved (with_replayed (capturing d) (replay closes d)).0 kept w is_kept
      ∙ ap (λ n. Budget.release (pos n) w) reserves
      ∙ settled start d b v w p (read_chunks-Pays ks start v) in
    subst (λ q. let (read, u) = read_body ks q v in (close (prepare_retry closes read).0 u).1 ≡ b)
      same back

-- After `close`, whatever was read and whether it can be sent again or not, the budget is as it was
-- before `newBodyReplay`.
pub budget_returned :
    (ks : List Chunk) (closes : Bool) (content_length : ℤ) (limit : ℕ) (r : BodyReplay) (b : Budget)
    → (new_body_replay once content_length limit b).0 ≡ some r
    → let (read, v) = read_body ks r (new_body_replay once content_length limit b).1 in
      (close (prepare_retry closes read).0 v).1 ≡ b
unfolding new_body_replay
budget_returned ks closes content_length limit r b found =
    closed_body ks closes r b (new_captured-Started (known_length content_length) limit b) found

kept_paid :
    (ks : List Chunk) (r : BodyReplay) (b : Budget) (c : Capture) {x : Option BodyReplay × Budget}
    → Started b x
    → x.0 ≡ some r
    → b.used ≤ℤ b.limit
    → (read_body ks r x.1).0.captured ≡ some c
    → b.used +ℤ pos (held c) ≤ℤ b.limit
unfolding read_body
kept_paid ks r b c turned_down e u f = cc
kept_paid ks r b c (started n limit overflow reserved v h p) e u f =
    let start = new_capture n limit overflow reserved in
    let same : capturing start ≡ r = cc in
    let holds = read_chunks-Holds ks [] start v (fresh-Holds n limit overflow reserved) in
    let covered =
      read_chunks-Covered ks [] start v (fresh-Holds n limit overflow reserved)
        (fresh-Covered n limit overflow reserved h) in
    let (d, w) = read_chunks ks start v in
    let paid = read_chunks-Pays ks start v in
    let read : some d ≡ some c = subst (λ q. (read_body ks q v).0.captured ≡ some c) (sym same) f in
    let kept : d ≡ c = cc in
    let within = paid.within (p.within u) in
    subst (λ k. b.used +ℤ pos (held k) ≤ℤ b.limit) kept
      (omega (
        int_laws,
        held_reserved (bytes_of ks) d holds covered,
        within,
        ap pos_part p.balanced,
        ap neg_part p.balanced,
        ap pos_part p.limited,
        ap neg_part p.limited,
        ap pos_part paid.balanced,
        ap neg_part paid.balanced,
        ap pos_part paid.limited,
        ap neg_part paid.limited,
      ))

-- While a body is read, what is kept of it, in memory or in its file, fits in the budget beside what
-- was reserved before, if that was within the limit.
kept_within_budget :
    (ks : List Chunk) (content_length : ℤ) (limit : ℕ) (r : BodyReplay) (b : Budget) (c : Capture)
    → (new_body_replay once content_length limit b).0 ≡ some r
    → b.used ≤ℤ b.limit
    → (read_body ks r (new_body_replay once content_length limit b).1).0.captured ≡ some c
    → b.used +ℤ pos (held c) ≤ℤ b.limit
unfolding new_body_replay
kept_within_budget ks content_length limit r b c found u f =
    kept_paid ks r b c (new_captured-Started (known_length content_length) limit b) found u f
