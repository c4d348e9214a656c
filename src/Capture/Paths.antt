-- ===== src/Capture/Paths.antt =====
-- The ways through a call of `capture`.
use nirn_proxy.Budget
use nirn_proxy.Budget.{Budget}
use nirn_proxy.Budget.Laws.{reserve-Reserved, refused, made}
use nirn_proxy.Capture.{
  Capture, Disk, discard, write_file, spill, store, capture, retry_memory_limit,
}
use nirn_proxy.Base.{
  ◌+◌, ◌-◌, ◌≤◌, ◌<◌, min, ◌≡◌, refl, inl, inr, true, false, ◌||◌, ◌++◌, arith, ltb, leb,
  Bool-cases, length, ◌+ℤ◌, ◌≤ℤ◌, pos, Bytes,
}

-- The three ways to store.
pub store_filed :
    (disk : Disk) (added : Bytes) (c : Capture) (b : Budget)
    → c.file_open ≡ true
    → store disk added c b ≡ write_file disk added c b
unfolding store
store_filed disk added c b f = ground arith

pub store_small :
    (disk : Disk) (added : Bytes) (c : Capture) (b : Budget)
    → c.file_open ≡ false
    → leb (length c.buffer + length added) (min c.limit retry_memory_limit) ≡ true
    → store disk added c b ≡ (record c { buffer = c.buffer ++ added }, b)
unfolding store
store_small disk added c b f e = ground arith

pub store_large :
    (disk : Disk) (added : Bytes) (c : Capture) (b : Budget)
    → c.file_open ≡ false
    → leb (length c.buffer + length added) (min c.limit retry_memory_limit) ≡ false
    → store disk added c b ≡ spill disk added c b
unfolding store
store_large disk added c b f e = ground arith

-- A call leaves the capture as it is, or discards it, or stores what was read once that is paid for.
pub data Captured (disk : Disk) (added : Bytes) (c : Capture) (b : Budget)
    : Capture × Budget → Type 0 where
  skipped : (c.overflow || c.sealed) ≡ true → Captured disk added c b (c, b)
  dropped : (c.overflow || c.sealed) ≡ false → Captured disk added c b (discard c b)
  paid :
      (c.overflow || c.sealed) ≡ false
      → c.read ≤ c.reserved
      → Captured disk added c b (store disk added c b)
  charged :
      (d : Budget)
      → (c.overflow || c.sealed) ≡ false
      → c.reserved < c.read
      → d.limit ≡ b.limit
      → (b.used ≤ℤ b.limit → d.used ≤ℤ d.limit)
      → d.used ≡ b.used +ℤ pos (c.read - c.reserved)
      → Captured disk added c b (store disk added (record c { reserved = c.read }) d)

capture_skipped :
    (disk : Disk) (added : Bytes) (c : Capture) (b : Budget)
    → (c.overflow || c.sealed) ≡ true
    → capture disk added c b ≡ (c, b)
unfolding capture
capture_skipped disk added c b e = rw (e, capture) refl

capture_over :
    (disk : Disk) (added : Bytes) (c : Capture) (b : Budget)
    → (c.overflow || c.sealed) ≡ false
    → ltb c.limit c.read ≡ true
    → capture disk added c b ≡ discard c b
unfolding capture
capture_over disk added c b e f = rw (e, f, capture) refl

capture_paid :
    (disk : Disk) (added : Bytes) (c : Capture) (b : Budget)
    → (c.overflow || c.sealed) ≡ false
    → ltb c.limit c.read ≡ false
    → ltb c.reserved c.read ≡ false
    → capture disk added c b ≡ store disk added c b
unfolding capture
capture_paid disk added c b e f g = rw (e, f, g, capture) refl

capture_refused :
    (disk : Disk) (added : Bytes) (c : Capture) (b : Budget)
    → (c.overflow || c.sealed) ≡ false
    → ltb c.limit c.read ≡ false
    → ltb c.reserved c.read ≡ true
    → Budget.reserve (pos (c.read - c.reserved)) b ≡ (b, false)
    → capture disk added c b ≡ discard c b
unfolding capture
capture_refused disk added c b e f g h = rw (e, f, g, h, capture) refl

capture_charged :
    (disk : Disk) (added : Bytes) (c : Capture) (b d : Budget)
    → (c.overflow || c.sealed) ≡ false
    → ltb c.limit c.read ≡ false
    → ltb c.reserved c.read ≡ true
    → Budget.reserve (pos (c.read - c.reserved)) b ≡ (d, true)
    → capture disk added c b ≡ store disk added (record c { reserved = c.read }) d
unfolding capture
capture_charged disk added c b d e f g h =
    let whole : c.reserved + (c.read - c.reserved) ≡ c.read = ground arith in
    rw (e, f, g, h, capture) (rw whole refl)

pub capture-Captured :
    (disk : Disk) (added : Bytes) (c : Capture) (b : Budget)
    → Captured disk added c b (capture disk added c b)
capture-Captured disk added c b = elim (Bool-cases (c.overflow || c.sealed)) [
  | inl e ↦ rw (capture_skipped disk added c b e) (skipped e)
  | inr e ↦ elim (Bool-cases (ltb c.limit c.read)) [
    | inl f ↦ rw (capture_over disk added c b e f) (dropped e)
    | inr f ↦ elim (Bool-cases (ltb c.reserved c.read)) [
      | inr g ↦ rw (capture_paid disk added c b e f g) (paid e (ground arith))
      | inl g ↦ elim (reserve-Reserved (pos (c.read - c.reserved)) b) [
        | refused h ↦ rw (capture_refused disk added c b e f g h) (dropped e)
        | made d h l u a ↦
            rw (capture_charged disk added c b d e f g h) (charged d e (ground arith) l u a)
      ]
    ]
  ]
]
