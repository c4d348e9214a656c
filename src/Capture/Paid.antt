-- ===== src/Capture/Paid.antt =====
-- What a capture has reserved of its budget.
use nirn_proxy.Budget
use nirn_proxy.Budget.{Budget}
use nirn_proxy.Budget.Laws.{release_lem}
use nirn_proxy.Capture.Kept.{Holds, lost, buffered, filed, read_chunk-Holds}
use nirn_proxy.Capture.Paths.{
  store_filed, store_small, store_large, Captured, skipped, dropped, paid, charged,
  capture-Captured,
}
use nirn_proxy.Capture.{
  cleanup, extend, Capture, Disk, discard, write_file, spill, store, capture, take_in, grown, mark,
  is_length, retry_memory_limit, read_chunks, read_chunk, Chunk,
}
use nirn_proxy.Base.{
  ℕ, ◌+◌, ◌-◌, ◌≤◌, ◌<◌, min, ◌≡◌, refl, ap, ◌∙◌, inl, inr, Bool, true, false, ◌||◌, none, some,
  List, [], ◌∷◌, ◌++◌, arith, leb, Bool-cases, length, all, pos_part, neg_part, ◌+ℤ◌, ◌≤ℤ◌,
  eq_of_parts, int_laws, pos, Bytes,
}

-- What the capture reserves more, the budget counts more, and its limit is kept.
pub record Pays (c : Capture) (b : Budget) (d : Capture) (v : Budget) : Type 0 where
  pub balanced : pos d.reserved +ℤ b.used ≡ pos c.reserved +ℤ v.used
  pub limited : v.limit ≡ b.limit
  pub within : b.used ≤ℤ b.limit → v.used ≤ℤ v.limit

pub Pays-refl : (c d : Capture) (b : Budget) → d.reserved ≡ c.reserved → Pays c b d b
Pays-refl c d b e = record { balanced = rw e refl; limited = refl; within = λ h. h }

Pays-trans : (c d e : Capture) (b v u : Budget) → Pays c b d v → Pays d v e u → Pays c b e u
Pays-trans c d e b v u first second = record {
  balanced = eq_of_parts _ _ (
      omega (
        int_laws,
        ap pos_part first.balanced,
        ap neg_part first.balanced,
        ap pos_part second.balanced,
        ap neg_part second.balanced,
      ));
  limited = second.limited ∙ first.limited;
  within = λ h. second.within (first.within h);
}

pub emptied : Capture → Capture
emptied c = record c {
  overflow = true;
  buffer = [];
  file_open = false;
  stored = none;
  reserved = 0;
}

-- To discard is to keep nothing and to give everything back.
discard_lem :
    (c : Capture) (b : Budget) → discard c b ≡ (emptied c, Budget.release (pos c.reserved) b)
unfolding discard emptied Budget.release
discard_lem c b = ground arith

pub cleanup_lem :
    (c : Capture) (b : Budget) → cleanup c b ≡ (emptied c, Budget.release (pos c.reserved) b)
unfolding cleanup
cleanup_lem c b = discard_lem c b

discard-Pays : (c : Capture) (b : Budget) → Pays c b (discard c b).0 (discard c b).1
unfolding emptied
discard-Pays c b =
    let (same, back) = release_lem (pos c.reserved) b in
    rw (discard_lem c b) (record {
      balanced = eq_of_parts _ _ (omega (int_laws, ap pos_part back, ap neg_part back));
      limited = same;
      within = λ h.
          omega
            (int_laws, ap pos_part back, ap neg_part back, ap pos_part same, ap neg_part same, h);
    })

-- A store changes neither the budget nor what is reserved, unless it discards.
data Stored (c : Capture) (b : Budget) : Capture × Budget → Type 0 where
  kept :
      (d : Capture)
      → d.reserved ≡ c.reserved
      → d.read ≡ c.read
      → d.overflow ≡ c.overflow
      → Stored c b (d, b)
  gone : (d : Capture) → d.reserved ≡ c.reserved → Stored c b (discard d b)

write_file-Stored :
    (disk : Disk) (added : Bytes) (c d : Capture) (b : Budget)
    → d.reserved ≡ c.reserved
    → d.read ≡ c.read
    → d.overflow ≡ c.overflow
    → Stored c b (write_file disk added d b)
unfolding write_file
write_file-Stored disk added c d b r n o = elim (Bool-cases disk.writes) [
  | inl e ↦ rw (e, write_file) (kept (record d { stored = extend d.stored added }) r n o)
  | inr e ↦ rw (e, write_file) (gone d r)
]

spill-Stored :
    (disk : Disk) (added : Bytes) (c : Capture) (b : Budget) → Stored c b (spill disk added c b)
unfolding spill
spill-Stored disk added c b =
    let opened = record c { file_open = true; stored = some [] } in
    elim (Bool-cases disk.creates) [
      | inr e ↦ rw (e, spill) (gone c refl)
      | inl e ↦ elim (Bool-cases disk.copies) [
        | inr f ↦ rw (e, f, spill) (gone opened refl)
        | inl f ↦
            rw (e, f, spill)
              (write_file-Stored disk added c
                (record opened { buffer = []; stored = some c.buffer }) b refl refl refl)
      ]
    ]

store-Stored :
    (disk : Disk) (added : Bytes) (c : Capture) (b : Budget) → Stored c b (store disk added c b)
store-Stored disk added c b = elim (Bool-cases c.file_open) [
  | inl f ↦ rw (store_filed disk added c b f) (write_file-Stored disk added c c b refl refl refl)
  | inr f ↦
      elim (Bool-cases (leb (length c.buffer + length added) (min c.limit retry_memory_limit))) [
        | inl e ↦
            rw (store_small disk added c b f e)
              (kept (record c { buffer = c.buffer ++ added }) refl refl refl)
        | inr e ↦ rw (store_large disk added c b f e) (spill-Stored disk added c b)
      ]
]

-- What is read and not given up is reserved; what is given up is gone.
pub record Covered (c : Capture) : Type 0 where
  pub reads_reserved : c.overflow ≡ false → c.read ≤ c.reserved
  pub nothing_left : c.overflow ≡ true → (c.reserved ≡ 0) × (c.buffer ≡ []) × (c.stored ≡ none)

Stored-Pays : (c : Capture) (b : Budget) {r : Capture × Budget} → Stored c b r → Pays c b r.0 r.1
Stored-Pays c b (kept d r n o) = Pays-refl c d b r
Stored-Pays c b (gone d r) =
    Pays-trans c d (discard d b).0 b b (discard d b).1 (Pays-refl c d b r) (discard-Pays d b)

discard-Covered : (c : Capture) (b : Budget) → Covered (discard c b).0
unfolding emptied
discard-Covered c b =
    rw (discard_lem c b)
      (record { reads_reserved = λ h. cc; nothing_left = λ h. (refl, refl, refl) })

Stored-Covered :
    (c : Capture) (b : Budget) {r : Capture × Budget}
    → c.overflow ≡ false
    → c.read ≤ c.reserved
    → Stored c b r
    → Covered r.0
Stored-Covered c b o l (kept d r n e) = record {
  reads_reserved = λ h. omega (arith, r, n, l);
  nothing_left = λ h. cc;
}
Stored-Covered c b o l (gone d r) = discard-Covered d b

charge :
    (c : Capture) (b d : Budget)
    → d.limit ≡ b.limit
    → (b.used ≤ℤ b.limit → d.used ≤ℤ d.limit)
    → c.reserved < c.read
    → d.used ≡ b.used +ℤ pos (c.read - c.reserved)
    → Pays c b (record c { reserved = c.read }) d
charge c b d m u l a = record {
  balanced = eq_of_parts _ _ (omega (int_laws, ap pos_part a, ap neg_part a, l));
  limited = m;
  within = u;
}

Captured-Pays :
    (disk : Disk) (added : Bytes) (c : Capture) (b : Budget) {r : Capture × Budget}
    → Captured disk added c b r
    → Pays c b r.0 r.1
Captured-Pays disk added c b (skipped e) = Pays-refl c c b refl
Captured-Pays disk added c b (dropped e) = discard-Pays c b
Captured-Pays disk added c b (paid e l) = Stored-Pays c b (store-Stored disk added c b)
Captured-Pays disk added c b (charged d e l m u a) =
    let more = record c { reserved = c.read } in
    let (r, v) = store disk added more d in
    Pays-trans c more r b d v (charge c b d m u l a)
      (Stored-Pays more d (store-Stored disk added more d))

Captured-Covered :
    (disk : Disk) (added : Bytes) (c : Capture) (b : Budget) {r : Capture × Budget}
    → c.sealed ≡ false
    → (c.overflow ≡ true → (c.reserved ≡ 0) × (c.buffer ≡ []) × (c.stored ≡ none))
    → Captured disk added c b r
    → Covered r.0
Captured-Covered disk added c b s n (skipped e) = record {
  reads_reserved = λ h. cc;
  nothing_left = n;
}
Captured-Covered disk added c b s n (dropped e) = discard-Covered c b
Captured-Covered disk added c b s n (paid e l) =
    Stored-Covered c b (ground arith) l (store-Stored disk added c b)
Captured-Covered disk added c b s n (charged d e l m u a) =
    let more = record c { reserved = c.read } in
    Stored-Covered more d (ground arith) (omega arith) (store-Stored disk added more d)

take_in-Pays :
    (disk : Disk) (added : Bytes) (c : Capture) (b : Budget)
    → let r = take_in disk added c b in Pays c b r.0 r.1
unfolding take_in
take_in-Pays disk [] c b = Pays-refl c c b refl
take_in-Pays disk (x ∷ added) c b =
    let all = grown (x ∷ added) c in
    let (r, v) = capture disk (x ∷ added) all b in
    Pays-trans c all r b b v (Pays-refl c all b refl)
      (Captured-Pays disk (x ∷ added) all b (capture-Captured disk (x ∷ added) all b))

take_in-Covered :
    (disk : Disk) (added : Bytes) (c : Capture) (b : Budget)
    → c.sealed ≡ false
    → Covered c
    → Covered (take_in disk added c b).0
unfolding take_in
take_in-Covered disk [] c b s h = h
take_in-Covered disk (x ∷ added) c b s h =
    let all = grown (x ∷ added) c in
    Captured-Covered disk (x ∷ added) all b s h.nothing_left
      (capture-Captured disk (x ∷ added) all b)

mark-Pays :
    (ended : Bool) (c d : Capture) (b v : Budget)
    → Pays c b d v
    → let r = mark ended (d, v) in Pays c b r.0 r.1
mark-Pays ended c d b v h = elim (Bool-cases (ended || is_length d.content_length d.read)) [
  | inl e ↦ rw e (
      Pays-trans c d (record d { complete = true }) b v v h
        (Pays-refl d (record d { complete = true }) v refl))
  | inr e ↦ rw e h
]

mark-Covered : (ended : Bool) (c : Capture) (b : Budget) → Covered c → Covered (mark ended (c, b)).0
mark-Covered ended c b h = elim (Bool-cases (ended || is_length c.content_length c.read)) [
  | inl e ↦ rw e (record { reads_reserved = h.reads_reserved; nothing_left = h.nothing_left })
  | inr e ↦ rw e h
]

pub read_chunks-Pays :
    (ks : List Chunk) (c : Capture) (b : Budget) → let r = read_chunks ks c b in Pays c b r.0 r.1
unfolding read_chunks read_chunk
read_chunks-Pays [] c b = Pays-refl c c b refl
read_chunks-Pays (k ∷ ks) c b =
    let (taken, left) = take_in k.disk k.added c b in
    let (d, v) = mark k.ended (taken, left) in
    let (e, u) = read_chunks ks d v in
    Pays-trans c d e b v u (mark-Pays k.ended c taken b left (take_in-Pays k.disk k.added c b))
      (read_chunks-Pays ks d v)

pub read_chunks-Covered :
    (ks : List Chunk) (all : Bytes) (c : Capture) (b : Budget)
    → Holds all c
    → Covered c
    → Covered (read_chunks ks c b).0
unfolding read_chunks read_chunk
read_chunks-Covered [] all c b h k = k
read_chunks-Covered (k ∷ ks) all c b h p =
    let (taken, left) = take_in k.disk k.added c b in
    let (d, v) = mark k.ended (taken, left) in
    read_chunks-Covered ks (all ++ k.added) d v (read_chunk-Holds k all c b h)
      (mark-Covered k.ended taken left (take_in-Covered k.disk k.added c b h.unsealed p))

-- What the capture keeps, in memory or in its file.
pub held : Capture → ℕ
held c = length c.buffer + elim c.stored as (λ _. ℕ) [ none ↦ 0 | some bytes ↦ length bytes ]

-- All that is kept is reserved.
pub held_reserved : (all : Bytes) (c : Capture) → Holds all c → Covered c → held c ≤ c.reserved
unfolding held
held_reserved all c h p = elim (Bool-cases c.overflow) [
  | inl e ↦ let (r, n, f) = p.nothing_left e in rw (n, f) (omega arith)
  | inr e ↦ elim h.place [
    | lost l ↦ cc
    | buffered f g q ↦ rw g (omega (arith, h.counted, p.reads_reserved e, ap length q))
    | filed f q g ↦ rw g (omega (arith, h.counted, p.reads_reserved e, ap length q))
  ]
]
