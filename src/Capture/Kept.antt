-- ===== src/Capture/Kept.antt =====
-- What a capture holds is what was read.
use nirn_proxy.Budget.{Budget}
use nirn_proxy.Capture.Paths.{
  store_filed, store_small, store_large, Captured, skipped, dropped, paid, charged,
  capture-Captured,
}
use nirn_proxy.Capture.{
  not_kept, close_failed, retry_memory_limit, Capture, Disk, Chunk, discard, write_file, spill,
  store, grown, mark, read_chunk, read_chunks, is_length, retry_memory_limit, take_in, replay,
  in_file, in_memory, Replayed,
}
use nirn_proxy.Base.{
  ℕ, ◌+◌, min, ◌≡◌, refl, ap, inl, inr, Bool, true, false, not, ◌||◌, none, some, List, [], ◌∷◌,
  ◌++◌, append_assoc, append-nil, arith, leb, Bool-cases, length, length-append, all, Bytes, before,
}

-- All bytes read are in the buffer, or in the file, or lost.
pub data Place (all : Bytes) (c : Capture) : Type 0 where
  lost : c.overflow ≡ true → Place all c
  buffered : c.file_open ≡ false → c.stored ≡ none → c.buffer ≡ all → Place all c
  filed : c.file_open ≡ true → c.buffer ≡ [] → c.stored ≡ some all → Place all c

pub record Holds (all : Bytes) (c : Capture) : Type 0 where
  pub counted : c.read ≡ length all
  pub unsealed : c.sealed ≡ false
  pub place : Place all c

discard-Holds :
    (all : Bytes) (c : Capture) (b : Budget)
    → c.read ≡ length all
    → c.sealed ≡ false
    → Holds all (discard c b).0
unfolding discard
discard-Holds all c b r s = record {
  counted = ground arith;
  unsealed = ground arith;
  place = lost (ground arith);
}

write_file-Holds :
    (disk : Disk) (before added : Bytes) (c : Capture) (b : Budget)
    → c.read ≡ length (before ++ added)
    → c.sealed ≡ false
    → c.file_open ≡ true
    → c.buffer ≡ []
    → c.stored ≡ some before
    → Holds (before ++ added) (write_file disk added c b).0
unfolding write_file
write_file-Holds disk before added c b r s o p f = elim (Bool-cases disk.writes) [
  | inl e ↦ rw (e, write_file) (record { counted = r; unsealed = s; place = filed o p (rw f refl) })
  | inr e ↦ rw (e, write_file) (discard-Holds (before ++ added) c b r s)
]

spill-Holds :
    (disk : Disk) (before added : Bytes) (c : Capture) (b : Budget)
    → c.read ≡ length (before ++ added)
    → c.sealed ≡ false
    → c.buffer ≡ before
    → Holds (before ++ added) (spill disk added c b).0
unfolding spill
spill-Holds disk before added c b r s p =
    let opened = record c { file_open = true; stored = some [] } in
    let moved = record opened { buffer = []; stored = some c.buffer } in
    elim (Bool-cases disk.creates) [
      | inr e ↦ rw (e, spill) (discard-Holds (before ++ added) c b r s)
      | inl e ↦ elim (Bool-cases disk.copies) [
        | inr f ↦ rw (e, f, spill) (discard-Holds (before ++ added) opened b r s)
        | inl f ↦
            rw (e, f, spill) (write_file-Holds disk before added moved b r s refl refl (ap some p))
      ]
    ]

store-Holds :
    (disk : Disk) (before added : Bytes) (c : Capture) (b : Budget)
    → c.overflow ≡ false
    → c.read ≡ length (before ++ added)
    → c.sealed ≡ false
    → Place before c
    → Holds (before ++ added) (store disk added c b).0
store-Holds disk before added c b o r s (lost l) = cc
store-Holds disk before added c b o r s (filed f e g) =
    rw (store_filed disk added c b f) (write_file-Holds disk before added c b r s f e g)
store-Holds disk before added c b o r s (buffered f g p) =
    elim (Bool-cases (leb (length c.buffer + length added) (min c.limit retry_memory_limit))) [
      | inl e ↦
          rw (store_small disk added c b f e)
            (record { counted = r; unsealed = s; place = buffered f g (ap (λ x. x ++ added) p) })
      | inr e ↦ rw (store_large disk added c b f e) (spill-Holds disk before added c b r s p)
    ]

Place-reserved :
    (all : Bytes) (c : Capture) (n : ℕ) → Place all c → Place all (record c { reserved = n })
Place-reserved all c n (lost e) = lost e
Place-reserved all c n (buffered f g h) = buffered f g h
Place-reserved all c n (filed f e g) = filed f e g

Place-grown : (all added : Bytes) (c : Capture) → Place all c → Place all (grown added c)
Place-grown all added c (lost e) = lost e
Place-grown all added c (buffered f g h) = buffered f g h
Place-grown all added c (filed f e g) = filed f e g

Place-complete :
    (all : Bytes) (c : Capture) → Place all c → Place all (record c { complete = true })
Place-complete all c (lost e) = lost e
Place-complete all c (buffered f g h) = buffered f g h
Place-complete all c (filed f e g) = filed f e g

-- A call that got some bytes adds them to what is held.
Captured-Holds :
    (disk : Disk) (before added : Bytes) (c : Capture) (b : Budget) {r : Capture × Budget}
    → c.read ≡ length (before ++ added)
    → c.sealed ≡ false
    → Place before c
    → Captured disk added c b r
    → Holds (before ++ added) r.0
Captured-Holds disk before added c b n s p (skipped e) = record {
  counted = n;
  unsealed = s;
  place = lost (ground arith);
}
Captured-Holds disk before added c b n s p (dropped e) = discard-Holds (before ++ added) c b n s
Captured-Holds disk before added c b n s p (paid e l) =
    store-Holds disk before added c b (ground arith) n s p
Captured-Holds disk before added c b n s p (charged d e l m u a) =
    store-Holds disk before added (record c { reserved = c.read }) d (ground arith) n s
      (Place-reserved before c c.read p)

take_in-Holds :
    (disk : Disk) (before added : Bytes) (c : Capture) (b : Budget)
    → Holds before c
    → Holds (before ++ added) (take_in disk added c b).0
unfolding take_in
take_in-Holds disk before [] c b h = rw append-nil h
take_in-Holds disk before (x ∷ added) c b h =
    Captured-Holds disk before (x ∷ added) (grown (x ∷ added) c) b
      (omega (arith, h.counted, length-append before (x ∷ added))) h.unsealed
      (Place-grown before (x ∷ added) c h.place)
      (capture-Captured disk (x ∷ added) (grown (x ∷ added) c) b)

mark-Holds :
    (ended : Bool) (all : Bytes) (c : Capture) (b : Budget)
    → Holds all c
    → Holds all (mark ended (c, b)).0
mark-Holds ended all c b h = elim (Bool-cases (ended || is_length c.content_length c.read)) [
  | inl e ↦
      rw e (record {
        counted = h.counted;
        unsealed = h.unsealed;
        place = Place-complete all c h.place;
      })
  | inr e ↦ rw e h
]

pub read_chunk-Holds :
    (k : Chunk) (all : Bytes) (c : Capture) (b : Budget)
    → Holds all c
    → Holds (all ++ k.added) (read_chunk k c b).0
unfolding read_chunk
read_chunk-Holds k all c b h =
    let (taken, rest) = take_in k.disk k.added c b in
    mark-Holds k.ended (all ++ k.added) taken rest (take_in-Holds k.disk all k.added c b h)

-- All bytes that some calls got.
pub bytes_of : List Chunk → Bytes
bytes_of [] = []
bytes_of (k ∷ ks) = k.added ++ bytes_of ks

pub read_chunks-Holds :
    (ks : List Chunk) (all : Bytes) (c : Capture) (b : Budget)
    → Holds all c
    → Holds (all ++ bytes_of ks) (read_chunks ks c b).0
unfolding read_chunks bytes_of
read_chunks-Holds [] all c b h = rw append-nil h
read_chunks-Holds (k ∷ ks) all c b h =
    let (c', b') = read_chunk k c b in
    rw (← append_assoc) (read_chunks-Holds ks (all ++ k.added) c' b' (read_chunk-Holds k all c b h))

-- What is sent again is what was read, all of it, if the body was read to its end.
pub data Replays (all : Bytes) (c : Capture) : Capture × Replayed → Type 0 where
  unkept : Replays all c (c, not_kept)
  memory :
      c.complete ≡ true → Replays all c (record c { sealed = true; buffer = [] }, in_memory all)
  file :
      c.complete ≡ true
      → c.stored ≡ some all
      → Replays all c (record c { sealed = true; file_open = false }, in_file)
  unclosed : Replays all c (record c { sealed = true; file_open = false }, close_failed)

replay_kept :
    (all : Bytes) (closes : Bool) (c : Capture)
    → (not c.complete || c.overflow) ≡ false
    → Place all c
    → Replays all c (replay closes c)
unfolding replay
replay_kept all closes c e (lost l) = absurd (ground arith)
replay_kept all closes c e (buffered f g p) =
    let found : replay closes c ≡ (record c { sealed = true; buffer = [] }, in_memory all) =
      ground arith in
    rw found (memory (ground arith))
replay_kept all true c e (filed f p g) =
    let found : replay true c ≡ (record c { sealed = true; file_open = false }, in_file) =
      ground arith in
    rw found (file (ground arith) g)
replay_kept all false c e (filed f p g) =
    let found : replay false c ≡ (record c { sealed = true; file_open = false }, close_failed) =
      ground arith in
    rw found unclosed

pub replay-Replays :
    (all : Bytes) (closes : Bool) (c : Capture) → Holds all c → Replays all c (replay closes c)
unfolding replay
replay-Replays all closes c h = elim (Bool-cases (not c.complete || c.overflow)) [
  | inl e ↦ rw (e, replay) unkept
  | inr e ↦ replay_kept all closes c e h.place
]
