-- ===== src/Capture.antt =====
-- `captureBody` of internal/proxy/transport.go: what passes through a request's body is kept, in
-- memory or in a temporary file, so that it can be sent again. The mutex makes each call one step.
-- What the file system answers comes with each call.
pub mod Paths
pub mod Kept
pub mod Paid
use nirn_proxy.Budget
use nirn_proxy.Budget.{Budget}
use nirn_proxy.Base.{
  ℕ, ◌+◌, ◌-◌, min, Bool, true, false, not, ◌||◌, Option, none, some, List, [], ◌∷◌, ◌++◌, ltb, leb,
  ◌=ᵇ◌, if◌then◌else◌, length, take, ℤ, pos, negsuc, Bytes, before,
}

abbrev pub retry_memory_limit : ℕ
retry_memory_limit = 1_048_576

-- `stored` is the file that `fileName` names, if there is one, and `file_open` says whether the
-- capture still writes to it. `limit` is not negative, which `New` sees to.
pub record Capture : Type 0 where
  pub buffer : Bytes
  pub file_open : Bool
  pub stored : Option Bytes
  pub limit : ℕ
  pub content_length : ℤ
  pub read : ℕ
  pub complete : Bool
  pub overflow : Bool
  pub sealed : Bool
  pub reserved : ℕ

-- Whether a file can be made, can take over the buffer, and can take the bytes of a call.
pub record Disk : Type 0 where
  pub creates : Bool
  pub copies : Bool
  pub writes : Bool

release_reservation : Capture → Budget → Capture × Budget
release_reservation c b =
    if c.reserved =ᵇ 0
    then (c, b)
    else (record c { reserved = 0 }, Budget.release (pos c.reserved) b)

pub discard : Capture → Budget → Capture × Budget
unfolding release_reservation
discard c b =
    release_reservation
      (record c { overflow = true; buffer = []; file_open = false; stored = none }) b

abbrev pub extend : Option Bytes → Bytes → Option Bytes
extend none added = none
extend (some bytes) added = some (bytes ++ added)

pub write_file : Disk → Bytes → Capture → Budget → Capture × Budget
unfolding discard
write_file disk added c b =
    if disk.writes then (record c { stored = extend c.stored added }, b) else discard c b

-- The first bytes that go to a file: the buffer goes before them.
pub spill : Disk → Bytes → Capture → Budget → Capture × Budget
unfolding write_file
spill disk added c b =
    let opened = record c { file_open = true; stored = some [] } in
    if not disk.creates
    then discard c b
    else if not disk.copies
    then discard opened b
    else write_file disk added (record opened { buffer = []; stored = some c.buffer }) b

pub store : Disk → Bytes → Capture → Budget → Capture × Budget
unfolding spill
store disk added c b =
    if c.file_open
    then write_file disk added c b
    else if leb (length c.buffer + length added) (min c.limit retry_memory_limit)
    then (record c { buffer = c.buffer ++ added }, b)
    else spill disk added c b

-- `captureLocked`
pub capture : Disk → Bytes → Capture → Budget → Capture × Budget
unfolding store
capture disk added c b =
    let (b', reserved) = Budget.reserve (pos (c.read - c.reserved)) b in
    if c.overflow || c.sealed
    then (c, b)
    else if ltb c.limit c.read
    then discard c b
    else if not (ltb c.reserved c.read)
    then store disk added c b
    else if reserved
    then store disk added (record c { reserved = c.reserved + (c.read - c.reserved) }) b'
    else discard c b'

-- One call of `Read` that got `added`, with whether it met the end of the body.
pub record Chunk : Type 0 where
  pub disk : Disk
  pub added : Bytes
  pub ended : Bool

abbrev pub is_length : ℤ → ℕ → Bool
is_length (pos n) read = read =ᵇ n
is_length (negsuc n) read = false

abbrev pub grown : Bytes → Capture → Capture
grown added c = record c { read = c.read + length added }

abbrev pub mark : Bool → Capture × Budget → Capture × Budget
mark ended (c, b) =
    (if ended || is_length c.content_length c.read then record c { complete = true } else c, b)

-- What `Read` does with the bytes that it got.
pub take_in : Disk → Bytes → Capture → Budget → Capture × Budget
unfolding capture
take_in disk [] c b = (c, b)
take_in disk (x ∷ added) c b = capture disk (x ∷ added) (grown (x ∷ added) c) b

-- `Read`
pub read_chunk : Chunk → Capture → Budget → Capture × Budget
unfolding take_in
read_chunk k c b = mark k.ended (take_in k.disk k.added c b)

unfoldable pub read_chunks : List Chunk → Capture → Budget → Capture × Budget
unfolding read_chunk
read_chunks [] c b = (c, b)
read_chunks (k ∷ ks) c b = let (c', b') = read_chunk k c b in read_chunks ks c' b'

-- What `replay` returns: nothing to send again, the bytes, the name of the file, or an error.
pub data Replayed : Type 0 where
  not_kept : Replayed
  in_memory : Bytes → Replayed
  in_file : Replayed
  close_failed : Replayed

-- `replay`, with whether the file could be closed.
unfoldable pub replay : Bool → Capture → Capture × Replayed
replay closes c =
    if not c.complete || c.overflow
    then (c, not_kept)
    else if not c.file_open
    then (record c { sealed = true; buffer = [] }, in_memory c.buffer)
    else (record c { sealed = true; file_open = false }, if closes then in_file else close_failed)

pub cleanup : Capture → Budget → Capture × Budget
unfolding discard
cleanup c b = discard c b
