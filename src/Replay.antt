-- ===== src/Replay.antt =====
-- `bodyReplay` of internal/proxy/transport.go: the body of a request for its first attempt and for
-- the later ones.
pub mod Kept
pub mod Paid
mod Tests
use nirn_proxy.Budget
use nirn_proxy.Budget.{Budget}
use nirn_proxy.Capture
use nirn_proxy.Capture.{
  Capture, Chunk, Replayed, not_kept, in_memory, in_file, close_failed, read_chunks, replay,
}
use nirn_proxy.Base.{
  ℕ, zero, suc, Bool, true, false, not, ◌&&◌, ◌||◌, Option, none, some, List, [], ◌=ᵇ◌,
  if◌then◌else◌, length, ℤ, pos_part, ltb_ℤ, leb_ℤ, pos, negsuc, Bytes,
}

-- What a request has for a body: none, one with `GetBody`, or one that can be read once.
pub data Source : Type 0 where
  no_body : Source
  rewindable : Source
  once : Source

-- `kept` is the field `data`, and `named` whether `fileName` is not empty: it is then the name of
-- the capture's file.
pub record BodyReplay : Type 0 where
  pub has_first : Bool
  pub get_body : Bool
  pub captured : Option Capture
  pub kept : Bytes
  pub named : Bool
  pub prepared : Bool

abbrev plain : Bool → Bool → Option Capture → BodyReplay
plain has_first get_body captured = record {
  has_first = has_first;
  get_body = get_body;
  captured = captured;
  kept = [];
  named = false;
  prepared = false;
}

abbrev pub new_capture : ℤ → ℕ → Bool → ℕ → Capture
new_capture content_length limit overflow reserved = record {
  buffer = [];
  file_open = false;
  stored = none;
  limit = limit;
  content_length = content_length;
  read = 0;
  complete = false;
  overflow = overflow;
  sealed = false;
  reserved = reserved;
}

abbrev pub capturing : Capture → BodyReplay
capturing c = plain true false (some c)

-- Zero with a body is an unknown length.
abbrev pub known_length : ℤ → ℤ
known_length (pos n) = if n =ᵇ 0 then negsuc 0 else pos n
known_length (negsuc n) = negsuc n

-- The capture for a body that can be read once, with what it reserves at once; none with an error.
pub new_captured : ℤ → ℕ → Budget → Option BodyReplay × Budget
new_captured content_length limit b =
    let (b', reserved) = Budget.reserve content_length b in
    if ltb_ℤ (pos limit) content_length
    then (some (capturing (new_capture content_length limit true 0)), b)
    else if leb_ℤ b.limit (pos 0) && leb_ℤ (pos 0) b.limit
    then (some (capturing (new_capture content_length limit true 0)), b)
    else if not (ltb_ℤ (pos 0) content_length)
    then (some (capturing (new_capture content_length limit false 0)), b)
    else if reserved
    then (some (capturing (new_capture content_length limit false (pos_part content_length))), b')
    else (none, b')

-- `newBodyReplay`
unfoldable pub new_body_replay : Source → ℤ → ℕ → Budget → Option BodyReplay × Budget
unfolding new_captured
new_body_replay no_body content_length limit b = (some (plain false false none), b)
new_body_replay rewindable content_length limit b = (some (plain true true none), b)
new_body_replay once content_length limit b = new_captured (known_length content_length) limit b

-- The first attempt reads the body through the capture.
unfoldable pub read_body : List Chunk → BodyReplay → Budget → BodyReplay × Budget
read_body ks r b = elim r.captured [
  | none ↦ (r, b)
  | some c ↦ let (d, v) = read_chunks ks c b in (record r { captured = some d }, v)
]

-- What `prepareRetry` answers.
pub data Prepared : Type 0 where
  ready : Prepared
  not_ready : Prepared
  failed : Prepared

abbrev pub with_replayed : BodyReplay → Capture × Replayed → BodyReplay × Prepared
with_replayed r (c, not_kept) = (record r { captured = some c }, not_ready)
with_replayed r (c, close_failed) = (record r { captured = some c }, failed)
with_replayed r (c, in_memory bytes) =
    (record r { captured = some c; kept = bytes; named = false; prepared = true }, ready)
with_replayed r (c, in_file) =
    (record r { captured = some c; kept = []; named = true; prepared = true }, ready)

-- `prepareRetry`, with whether the file could be closed. A first body without `GetBody` has a
-- capture.
unfoldable pub prepare_retry : Bool → BodyReplay → BodyReplay × Prepared
prepare_retry closes r =
    if r.get_body || not r.has_first
    then (record r { prepared = true }, ready)
    else if r.prepared
    then (r, ready)
    else elim r.captured [ none ↦ (r, failed) | some c ↦ with_replayed r (replay closes c) ]

-- The body for an attempt: the request's own, none, bytes to send again, or an error.
pub data Body : Type 0 where
  original : Body
  nothing : Body
  again : Bytes → Body
  missing : Body

-- What the environment answers: what `GetBody` gives, and whether files can be closed and opened.
pub record Answers : Type 0 where
  pub fresh : Option Bytes
  pub closes : Bool
  pub opens : Bool

abbrev of_option : Option Bytes → Body
of_option none = missing
of_option (some bytes) = again bytes

abbrev stored_in : Option Capture → Option Bytes
stored_in none = none
stored_in (some c) = c.stored

abbrev has_capture : Option Capture → Bool
has_capture none = false
has_capture (some c) = true

-- The end of `body`, once the retry is prepared.
prepared_body : Answers → BodyReplay → Body
prepared_body answers r =
    if r.named
    then (if answers.opens then of_option (stored_in r.captured) else missing)
    else if not (has_capture r.captured)
    then nothing
    else again r.kept

abbrev after_prepare : Answers → BodyReplay × Prepared → BodyReplay × Body
after_prepare answers (r, ready) = (r, prepared_body answers r)
after_prepare answers (r, not_ready) = (r, missing)
after_prepare answers (r, failed) = (r, missing)

-- `body`, with the number of the attempt.
pub body : Answers → ℕ → BodyReplay → BodyReplay × Body
unfolding prepare_retry prepared_body
body answers zero r = (r, if r.has_first then original else nothing)
body answers (suc attempt) r =
    if not r.has_first && not r.get_body && not (has_capture r.captured)
    then (r, nothing)
    else if r.get_body
    then (r, of_option answers.fresh)
    else if r.prepared
    then (r, prepared_body answers r)
    else after_prepare answers (prepare_retry answers.closes r)

-- `close`
pub close : BodyReplay → Budget → BodyReplay × Budget
close r b = elim r.captured [
  | none ↦ (r, b)
  | some c ↦ let (d, v) = Capture.cleanup c b in (record r { captured = some d; named = false }, v)
]
