-- ===== src/Lifecycle/Caa.antt =====
-- lifecycle/caa.go: the DNS query for CAA records, and the parsing of its answer. A message is the list
-- of its bytes. A step gives `none` where Go panics on an index or a slice out of range, or where the
-- rounds of a loop are used up; an error is a value.
pub mod Safe
pub mod RoundTrip
use ano_pki_community.Common.{
  ℕ, zero, suc, ◌+◌, ◌-◌, ◌*◌, ◌/◌, ◌%◌, Bool, true, false, not, ◌&&◌, ◌||◌, Option, none, some,
  List, [], ◌∷◌, ◌++◌, length, take, drop, leb, ltb, eqb, if◌then◌else◌, Result, ok, err, Error,
}

pub data DnssecStatus : Type 0 where
  secure insecure bogus indeterminate : DnssecStatus

pub record CaaRecord : Type 0 where
  pub flag : ℕ
  pub tag : List ℕ
  pub value : List ℕ

pub record CaaLookupResult : Type 0 where
  pub records : List CaaRecord
  pub dnssec_status : DnssecStatus

abbrev pub Run {ℓ} : Type ℓ → Type ℓ
Run A = Option (Result A)

abbrev pub yields : {A : Type 0} → A → Run A
yields a = some (ok a)

unfoldable pub run_then : {A B : Type 0} → Run A → (A → Run B) → Run B
run_then none f = none
run_then (some (err x)) f = some (err x)
run_then (some (ok a)) f = f a

infixl 5 ◌>>=◌ ◌>>◌
abbrev pub ◌>>=◌ : {A B : Type 0} → Run A → (A → Run B) → Run B
m >>= f = run_then m f

abbrev pub ◌>>◌ : {B : Type 0} → Run (Unit {0}) → Run B → Run B
m >> k = run_then m λ _. k

-- An access that panics out of range, and `if bad { return domain.ErrInvalidRequest }`.
unfoldable pub access : {A : Type 0} → Option A → Run A
access none = none
access (some a) = yields a

unfoldable pub refuse : Bool → Run (Unit {0})
refuse true = some (err Error.invalid_request)
refuse false = yields tt

unfoldable pub byte_at : List ℕ → ℕ → Option ℕ
byte_at [] i = none
byte_at (b ∷ bytes) zero = some b
byte_at (b ∷ bytes) (suc i) = byte_at bytes i

-- bytes[from:to].
unfoldable pub slice : List ℕ → ℕ → ℕ → Option (List ℕ)
slice bytes from to =
    if leb from to && leb to (length bytes) then some (take (to - from) (drop from bytes)) else none

-- binary.BigEndian.Uint16 of two bytes.
unfoldable pub uint16_at : List ℕ → ℕ → Run ℕ
uint16_at message i = do
  high ← access (byte_at message i)
  low ← access (byte_at message (i + 1))
  yields (high * 256 + low)

-- What a round of skipDNSName does with the length that it has read before `offset`.
abbrev after_length : (ℕ → Run ℕ) → List ℕ → ℕ → ℕ → Run ℕ
after_length rest message offset label_length =
    if eqb label_length 0
    then yields offset
    else if eqb (label_length / 64 % 4) 3
    then (refuse (leb (length message) offset) >> yields (offset + 1))
    else (refuse (ltb (length message) (offset + label_length)) >> rest (offset + label_length))

unfoldable pub skip_rounds : ℕ → List ℕ → ℕ → Run ℕ
skip_rounds zero message offset = none
skip_rounds (suc fuel) message offset =
    let rest = skip_rounds fuel message in
    refuse (leb (length message) offset)
    >> (access (byte_at message offset) >>= after_length rest message (offset + 1))

unfoldable pub skip_dns_name : List ℕ → ℕ → Run ℕ
skip_dns_name message offset = skip_rounds (length message + 1) message offset

unfoldable pub skip_questions : ℕ → List ℕ → ℕ → Run ℕ
skip_questions zero message offset = yields offset
skip_questions (suc n) message offset =
    let rest = skip_questions n message in
    skip_dns_name message offset >>= λ next.
    refuse (ltb (length message) (next + 4)) >> rest (next + 4)

unfoldable pub tagged : List ℕ → List CaaRecord → ℕ → Run (List CaaRecord)
tagged rdata records tag_length =
    if leb (2 + tag_length) (length rdata)
    then (do
      flag ← access (byte_at rdata 0)
      tag ← access (slice rdata 2 (2 + tag_length))
      value ← access (slice rdata (2 + tag_length) (length rdata))
      yields (records ++ record { flag = flag; tag = tag; value = value } ∷ []))
    else yields records

abbrev pub dns_type_caa : ℕ
dns_type_caa = 257

-- A resource record whose data begin at `offset`.
unfoldable pub read_record : List ℕ → ℕ → ℕ → ℕ → ℕ → List CaaRecord → Run (List CaaRecord)
read_record message offset rd_length rr_type rr_class records =
    if eqb rr_type dns_type_caa && eqb rr_class 1 && leb 2 rd_length
    then (do
      rdata ← access (slice message offset (offset + rd_length))
      tag_length ← access (byte_at rdata 1)
      tagged rdata records tag_length)
    else yields records

unfoldable pub read_records : ℕ → List ℕ → ℕ → List CaaRecord → Run (List CaaRecord)
read_records zero message offset records = yields records
read_records (suc n) message offset records =
    let rest = read_records n message in
    do
      next ← skip_dns_name message offset
      refuse (ltb (length message) (next + 10))
      rr_type ← uint16_at message next
      rr_class ← uint16_at message (next + 2)
      rd_length ← uint16_at message (next + 8)
      refuse (ltb (length message) (next + 10 + rd_length))
      more ← read_record message (next + 10) rd_length rr_type rr_class records
      rest (next + 10 + rd_length) more

-- flags & 0x0020 and flags & 0x000f.
abbrev status_of : ℕ → DnssecStatus
status_of flags = if eqb (flags / 32 % 2) 1 then DnssecStatus.secure else DnssecStatus.indeterminate

abbrev has_records : List CaaRecord → Bool
has_records [] = false
has_records (r ∷ records) = true

abbrev pub parse_answers : List ℕ → ℕ → Run (CaaLookupResult × Bool)
parse_answers message flags = do
  qd ← uint16_at message 4
  an ← uint16_at message 6
  offset ← skip_questions qd message 12
  records ← read_records an message offset []
  yields (record { records = records; dnssec_status = status_of flags }, has_records records)

abbrev pub parse_by_code : List ℕ → ℕ → Run (CaaLookupResult × Bool)
parse_by_code message flags =
    let rcode = flags % 16 in
    if eqb rcode 2
    then yields (record { records = []; dnssec_status = DnssecStatus.bogus }, true)
    else if eqb rcode 3
    then yields (record { records = []; dnssec_status = status_of flags }, false)
    else if not (eqb rcode 0)
    then some (err (Error.other_error "dns response rcode"))
    else parse_answers message flags

unfoldable pub parse_caa_response : List ℕ → ℕ → Run (CaaLookupResult × Bool)
parse_caa_response message id = do
  refuse (ltb (length message) 12)
  got ← uint16_at message 0
  refuse (not (eqb got id))
  flags ← uint16_at message 2
  parse_by_code message flags

abbrev pub with_label : List ℕ → Result (List ℕ) → Result (List ℕ)
with_label label (ok bytes) = ok ((length label % 256) ∷ label ++ bytes)
with_label label (err x) = err x

-- The labels of buildCAAQuery's loop, each with its length before it.
unfoldable pub encode_labels : List (List ℕ) → Result (List ℕ)
encode_labels [] = ok []
encode_labels (label ∷ labels) =
    let rest = encode_labels labels in
    if eqb (length label) 0 || ltb 63 (length label)
    then err Error.invalid_request
    else with_label label rest

abbrev pub query_header : ℕ → List ℕ
query_header id = (id / 256 % 256) ∷ (id % 256) ∷ 1 ∷ 0 ∷ 0 ∷ 1 ∷ 0 ∷ 0 ∷ 0 ∷ 0 ∷ 0 ∷ 0 ∷ []

abbrev pub with_question : ℕ → Result (List ℕ) → Result (List ℕ)
with_question id (ok name) = ok (query_header id ++ name ++ 0 ∷ 1 ∷ 1 ∷ 0 ∷ 1 ∷ [])
with_question id (err x) = err x

-- buildCAAQuery for a random id and the labels that strings.Split finds in the name.
unfoldable pub build_caa_query : ℕ → List (List ℕ) → Result (List ℕ)
build_caa_query id labels = with_question id (encode_labels labels)
