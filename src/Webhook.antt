-- ===== src/Webhook.antt =====
-- core/webhook.py: the signature of a webhook, its headers and what its post answers, the check of a
-- signature, and the guard on a target's address. HMAC, the post itself, and Python's parsing of
-- addresses are parameters.
pub mod Signed
mod Tests
use mock_sim.Base.{
  ℕ, ◌+◌, ◌-◌, ◌*◌, ◌/◌, Bool, true, false, not, ◌&&◌, ◌||◌, Option, none, some, List, [], ◌∷◌,
  ◌++◌, Text, codes, text_eq, lower, is_member, ltb, leb, ◌==◌, if◌then◌else◌,
}
use mock_sim.Base.Int.{ℤ, pos, negsuc, abs_ℤ, ◌-ℤ◌, pos_part, ◌*ℤ◌, leb_ℤ, ltb_ℤ}
use mock_sim.Errors.{Error, python_error}
use mock_sim.Models.{Payload, WebhookOutbox, WebhookFormat, per_event, trazmo_settlement}
use mock_sim.Session.{Result, ok, err}
use mock_sim.Calendar.{microseconds_per_second}
use mock_sim.Decimal.{str_nat, str_int, int_text}

-- `str.split` on one character
unfoldable pub split : ℕ → Text → List Text
split c [] = [] ∷ []
split c (x ∷ s) =
    let rest = split c s in
    if x == c then [] ∷ rest else elim rest [ [] ↦ (x ∷ []) ∷ [] | p ∷ ps ↦ (x ∷ p) ∷ ps ]

-- `str.split(c, 1)` of a text that has the character
unfoldable pub split_once : ℕ → Text → Option (Text × Text)
split_once c [] = none
split_once c (x ∷ s) =
    let rest = split_once c s in
    if x == c then some ([], s) else elim rest [ none ↦ none | some (a, b) ↦ some (x ∷ a, b) ]

-- `dict(...)` of pairs, where a later one counts, and `get`
abbrev pub pairs_of : List Text → List (Text × Text)
pairs_of [] = []
pairs_of (p ∷ ps) =
    let rest = pairs_of ps in elim (split_once b'=' p) [ none ↦ rest | some kv ↦ kv ∷ rest ]

unfoldable pub last_get : Text → List (Text × Text) → Option Text
last_get k [] = none
last_get k ((j, v) ∷ rest) =
    let later = last_get k rest in
    elim later [ some w ↦ some w | none ↦ (if text_eq j k then some v else none) ]

module _ (hmac : Text → Text → Text) where
  -- `_sign`
  unfoldable pub sign : Text → ℤ → Text → Text
  sign secret timestamp body = hmac secret (str_int timestamp ++ b'.' ∷ body)

  -- `abs(time.time() - ts) > tolerance_seconds`, with the time in microseconds
  abbrev pub is_stale : ℕ → ℤ → ℕ → Bool
  is_stale now ts tolerance =
      ltb (tolerance * microseconds_per_second)
        (pos_part (abs_ℤ (pos now -ℤ ts *ℤ pos microseconds_per_second)))

  unfoldable pub check_at : Text → Text → Text → ℕ → ℕ → Result ℤ → Bool
  check_at secret v1 body tolerance now (err e) = false
  check_at secret v1 body tolerance now (ok ts) =
      not (is_stale now ts tolerance) && text_eq (sign secret ts body) v1

  -- `not t or not v1`: an empty text counts as none. A timestamp in a form of `int` other than digits,
  -- with or without a minus, is taken as one that is not read.
  unfoldable pub check_parts : Text → Text → ℕ → ℕ → Option Text → Option Text → Bool
  check_parts secret body tolerance now (some (c ∷ t)) (some (d ∷ v1)) =
      check_at secret (d ∷ v1) body tolerance now (int_text (c ∷ t))
  check_parts secret body tolerance now (some (c ∷ t)) (some []) = false
  check_parts secret body tolerance now (some (c ∷ t)) none = false
  check_parts secret body tolerance now (some []) v1 = false
  check_parts secret body tolerance now none v1 = false

  -- `verify_signature`
  unfoldable pub verify_signature : ℕ → Text → Text → Text → ℕ → Bool
  verify_signature now secret header body tolerance =
      let parts = pairs_of (split b',' header) in
      check_parts secret body tolerance now (last_get (codes "t") parts)
        (last_get (codes "v1") parts)

  abbrev pub signature_header : Text → ℕ → Text → Text
  signature_header secret ts body =
      codes "t=" ++ (str_nat ts ++ (codes ",v1=" ++ sign secret (pos ts) body))

  -- The headers of a post.
  unfoldable pub webhook_headers :
      WebhookFormat → Text → ℕ → Text → Text → Text → Text → List (Text × Text)
  webhook_headers trazmo_settlement secret now body event_id event_type partition_key =
      (codes "Content-Type", codes "application/json")
      ∷ (codes "X-Acquirer-Signature", hmac secret body)
      ∷ (codes "X-MockSim-Event-Id", event_id)
      ∷ []
  webhook_headers per_event secret now body event_id event_type partition_key =
      (codes "Content-Type", codes "application/json")
      ∷ (codes "MockSim-Signature", signature_header secret (now / microseconds_per_second) body)
      ∷ (codes "MockSim-Event-Id", event_id)
      ∷ (codes "MockSim-Event-Type", event_type)
      ∷ (codes "MockSim-Partition-Key", partition_key)
      ∷ []

-- What the client's post comes to: a status, or an exception with its text.
pub data Answer : Type 0 where
  status : ℕ → Answer
  timeout : Answer
  connect_error : Text → Answer
  other_error : Text → Answer

-- `(success, error)`
unfoldable pub outcome : Answer → Bool × Option Text
outcome (status n) =
    if leb 200 n && ltb n 300
    then (true, none)
    else if leb 400 n && ltb n 500
    then (false, some (codes "HTTP " ++ str_nat n ++ codes ": non-retryable"))
    else (false, some (codes "HTTP " ++ str_nat n))
outcome timeout = (false, some (codes "Timeout"))
outcome (connect_error text) = (false, some (codes "Connection error: " ++ text))
outcome (other_error text) = (false, some text)

-- `post_webhook`, of the JSON text of a payload; the extra headers, whose names are other ones, come
-- last.
unfoldable pub post_webhook :
    (Text → Text → Text)
    → (Text → Text → List (Text × Text) → Answer)
    → ℕ
    → Text
    → Text
    → Text
    → Text
    → Text
    → Text
    → WebhookFormat
    → List (Text × Text)
    → Bool × Option Text
post_webhook hmac post now url secret event_id event_type partition_key body format extra_headers =
    outcome (
      post url body (
        webhook_headers hmac format secret now body event_id event_type partition_key
        ++ extra_headers))

-- The header that a settlement adds, if it does.
abbrev pub extra_of : Option Text → List (Text × Text)
extra_of none = []
extra_of (some tenant) = (codes "X-Tenant-ID", tenant) ∷ []

-- The call in `_deliver` of core/outbox.py, for a row; the JSON of a payload and the text of a ULID
-- are parameters.
abbrev pub post_row :
    (Text → Text → Text)
    → (Text → Text → List (Text × Text) → Answer)
    → (Payload → Text)
    → (ℕ → Text)
    → ℕ
    → WebhookOutbox
    → Bool × Option Text
post_row hmac post dumps ulid_text now r =
    post_webhook hmac post now r.target_url r.target_secret (ulid_text r.event_id) r.event_type
      r.partition_key (dumps r.payload) r.format (extra_of r.extra_headers)

-- What `urlparse` and `ip_address` find in an address.
pub record ParsedUrl : Type 0 where
  pub scheme : Text
  pub hostname : Option Text

pub record IpAddress : Type 0 where
  pub is_loopback : Bool
  pub is_private : Bool
  pub is_link_local : Bool
  pub is_unspecified : Bool

pub record Addresses : Type 0 where
  pub urlparse : Text → Option ParsedUrl
  pub ip_address : Text → Option IpAddress

abbrev pub blocked_hosts : List Text
blocked_hosts = codes "localhost" ∷ codes "metadata.google.internal" ∷ []

abbrev pub is_refused_address : Option IpAddress → Bool
is_refused_address none = false
is_refused_address (some a) = a.is_loopback || a.is_private || a.is_link_local || a.is_unspecified

abbrev pub refuse_if : Bool → Result (Unit {0}) → Result (Unit {0})
refuse_if c r = if c then err python_error else r

unfoldable pub check_host : Addresses → Option Text → Result (Unit {0})
check_host a none = err python_error
check_host a (some []) = err python_error
check_host a (some (c ∷ host)) =
    refuse_if (is_member (lower (c ∷ host)) blocked_hosts)
      (refuse_if (is_refused_address (a.ip_address (c ∷ host))) (ok tt))

unfoldable pub check_url : Addresses → Bool → Option ParsedUrl → Result (Unit {0})
check_url a allow_http none = err python_error
check_url a allow_http (some u) =
    refuse_if (not allow_http && not (text_eq u.scheme (codes "https"))) (
      refuse_if (not (is_member u.scheme (codes "http" ∷ codes "https" ∷ [])))
        (check_host a u.hostname))

-- `_validate_target_url`
unfoldable pub validate_target_url : Addresses → Bool → Text → Result (Unit {0})
validate_target_url a allow_http url = check_url a allow_http (a.urlparse url)
