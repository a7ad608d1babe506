-- ===== src/Daemon/Access.antt =====
-- The token and the queries of crates/sct-daemon/src/main.rs: who may call the routes, and what the
-- routes that change nothing answer.
pub mod Laws
pub mod Listing
use Prim.Native.String.{len, slice}
use text.Mathlib.Text.{starts_with}
use text.Mathlib.Text.{◌==◌ as str_eq}
use sc_transport.Base.{
  ℕ, String, Bool, true, false, Option, none, some, List, [], ◌∷◌, take, filter, length, leb,
  if◌then◌else◌, Result, ok, err, ok_or,
}
use sc_transport.Base.HashMap
use sc_transport.Base.HashMap.{HashMap}
use sc_transport.Daemon.{
  TransferStatus, queued, active, completed, failed, cancelled, TransferRecord, AppState, is_active,
  is_queued,
}

-- the answers of axum that the handlers name
pub data StatusCode : Type 0 where
  not_found unauthorized : StatusCode

-- `v.strip_prefix(p)`
unfoldable pub strip_prefix : String → String → Option String
strip_prefix v p = if starts_with v p then some (slice v (len p) (len v)) else none

abbrev pub not_empty : String → Option String
not_empty s = if str_eq s "" then none else some s

-- `variable` is SCT_DAEMON_API_TOKEN, if it is set, and `api_token` is the one of the configuration.
unfoldable pub effective_api_token : Option String → String → Option String
effective_api_token none api_token = not_empty api_token
effective_api_token (some v) api_token = if str_eq v "" then not_empty api_token else some v

abbrev pub is_some_and_eq : String → Option String → Bool
is_some_and_eq expected none = false
is_some_and_eq expected (some got) = str_eq got expected

-- whether the header `Authorization` brings the token
unfoldable pub is_authorized : String → Option String → Bool
is_authorized expected none = false
is_authorized expected (some v) = is_some_and_eq expected (strip_prefix v "Bearer ")

-- `next` is what the route answers; `authorization` is the header, if it is there and is a text.
unfoldable pub require_api_token :
    {R : Type 0} → Option String → String → Option String → R → Result StatusCode R
require_api_token variable api_token authorization next =
    elim (effective_api_token variable api_token) [
      | none ↦ ok next
      | some expected ↦
          if is_authorized expected authorization then ok next else err StatusCode.unauthorized
    ]

unfoldable pub get_transfer : AppState → ℕ → Result StatusCode TransferRecord
get_transfer s id = ok_or (HashMap.get s.records id) StatusCode.not_found

-- `records.values()`
abbrev pub values : HashMap TransferRecord → List TransferRecord
values [] = []
values ((id, rec) ∷ records) = rec ∷ values records

-- the numbers that `metrics` and `health` write out
unfoldable pub count_active : AppState → ℕ
count_active s = length (filter (λ (rec : TransferRecord). is_active rec.status) (values s.records))

unfoldable pub count_queued : AppState → ℕ
count_queued s = length (filter (λ (rec : TransferRecord). is_queued rec.status) (values s.records))

-- `sort_by_key(|r| r.transfer_id)`
unfoldable pub insert_by_id : TransferRecord → List TransferRecord → List TransferRecord
insert_by_id r [] = r ∷ []
insert_by_id r (q ∷ rows) =
    let rest = insert_by_id r rows in
    if leb r.transfer_id q.transfer_id then r ∷ q ∷ rows else q ∷ rest

unfoldable pub sort_by_id : List TransferRecord → List TransferRecord
sort_by_id [] = []
sort_by_id (r ∷ rows) = insert_by_id r (sort_by_id rows)

-- `matches` is the test of the query's status, if it has one.
unfoldable pub list_transfers :
    AppState → Option (TransferStatus → Bool) → Option ℕ → List TransferRecord
list_transfers s matches limit =
    let all = values s.records in
    let kept : List TransferRecord = elim matches [
      | none ↦ all
      | some p ↦ filter (λ (rec : TransferRecord). p rec.status) all
    ] in
    let rows = sort_by_id kept in elim limit [ none ↦ rows | some n ↦ take n rows ]
