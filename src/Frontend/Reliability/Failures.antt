-- ===== src/Frontend/Reliability/Failures.antt =====
-- `classifyReadFailure` of frontend/lib/ops/reliability.ts, with the part of regular expressions that
-- it uses.
use leopold.Prelude.{
  ℕ, Bool, true, false, not, ◌&&◌, ◌||◌, List, [], ◌∷◌, ◌++◌, ◌==◌, leb, if◌then◌else◌,
}
use leopold.Prelude.Text.{Text, codes, to_lower_case}

-- An error of the two classes, or any other one as the text that is searched.
pub data ReadError : Type 0 where
  read_timeout : ℕ → ReadError
  http_read : ℕ → ReadError
  plain_error : Text → ReadError

pub data MetricFailureCategory : Type 0 where
  no_failure : MetricFailureCategory
  timeout : MetricFailureCategory
  network : MetricFailureCategory
  rate_limit : MetricFailureCategory
  server : MetricFailureCategory
  configuration : MetricFailureCategory
  invalid_response : MetricFailureCategory
  unknown_failure : MetricFailureCategory

-- A piece of a pattern: a character of a class, an optional one, and `.?`.
pub data Piece : Type 0 where
  one_of : Text → Piece
  optional : Text → Piece
  any_optional : Piece

has_char : ℕ → Text → Bool
has_char c [] = false
has_char c (d ∷ ds) = c == d || has_char c ds

literal : Text → List Piece
literal [] = []
literal (c ∷ cs) = one_of (c ∷ []) ∷ literal cs

-- Whether the text begins with a match.
matches_here : List Piece → Text → Bool
unfolding has_char
matches_here [] t = true
matches_here (one_of cs ∷ ps) [] = false
matches_here (one_of cs ∷ ps) (c ∷ t) = has_char c cs && matches_here ps t
matches_here (optional cs ∷ ps) [] = matches_here ps []
matches_here (optional cs ∷ ps) (c ∷ t) =
    matches_here ps (c ∷ t) || (has_char c cs && matches_here ps t)
matches_here (any_optional ∷ ps) [] = matches_here ps []
matches_here (any_optional ∷ ps) (c ∷ t) =
    matches_here ps (c ∷ t) || (not (has_char c (10 ∷ 13 ∷ [])) && matches_here ps t)

occurs : List Piece → Text → Bool
unfolding matches_here
occurs ps [] = matches_here ps []
occurs ps (c ∷ t) = matches_here ps (c ∷ t) || occurs ps t

-- The alternatives of a pattern.
any_occurs : List (List Piece) → Text → Bool
unfolding occurs
any_occurs [] t = false
any_occurs (p ∷ ps) t = occurs p t || any_occurs ps t

digits : Text
digits = codes "0123456789"

configuration_pattern : List (List Piece)
unfolding literal
configuration_pattern =
    literal (codes "configuration")
    ∷ (literal (codes "wrong") ++ (one_of (codes "_ ") ∷ literal (codes "network")))
    ∷ (literal (codes "chain") ++ (optional (codes "_ -") ∷ literal (codes "id")))
    ∷ literal (codes "manifest")
    ∷ literal (codes "invalid address")
    ∷ []

invalid_pattern : List (List Piece)
unfolding literal
invalid_pattern =
    literal (codes "invalid")
    ∷ literal (codes "malformed")
    ∷ literal (codes "unexpected response")
    ∷ literal (codes "json")
    ∷ []

timeout_pattern : List (List Piece)
unfolding literal
timeout_pattern =
    literal (codes "timeout") ∷ literal (codes "timed out") ∷ literal (codes "aborterror") ∷ []

rate_limit_pattern : List (List Piece)
unfolding literal
rate_limit_pattern =
    literal (codes "429")
    ∷ (literal (codes "rate") ++ (any_optional ∷ literal (codes "limit")))
    ∷ literal (codes "too many requests")
    ∷ []

server_pattern : List (List Piece)
unfolding literal digits
server_pattern =
    (one_of (codes "5") ∷ one_of digits ∷ one_of digits ∷ [])
    ∷ literal (codes "server error")
    ∷ literal (codes "bad gateway")
    ∷ literal (codes "service unavailable")
    ∷ literal (codes "gateway timeout")
    ∷ []

network_pattern : List (List Piece)
unfolding literal
network_pattern =
    literal (codes "fetch")
    ∷ literal (codes "network")
    ∷ literal (codes "socket")
    ∷ literal (codes "econn")
    ∷ literal (codes "enotfound")
    ∷ literal (codes "connection")
    ∷ literal (codes "http request failed")
    ∷ literal (codes "request failed")
    ∷ literal (codes "connection refused")
    ∷ literal (codes "connection reset")
    ∷ literal (codes "temporarily unavailable")
    ∷ []

classify_message : Text → MetricFailureCategory
unfolding any_occurs configuration_pattern invalid_pattern timeout_pattern rate_limit_pattern
    server_pattern network_pattern
classify_message message =
    if any_occurs configuration_pattern message
    then configuration
    else if any_occurs invalid_pattern message
    then invalid_response
    else if any_occurs timeout_pattern message
    then timeout
    else if any_occurs rate_limit_pattern message
    then rate_limit
    else if any_occurs server_pattern message
    then server
    else if any_occurs network_pattern message
    then network
    else unknown_failure

classify_status : ℕ → MetricFailureCategory
classify_status status =
    if status == 408
    then timeout
    else if status == 429
    then rate_limit
    else if leb 500 status
    then server
    else configuration

-- The patterns ignore the case of letters.
unfoldable pub classify_read_failure : ReadError → MetricFailureCategory
unfolding classify_message classify_status
classify_read_failure (read_timeout ms) = timeout
classify_read_failure (http_read status) = classify_status status
classify_read_failure (plain_error message) = classify_message (to_lower_case message)

is_transient : MetricFailureCategory → Bool
is_transient timeout = true
is_transient network = true
is_transient rate_limit = true
is_transient server = true
is_transient category = false

unfoldable pub is_transient_read_failure : ReadError → Bool
unfolding is_transient
is_transient_read_failure e = is_transient (classify_read_failure e)
