-- ===== src/Scheduler/Classify.antt =====
-- The classification of a failed check: `classifyCause`, `classifyError`, `containsAny` and
-- `isTransientError` of backend/internal/scheduler/scheduler.go. An error value is its text with what
-- `errors.Is` and `errors.As` find in its chain. The two regular expressions and the lower-casing are
-- parameters.
pub mod Rotation
use marauder.Prelude.{
  Bool, true, false, not, ◌&&◌, ◌||◌, Option, none, some, List, [], ◌∷◌, ◌++◌, map, ltb, ◌==◌,
  if◌then◌else◌, Text, codes, text_eq, contains,
}

-- The codes of a failed check.
pub data ErrorCode : Type 0 where
  timeout unreachable auth cloudflare solver solver_missing parse plugin_missing : ErrorCode
  client internal unknown : ErrorCode

-- An error that is not nil.
pub record Failure : Type 0 where
  pub text : Text
  pub client_delivery : Bool
  pub state_persist : Bool
  pub clearance_not_configured : Bool
  pub clearance_unavailable : Bool
  pub session_expired : Bool
  pub deadline_exceeded : Bool
  pub net_timeout : Bool
  pub stale_check_result : Bool
  pub no_pending_episodes : Bool

-- An error with no sentinel in its chain.
abbrev pub plain_failure : Text → Failure
plain_failure text = record {
  text = text;
  client_delivery = false;
  state_persist = false;
  clearance_not_configured = false;
  clearance_unavailable = false;
  session_expired = false;
  deadline_exceeded = false;
  net_timeout = false;
  stale_check_result = false;
  no_pending_episodes = false;
}

-- `fmt.Errorf("%w: %w", errClientDelivery, err)` and the same with `errStatePersist`.
abbrev pub wrap_delivery : Failure → Failure
wrap_delivery e = record e {
  text = codes "submit to torrent client: " ++ e.text;
  client_delivery = true;
}

abbrev pub wrap_persist : Failure → Failure
wrap_persist e = record e { text = codes "marauder storage: " ++ e.text; state_persist = true }

-- `urlInError.ReplaceAllString(msg, "")`, the group that `httpStatusInError` finds, and
-- `strings.ToLower`.
pub record Patterns : Type 0 where
  pub strip_urls : Text → Text
  pub find_status : Text → Option Text
  pub to_lower : Text → Text

-- `containsAny(s, subs...)`.
unfoldable pub contains_any : Text → List Text → Bool
contains_any s [] = false
contains_any s (sub ∷ subs) = if contains s sub then true else contains_any s subs

-- Go's `<=` on strings.
unfoldable pub text_leb : Text → Text → Bool
text_leb [] b = true
text_leb (c ∷ a) [] = false
text_leb (c ∷ a) (d ∷ b) = if ltb c d then true else if c == d then text_leb a b else false

abbrev pub timeout_words : List Text
timeout_words = map codes (
    "context deadline exceeded" ∷ "deadline exceeded" ∷ "timeout" ∷ "i/o timeout" ∷ "client.timeout"
    ∷ [])

abbrev pub unreachable_words : List Text
unreachable_words = map codes (
    "connection refused" ∷ "connection reset" ∷ "no such host" ∷ "server misbehaving"
    ∷ "no route to host" ∷ "network is unreachable" ∷ "tls handshake" ∷ "eof" ∷ [])

abbrev pub auth_words : List Text
auth_words = map codes (
    "auth failed" ∷ "session expired" ∷ "unauthorized" ∷ "invalid api key" ∷ "invalid credentials"
    ∷ "captcha" ∷ "login failed" ∷ "requires credentials" ∷ [])

abbrev pub parse_words : List Text
parse_words =
    map codes ("parse" ∷ "unparseable" ∷ "malformed" ∷ "invalid character" ∷ "decode" ∷ [])

-- The last `switch` of `classifyError`, on the lower-cased message.
unfoldable pub classify_words : Text → ErrorCode
unfolding contains_any
classify_words m =
    if contains_any m timeout_words
    then timeout
    else if contains_any m unreachable_words
    then unreachable
    else if contains_any m auth_words
    then auth
    else if contains_any m parse_words
    then parse
    else unknown

-- What a status code decides; other codes fall through.
unfoldable pub classify_status : Option Text → Option ErrorCode
unfolding text_leb
classify_status none = none
classify_status (some code) =
    if text_eq code (codes "401") || text_eq code (codes "403") || text_eq code (codes "407")
    then some auth
    else if text_eq code (codes "429") || text_leb (codes "500") code && text_leb code (codes "599")
    then some unreachable
    else none

abbrev pub transient_words : List Text
transient_words = map codes (
    "context deadline exceeded" ∷ "timeout" ∷ "i/o timeout" ∷ "connection refused"
    ∷ "connection reset" ∷ "server misbehaving" ∷ "no such host" ∷ "temporary failure" ∷ "eof"
    ∷ "tls handshake" ∷ [])

module _ (pk : Patterns) where
  -- `classifyError(msg)`.
  unfoldable pub classify_error : Text → ErrorCode
  unfolding classify_status classify_words
  classify_error msg =
      let clean = pk.strip_urls msg in
      let m = pk.to_lower clean in
      if contains m (codes "plugin not installed")
      then plugin_missing
      else if contains m (codes "clearance not configured")
      then solver_missing
      else if contains m (codes "clearance unavailable")
      then solver
      else if contains m (codes "cloudflare challenge") || contains m (codes "challenge not solved")
      then cloudflare
      else if contains m (codes "flaresolverr: ")
          || contains m (codes "flaresolverr is not configured")
          || contains m (codes "flaresolverr transport")
      then solver
      else elim (classify_status (pk.find_status clean)) [
        | some code ↦ code
        | none ↦ classify_words m
      ]

  -- `classifyCause(msg, cause)`; a nil cause is `none`.
  unfoldable pub classify_cause : Text → Option Failure → ErrorCode
  unfolding classify_error
  classify_cause msg none = classify_error msg
  classify_cause msg (some e) =
      if e.client_delivery
      then client
      else if e.state_persist
      then internal
      else if e.clearance_not_configured
      then solver_missing
      else if e.clearance_unavailable
      then solver
      else if e.session_expired
      then auth
      else classify_error msg

  -- `isTransientError(err)`.
  unfoldable pub is_transient_error : Option Failure → Bool
  unfolding contains_any
  is_transient_error none = false
  is_transient_error (some e) =
      if e.deadline_exceeded
      then true
      else if e.clearance_unavailable
      then true
      else if e.net_timeout
      then true
      else contains_any (pk.to_lower e.text) transient_words

-- The codes that `recordResult` reports to the domain rotation.
unfoldable pub rotates : ErrorCode → Bool
rotates timeout = true
rotates unreachable = true
rotates auth = false
rotates cloudflare = false
rotates solver = false
rotates solver_missing = false
rotates parse = false
rotates plugin_missing = false
rotates client = false
rotates internal = false
rotates unknown = false
