-- ===== src/Scheduler/Classify/Rotation.antt =====
-- Which failures count against a tracker's domain.
use marauder.Prelude.{
  ◌≡◌, refl, inl, inr, Bool, true, false, not, ◌&&◌, ◌||◌, Option, none, some, arith, if◌then◌else◌,
  Bool-cases, Text, codes, text_eq, contains,
}
use marauder.Scheduler.Classify.{
  ErrorCode, Failure, Patterns, contains_any, text_leb, timeout_words, unreachable_words,
  auth_words, parse_words, classify_words, classify_status, classify_error, classify_cause, rotates,
}

-- The failure is of the torrent client, of Marauder's storage, of the solver, or an expired session.
unfoldable pub of_our_side : Failure → Bool
of_our_side e =
    e.client_delivery || e.state_persist || e.clearance_not_configured || e.clearance_unavailable
    || e.session_expired

-- The wording names a missing plugin, a solver or a challenge.
unfoldable pub names_a_wall : Text → Bool
names_a_wall m =
    contains m (codes "plugin not installed")
    || contains m (codes "clearance not configured")
    || contains m (codes "clearance unavailable")
    || contains m (codes "cloudflare challenge")
    || contains m (codes "challenge not solved")
    || contains m (codes "flaresolverr: ")
    || contains m (codes "flaresolverr is not configured")
    || contains m (codes "flaresolverr transport")

-- What the status says of the network, if it says anything: too many requests or a server error.
unfoldable pub status_blames : Option Text → Option Bool
status_blames none = none
status_blames (some code) =
    if text_eq code (codes "401") || text_eq code (codes "403") || text_eq code (codes "407")
    then some false
    else if text_eq code (codes "429") || text_leb (codes "500") code && text_leb code (codes "599")
    then some true
    else none

-- The wording of a timeout, or of a host that does not answer.
unfoldable pub names_the_network : Text → Bool
names_the_network m = contains_any m timeout_words || contains_any m unreachable_words

-- A failure that is evidence against the tracker's domain.
unfoldable pub blames_domain : Patterns → Text → Option Failure → Bool
unfolding of_our_side names_a_wall status_blames names_the_network
blames_domain pk msg cause =
    let clean = pk.strip_urls msg in
    let m = pk.to_lower clean in
    not (elim cause [ none ↦ false | some e ↦ of_our_side e ])
    && not (names_a_wall m)
    && (elim (status_blames (pk.find_status clean)) [ some b ↦ b | none ↦ names_the_network m ])

words-rotates : (m : Text) → rotates (classify_words m) ≡ names_the_network m
unfolding classify_words names_the_network rotates
words-rotates m = elim (Bool-cases (contains_any m timeout_words)) [
  | inl e ↦ rw e refl
  | inr e ↦ rw e (elim (Bool-cases (contains_any m unreachable_words)) [
    | inl f ↦ rw f refl
    | inr f ↦ rw f (elim (Bool-cases (contains_any m auth_words)) [
      | inl g ↦ rw g refl
      | inr g ↦
          rw g (elim (Bool-cases (contains_any m parse_words)) [
            | inl h ↦ rw h refl
            | inr h ↦ rw h refl
          ])
    ])
  ])
]

status_case :
    (s : Option Text) (m : Text)
    → rotates (elim (classify_status s) as (λ _. ErrorCode) [
      | some code ↦ code
      | none ↦ classify_words m
    ])
      ≡ (elim (status_blames s) as (λ _. Bool) [ some b ↦ b | none ↦ names_the_network m ])
unfolding classify_status status_blames rotates
status_case none m = words-rotates m
status_case (some code) m =
    elim (Bool-cases
      (text_eq code (codes "401") || text_eq code (codes "403") || text_eq code (codes "407"))) [
        | inl e ↦ rw e refl
        | inr e ↦
            rw e
              (elim (Bool-cases (
                text_eq code (codes "429")
                || text_leb (codes "500") code && text_leb code (codes "599"))) [
                  | inl f ↦ rw f refl
                  | inr f ↦ rw f (words-rotates m)
                ])
      ]

error-rotates :
    (pk : Patterns) (msg : Text) → rotates (classify_error pk msg) ≡ blames_domain pk msg none
unfolding classify_error blames_domain names_a_wall rotates
error-rotates pk msg =
    ground
      (arith, status_case (pk.find_status (pk.strip_urls msg)) (pk.to_lower (pk.strip_urls msg)))

-- A failed check counts against the tracker's domain exactly if its cause is not one of our own
-- components or an expired session, its wording names no missing plugin, solver or challenge, and
-- its status is 429 or a server error or, where the status decides nothing, its wording is that of
-- a timeout or of a host that does not answer.
pub classify_cause-rotates :
    (pk : Patterns) (msg : Text) (cause : Option Failure)
    → rotates (classify_cause pk msg cause) ≡ blames_domain pk msg cause
unfolding classify_cause blames_domain of_our_side rotates
classify_cause-rotates pk msg none = error-rotates pk msg
classify_cause-rotates pk msg (some e) = ground (arith, error-rotates pk msg)
