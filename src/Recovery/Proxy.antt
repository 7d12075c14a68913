-- ===== src/Recovery/Proxy.antt =====
-- `try_proxy_with_lease`: a poll that is passed on to the owner of the job, and what its answer means.
use bits_broker.Prelude.{
  ℕ, ◌+◌, ◌-◌, ◌*◌, ◌%◌, ◌==◌, Bool, true, false, ◌&&◌, ◌||◌, Option, none, some, [], ◌∷◌, ◌++◌,
  Result, ok, err, panic, Text, text, text_beq, if◌then◌else◌, leb, ltb,
}
use bits_broker.RequestId.{Chrono}
use bits_broker.Store.{DbError, ClaimResult, not_found, claimed, active, or_default, u64_mod}
use bits_broker.Store.Users.{is_empty}
use bits_broker.Actions.{success, redirect, job_error, job_cancelled}
use bits_broker.Runtime.{PendingStatus, queued, PollOutcome, ready, pending}
use bits_broker.Runtime.Presence.{from_header}
use bits_broker.UserLimits.{and_then}
use bits_broker.Recovery.{Broker, Response, Lease}

-- The part of a text before the first of the given character, and all of it without one.
unfoldable pub up_to : ℕ → Text → Text
up_to c [] = []
up_to c (d ∷ t) = let rest = up_to c t in if d == c then [] else d ∷ rest

-- The part behind the last of the given character; `last` is what is kept if none follows.
unfoldable pub behind_last : ℕ → Text → Text → Text
behind_last c last [] = last
behind_last c last (d ∷ t) = if d == c then behind_last c t t else behind_last c last t

abbrev pub drop_slashes : Text → Text
drop_slashes [] = []
drop_slashes (d ∷ t) =
    let rest = drop_slashes t in if d == b'/' && is_empty rest then [] else d ∷ rest

-- `parse::<u64>`
parse_digits : ℕ → Text → Option ℕ
parse_digits acc [] = some acc
parse_digits acc (c ∷ t) =
    let next = acc * 10 + (c - b'0') in
    let rest = parse_digits next t in
    if leb b'0' c && leb c b'9' && ltb next u64_mod then rest else none

unfoldable pub parse_u64 : Text → Option ℕ
unfolding parse_digits
parse_u64 [] = none
parse_u64 (c ∷ []) = parse_digits 0 (c ∷ [])
parse_u64 (c ∷ d ∷ t) = if c == b'+' then parse_digits 0 (d ∷ t) else parse_digits 0 (c ∷ d ∷ t)

-- An i64 is its bit pattern; -1 stands for an unknown length.
abbrev size_of : Option ℕ → ℕ
size_of none = u64_mod - 1
size_of (some n) = n % u64_mod

unfoldable pub pending_status_of : {B : Type 0} → Response B → PendingStatus
pending_status_of r =
    or_default (and_then (r.header (text "x-bits-pending-status")) from_header) queued

unfoldable pub is_redirect : ℕ → Bool
is_redirect status = status == 303 || status == 307 || status == 302 || status == 308

unfoldable pub ready_success : {B : Type 0} → Response B → PollOutcome B
ready_success r = ready (
    success (or_default (r.header (text "content-type")) (text "application/octet-stream"))
      (size_of r.content_length) r.stream)

unfoldable pub redirect_outcome : {B : Type 0} → Text → Response B → PollOutcome B
redirect_outcome id r =
    let location = or_default (r.header (text "location")) [] in
    let path = up_to b'?' location in
    if is_empty location
    then pending id (pending_status_of r)
    else if text_beq (behind_last b'/' path path) id
    then pending id (pending_status_of r)
    else ready (
        redirect location (text "proxied redirect") (r.header (text "x-polytope-content-type"))
          (and_then (r.header (text "x-polytope-content-length")) parse_u64))

module _ (chrono : Chrono) (Value B S : Type 0) (broker : Broker chrono Value B S) where
  -- A claim that no broker's record can meet tells whether there is a record.
  unfoldable pub durable_job_present : Text → S → Result DbError Bool × S
  durable_job_present id s =
      let (answer, s') =
        broker.claim_if_owner id (text "__never_expected__") (text "__presence_probe__") s in
      (found answer, s')
    where
      found : Result DbError (ClaimResult chrono Value) → Result DbError Bool
      found (ok not_found) = ok false
      found (ok (active owner)) = ok true
      found (ok (claimed job)) = ok true
      found (err e) = err e
      found panic = panic

  unfoldable pub owner_not_found_outcome : Text → S → PollOutcome B × S
  owner_not_found_outcome id s = elim broker.has_store [
    | false ↦ (PollOutcome.not_found, s)
    | true ↦ let (present, s') = durable_job_present id s in (outcome present, s')
  ]
    where
      outcome : Result DbError Bool → PollOutcome B
      outcome (ok true) = pending id queued
      outcome (ok false) = PollOutcome.not_found
      outcome (err e) = pending id queued
      outcome panic = pending id queued

  -- The answers for which the owner is thought to be busy are the last case, with all that remain.
  unfoldable pub proxy_response : Text → Response B → S → PollOutcome B × S
  proxy_response id r s =
      let missing = owner_not_found_outcome id s in
      if r.status == 200
      then (ready_success r, s)
      else if is_redirect r.status
      then (redirect_outcome id r, s)
      else if r.status == 404
      then missing
      else if r.status == 400
      then (ready (job_error r.body), s)
      else if r.status == 410
      then (ready job_cancelled, s)
      else (pending id queued, s)

  -- `none` is that the owner cannot be reached, or does not answer in time.
  unfoldable pub translated : Text → Option (Response B) × S → Option (PollOutcome B) × S
  translated id (none, s) = (none, s)
  translated id (some r, s) = let (outcome, s') = proxy_response id r s in (some outcome, s')

  unfoldable pub try_proxy_with_lease :
      Lease chrono Value B S broker → Text → Option ℕ → S → Option (PollOutcome B) × S
  try_proxy_with_lease lease id timeout s =
      let url = drop_slashes lease.internal_poll_base_url ++ b'/' ∷ id in
      translated id (broker.get url (or_default timeout broker.internal_poll_timeout) s)
