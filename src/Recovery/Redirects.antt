-- ===== src/Recovery/Redirects.antt =====
-- A poll that the owner of a job answers by a redirect to its own address for the job.
use bits_broker.Prelude.{
  ℕ, ◌==◌, true, false, Option, none, some, [], ◌∷◌, ◌++◌, All, Text, text, text_beq_iff,
  Bool-cases, ◌≡◌, refl, inl, inr, arith, ==_iff,
}
use bits_broker.RequestId.{Chrono}
use bits_broker.Store.Users.{is_empty}
use bits_broker.Runtime.{PendingStatus, pending}
use bits_broker.Runtime.Presence.{as_str, from_header_iff}
use bits_broker.Recovery.{Broker, Response}
use bits_broker.Recovery.Proxy.{
  up_to, behind_last, pending_status_of, is_redirect, redirect_outcome, proxy_response,
}

-- The character is not in the text.
abbrev pub Free : ℕ → Text → Type 0
Free c t = All (λ d. (d == c) ≡ false) t

up_to-Free : (c : ℕ) (t : Text) → Free c t → up_to c t ≡ t
unfolding up_to
up_to-Free c [] f = refl
up_to-Free c (d ∷ t) f = rw (f.0, up_to-Free c t f.1) refl

up_to-append : (c : ℕ) (t q : Text) → Free c t → up_to c (t ++ c ∷ q) ≡ t
unfolding up_to
up_to-append c [] q f = rw ((==_iff c c).1 refl) refl
up_to-append c (d ∷ t) q f = rw (f.0, up_to-append c t q f.1) refl

behind_last-Free : (c : ℕ) (last t : Text) → Free c t → behind_last c last t ≡ last
unfolding behind_last
behind_last-Free c last [] f = refl
behind_last-Free c last (d ∷ t) f = rw (f.0) (behind_last-Free c last t f.1)

behind_last-append : (c : ℕ) (last a t : Text) → Free c t → behind_last c last (a ++ c ∷ t) ≡ t
unfolding behind_last
behind_last-append c last [] t f = rw ((==_iff c c).1 refl) (behind_last-Free c t t f)
behind_last-append c last (d ∷ a) t f = elim (Bool-cases (d == c)) [
  | inl e ↦ rw e (behind_last-append c (a ++ c ∷ t) a t f)
  | inr e ↦ rw e (behind_last-append c last a t f)
]

-- The address of a job, with or without a query.
abbrev pub address : Text → Text → Option Text → Text
address base id none = base ++ b'/' ∷ id
address base id (some query) = (base ++ b'/' ∷ id) ++ b'?' ∷ query

path_of :
    (base id : Text) (query : Option Text)
    → Free b'?' (base ++ b'/' ∷ id)
    → up_to b'?' (address base id query) ≡ base ++ b'/' ∷ id
path_of base id none f = up_to-Free b'?' (base ++ b'/' ∷ id) f
path_of base id (some q) f = up_to-append b'?' (base ++ b'/' ∷ id) q f

not_empty : (base id : Text) (query : Option Text) → is_empty (address base id query) ≡ false
unfolding is_empty
not_empty [] id none = refl
not_empty [] id (some q) = refl
not_empty (d ∷ base) id none = refl
not_empty (d ∷ base) id (some q) = refl

not_ok : (status : ℕ) → is_redirect status ≡ true → (status == 200) ≡ false
unfolding is_redirect
not_ok status h = ground arith

module _ (chrono : Chrono) (Value B S : Type 0) (broker : Broker chrono Value B S) where
  -- An owner that answers a poll by a redirect to an address that ends with the id of the job, with a
  -- query or without, and with the header of a status: the broker that passed the poll on answers that
  -- the job is pending with that status, whatever the base of the address is, and changes nothing. The
  -- id holds no slash, and it and the base no question mark.
  pub proxy_response-pending :
      (id base : Text) (query : Option Text) (status : PendingStatus) (r : Response B) (s : S)
      → is_redirect r.status ≡ true
      → r.header (text "location") ≡ some (address base id query)
      → r.header (text "x-bits-pending-status") ≡ some (as_str status)
      → Free b'?' (base ++ b'/' ∷ id)
      → Free b'/' id
      → proxy_response chrono Value B S broker id r s ≡ (pending id status, s)
  unfolding proxy_response redirect_outcome pending_status_of
  proxy_response-pending id base query status r s moved location header f g =
      let named : behind_last b'/' (base ++ b'/' ∷ id) (base ++ b'/' ∷ id) ≡ id =
        behind_last-append b'/' (base ++ b'/' ∷ id) base id g in
      simp (
        proxy_response,
        not_ok r.status moved,
        moved,
        redirect_outcome,
        location,
        not_empty base id query,
        path_of base id query f,
        named,
        (text_beq_iff id id).1 refl,
        pending_status_of,
        header,
        (from_header_iff (as_str status) status).1 refl,
      )
