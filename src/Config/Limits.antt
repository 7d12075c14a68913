-- ===== src/Config/Limits.antt =====
-- What a limit that is accepted says.
use bits_broker.Prelude.{
  ok_injective, some_injective, >>=-eq-ok, ℕ, Bool, true, Bool-cases, Option, none, some, [], ◌∷◌,
  ok, Text, text, text_beq, text_beq_iff, text_eq, HashMap, lookup, insert, lookup-insert, ◌≡◌, ◌≢◌,
  ◌⊎◌, ap, Option-cases, inl, inr, refl, sym, ◌∙◌,
}
use bits_broker.UserLimits.{RealmLimit, UserLimitConfig}
use bits_broker.Config.{
  Document, parse_ceiling, parse_max, check_keys, is_top_key, is_realm_key, object_or,
  parse_roles_of, realm_limit, parse_realm, parse_realms, parse_realms_of, limit_of_users,
  parse_members, parse_user_limit,
}

-- A block of a realm has a ceiling, of its own or of a role.
abbrev pub IsCapped : RealmLimit → Type 0
IsCapped limit = (limit.default ≢ none) ⊎ (limit.roles ≢ [])

abbrev pub AllCapped : HashMap Text RealmLimit → Type 0
AllCapped realms =
    (realm : Text) (limit : RealmLimit) → lookup realm realms ≡ some limit → IsCapped limit

realm_limit-IsCapped :
    (path : Text) (default : Option ℕ) (roles : HashMap Text ℕ) {limit : RealmLimit}
    → realm_limit path default roles ≡ ok limit
    → IsCapped limit
unfolding realm_limit
realm_limit-IsCapped path none [] h = cc
realm_limit-IsCapped path none (r ∷ rs) h = rw (ok_injective (sym h)) (inr (λ e. cc))
realm_limit-IsCapped path (some n) roles h = rw (ok_injective (sym h)) (inl (λ e. cc))

insert-AllCapped :
    (realm : Text) (limit : RealmLimit) (realms : HashMap Text RealmLimit)
    → IsCapped limit
    → AllCapped realms
    → AllCapped (insert realm limit realms)
insert-AllCapped realm limit realms c h k l e = elim (Bool-cases (text_beq realm k)) [
  | inl b ↦ rw (some_injective (sym (rw (lookup-insert realm k limit realms, b) at e))) c
  | inr b ↦ h k l (rw (lookup-insert realm k limit realms, b) at e)
]

module _ (doc : Document) (usize_end : ℕ) where
  open doc use {Value, as_object}

  parse_realm-IsCapped :
      (path : Text) (value : Value) {limit : RealmLimit}
      → parse_realm doc usize_end path value ≡ ok limit
      → IsCapped limit
  unfolding parse_realm
  parse_realm-IsCapped path value h =
      let (members, _, h) = >>=-eq-ok (object_or doc usize_end path value) _ h in
      let (u, _, h) = >>=-eq-ok (check_keys doc usize_end is_realm_key _ path members) _ h in
      let (default, _, h) = >>=-eq-ok (parse_max doc usize_end _ _) _ h in
      let (roles, _, h) = >>=-eq-ok (parse_roles_of doc usize_end path _) _ h in
      realm_limit-IsCapped path default roles h

  parse_realms-AllCapped :
      (members : HashMap Text Value) (realms : HashMap Text RealmLimit)
      {parsed : HashMap Text RealmLimit}
      → AllCapped realms
      → parse_realms doc usize_end members realms ≡ ok parsed
      → AllCapped parsed
  unfolding parse_realms
  parse_realms-AllCapped [] realms c h = rw (ok_injective (sym h)) c
  parse_realms-AllCapped ((realm, value) ∷ members) realms c h =
      let (limit, one, h) = >>=-eq-ok (parse_realm doc usize_end _ value) _ h in
      parse_realms-AllCapped members (insert realm limit realms)
        (insert-AllCapped realm limit realms (parse_realm-IsCapped _ value one) c) h

  nothing-AllCapped : AllCapped []
  unfolding lookup
  nothing-AllCapped k l e = cc

  parse_realms_of-AllCapped :
      (value : Option Value) {parsed : HashMap Text RealmLimit}
      → parse_realms_of doc usize_end value ≡ ok parsed
      → AllCapped parsed
  unfolding parse_realms_of
  parse_realms_of-AllCapped none h = rw (ok_injective (sym h)) nothing-AllCapped
  parse_realms_of-AllCapped (some value) h =
      let (members, _, h) = >>=-eq-ok (object_or doc usize_end _ value) _ h in
      parse_realms-AllCapped members [] nothing-AllCapped h

  -- No key of an accepted object is unknown.
  check_keys-known :
      (known : Text → Bool) (expected path : Text) (members : HashMap Text Value) {u : Unit}
      (key : Text) {value : Value}
      → check_keys doc usize_end known expected path members ≡ ok u
      → lookup key members ≡ some value
      → known key ≡ true
  unfolding check_keys lookup
  check_keys-known known expected path [] key h e = cc
  check_keys-known known expected path ((k, v) ∷ members) key h e = elim (Bool-cases (known k)) [
    | inr n ↦ cc (simp (n) at h)
    | inl y ↦ elim (Bool-cases (text_beq k key)) [
      | inl z ↦ rw ((text_beq_iff k key).0 z) at y
      | inr n ↦ check_keys-known known expected path members key (simp (y) at h) (simp (n) at e)
    ]
  ]

  object_or-ok :
      (path : Text) (value : Value) {members : HashMap Text Value}
      → object_or doc usize_end path value ≡ ok members
      → as_object value ≡ some members
  unfolding object_or
  object_or-ok path value h = elim (Option-cases (as_object value)) [
    | inl n ↦ cc (simp (object_or, n) at h)
    | inr (m, e) ↦ e ∙ ap some (ok_injective (simp (object_or, e) at h))
  ]

  parse_max-none :
      (value : Option Value) (path : Text) {default : Option ℕ}
      → parse_max doc usize_end value path ≡ ok default
      → default ≡ none
      → value ≡ none
  unfolding parse_max
  parse_max-none none path h e = refl
  parse_max-none (some value) path h e =
      let (n, _, h) = >>=-eq-ok (parse_ceiling doc usize_end value path) _ h in cc

  limit_of_users-parts :
      (default : Option ℕ) (realms : HashMap Text RealmLimit) {cfg : UserLimitConfig}
      → limit_of_users default realms ≡ ok cfg
      → (cfg.default ≡ default) × (cfg.realms ≡ realms) × ((cfg.default ≢ none) ⊎ (cfg.realms ≢ []))
  unfolding limit_of_users
  limit_of_users-parts none [] h = cc
  limit_of_users-parts none (r ∷ rs) h = rw (ok_injective (sym h)) (refl, refl, inr (λ e. cc))
  limit_of_users-parts (some n) realms h = rw (ok_injective (sym h)) (refl, refl, inl (λ e. cc))

  -- A limit of users that is accepted: its value is an object with no key but `max` and `realms`, it
  -- has a ceiling for all users or the block of a realm, and each block has a ceiling of its own or of a
  -- role; where the object has `max`, it has a ceiling for all users.
  pub parse_user_limit-AllCapped :
      (value : Value) {cfg : UserLimitConfig}
      → parse_user_limit doc usize_end value ≡ ok cfg
      → (members : HashMap Text Value) × (as_object value ≡ some members)
        × ((key : Text) (v : Value) → lookup key members ≡ some v → is_top_key key ≡ true)
        × ((cfg.default ≢ none) ⊎ (cfg.realms ≢ []))
        × AllCapped cfg.realms
        × (cfg.default ≡ none → lookup (text "max") members ≡ none)
  unfolding parse_user_limit parse_members object_or
  parse_user_limit-AllCapped value h =
      let (members, is_object, h) = >>=-eq-ok (object_or doc usize_end _ value) _ h in
      let (default, maximum, h) = >>=-eq-ok (parse_max doc usize_end _ _) _ h in
      let (u, known, h) = >>=-eq-ok (check_keys doc usize_end is_top_key _ _ members) _ h in
      let (realms, blocks, h) = >>=-eq-ok (parse_realms_of doc usize_end _) _ h in
      let (same_default, same_realms, capped) = limit_of_users-parts default realms h in
      (
        members,
        object_or-ok _ value is_object,
        λ key v e. check_keys-known is_top_key _ _ members key known e,
        capped,
        rw same_realms (parse_realms_of-AllCapped _ blocks),
        λ e. parse_max-none _ _ maximum (sym same_default ∙ e),
      )
