-- ===== src/Config.antt =====
-- bits/src/config.rs: the tag of a site or of an environment, and the limits of users, which are
-- parsed from values of JSON. What the values are is a parameter: an object is the list of its members
-- in their order.
pub mod Limits
pub mod Settings
mod Tests
use bits_broker.Prelude.{
  ℕ, ◌==◌, Bool, true, false, ◌||◌, Option, none, some, [], ◌∷◌, ◌++◌, List, Result, ok, err, panic,
  ◌>>=◌, Text, text, text_beq, text_eq, if◌then◌else◌, ltb, HashMap, lookup, insert,
}
use bits_broker.Errors.{ConfigError, validation, missing_field}
use bits_broker.UserLimits.{RealmLimit, UserLimitConfig}

pub record Document : Type 1 where
  pub Value : Type 0
  pub as_object : Value → Option (HashMap Text Value)
  pub as_u64 : Value → Option ℕ

unfoldable pub is_top_key : Text → Bool
is_top_key key = text_beq key (text "max") || text_beq key (text "realms")

unfoldable pub is_realm_key : Text → Bool
is_realm_key key = text_beq key (text "max") || text_beq key (text "roles")

-- A block without a ceiling is refused.
unfoldable pub realm_limit : Text → Option ℕ → HashMap Text ℕ → Result ConfigError RealmLimit
realm_limit realm_path none [] =
    err (validation realm_path (text "must define 'max' and/or a non-empty 'roles' map"))
realm_limit realm_path none (r ∷ rs) = ok (record { default = none; roles = r ∷ rs })
realm_limit realm_path (some n) roles = ok (record { default = some n; roles = roles })

unfoldable pub limit_of_users :
    Option ℕ → HashMap Text RealmLimit → Result ConfigError UserLimitConfig
limit_of_users none [] = err (
    validation (text "dispatcher.user_limit")
      (text "must define a global 'max' and/or at least one realm block"))
limit_of_users none (r ∷ rs) = ok (record { default = none; realms = r ∷ rs })
limit_of_users (some n) realms = ok (record { default = some n; realms = realms })

-- The numbers of `usize`, which depends on the platform.
module _ (doc : Document) (usize_end : ℕ) where
  open doc use {Value, as_object, as_u64}

  unfoldable pub parse_ceiling : Value → Text → Result ConfigError ℕ
  parse_ceiling value path = elim (as_u64 value) [
    | none ↦ err (validation path (text "must be a non-negative integer"))
    | some n ↦
        if ltb n usize_end
        then ok n
        else err (validation path (text "value too large for this platform"))
  ]

  -- `get("max")`, `map` and `transpose`.
  unfoldable pub parse_max : Option Value → Text → Result ConfigError (Option ℕ)
  parse_max none path = ok none
  parse_max (some value) path = parse_ceiling value path >>= λ n. ok (some n)

  unfoldable pub check_keys :
      (known : Text → Bool)
      → (expected path : Text) → HashMap Text Value
      → Result {0, 0} ConfigError Unit
  check_keys known expected path [] = ok tt
  check_keys known expected path ((key, value) ∷ members) =
      let rest = check_keys known expected path members in
      if known key
      then rest
      else err (
          validation path
            (text "unknown field '" ++ key ++ text "' (expected " ++ expected ++ text ")"))

  unfoldable pub object_or : Text → Value → Result ConfigError (HashMap Text Value)
  object_or path value = elim (as_object value) [
    | none ↦ err (validation path (text "must be an object"))
    | some members ↦ ok members
  ]

  unfoldable pub parse_roles :
      Text → HashMap Text Value → HashMap Text ℕ → Result ConfigError (HashMap Text ℕ)
  parse_roles realm_path [] roles = ok roles
  parse_roles realm_path ((role, value) ∷ members) roles =
      parse_ceiling value (realm_path ++ text ".roles." ++ role) >>= λ n.
      parse_roles realm_path members (insert role n roles)

  unfoldable pub parse_roles_of : Text → Option Value → Result ConfigError (HashMap Text ℕ)
  parse_roles_of realm_path none = ok []
  parse_roles_of realm_path (some value) =
      object_or (realm_path ++ text ".roles") value >>= λ members. parse_roles realm_path members []

  unfoldable pub parse_realm : Text → Value → Result ConfigError RealmLimit
  parse_realm realm_path value = object_or realm_path value >>= λ members.
      check_keys is_realm_key (text "'max' and/or 'roles'") realm_path members >>= λ u.
      parse_max (lookup (text "max") members) (realm_path ++ text ".max") >>= λ default.
      parse_roles_of realm_path (lookup (text "roles") members) >>= λ roles.
      realm_limit realm_path default roles

  unfoldable pub parse_realms :
      HashMap Text Value → HashMap Text RealmLimit → Result ConfigError (HashMap Text RealmLimit)
  parse_realms [] realms = ok realms
  parse_realms ((realm, value) ∷ members) realms =
      parse_realm (text "dispatcher.user_limit.realms." ++ realm) value >>= λ limit.
      parse_realms members (insert realm limit realms)

  unfoldable pub parse_realms_of : Option Value → Result ConfigError (HashMap Text RealmLimit)
  parse_realms_of none = ok []
  parse_realms_of (some value) =
      object_or (text "dispatcher.user_limit.realms") value >>= λ members. parse_realms members []

  unfoldable pub parse_members : HashMap Text Value → Result ConfigError UserLimitConfig
  parse_members members =
      parse_max (lookup (text "max") members) (text "dispatcher.user_limit.max") >>= λ default.
      check_keys is_top_key (text "'max' and/or 'realms'") (text "dispatcher.user_limit") members
      >>= λ u. parse_realms_of (lookup (text "realms") members) >>= λ realms.
          limit_of_users default realms

  unfoldable pub parse_user_limit : Value → Result ConfigError UserLimitConfig
  parse_user_limit value = object_or (text "dispatcher.user_limit") value >>= parse_members
