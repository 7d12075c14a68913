-- ===== src/UserLimits/Tests.antt =====
-- The theorems of user limits at one realm, two users and a limit of two.
use bits_broker.Prelude.{
  ◌<◌, map, Option, none, some, List, [], ◌∷◌, Text, text_beq, text_eq, if◌then◌else◌, lookup, ◌≡◌,
  refl, arith,
}
use bits_broker.UserLimits.{
  Json, UserLimitConfig, RealmLimit, auth_realm, auth_username, auth_roles, raise, raise_by_default,
  raise_by_roles, effective, resolve, Counts,
}
use bits_broker.UserLimits.Counts.{count_of, Event, admission, release}

-- A value is a string, a list of strings, or a user with a realm, a name and roles.
data Document : Type 0 where
  string : Text → Document
  strings : List Text → Document
  user_of : Text → Text → List Text → Document

abbrev field : Text → Document → Option Document
field path (string t) = none
field path (strings ts) = none
field path (user_of realm name roles) =
    if text_beq path auth_realm
    then some (string realm)
    else if text_beq path auth_username
    then some (string name)
    else if text_beq path auth_roles
    then some (strings roles)
    else none

abbrev str : Document → Option Text
str (string t) = some t
str (strings ts) = none
str (user_of realm name roles) = none

abbrev items : Document → Option (List Document)
items (string t) = none
items (strings ts) = some (map string ts)
items (user_of realm name roles) = none

abbrev documents : Json
documents = record { Value = Document; pointer = field; as_str = str; as_array = items }

abbrev realm_block : RealmLimit
realm_block = record { default = some 4; roles = (b'a' ∷ [], 9) ∷ [] }

abbrev config : UserLimitConfig
config = record { default = some 2; realms = (b'r' ∷ [], realm_block) ∷ [] }

abbrev admin : Document
admin = user_of (b'r' ∷ []) (b'u' ∷ []) ((b'x' ∷ []) ∷ (b'a' ∷ []) ∷ [])

abbrev key : Text
key = b'r' ∷ 31 ∷ b'u' ∷ []

admin_limit : resolve documents config admin ≡ some (key, 9)
unfolding resolve effective raise_by_default raise raise_by_roles lookup
admin_limit = refl

abbrev one : Counts
one = (key, 1) ∷ []

abbrev events : List Event
events = admission key 2 ∷ admission key 2 ∷ release key ∷ admission [] 9 ∷ []

one_lt : count_of key one < 2
unfolding lookup
one_lt = omega arith
