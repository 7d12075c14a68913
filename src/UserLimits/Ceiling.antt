-- ===== src/UserLimits/Ceiling.antt =====
-- The ceiling of a user is the highest that applies.
use bits_broker.Prelude.{
  ℕ, ◌≤◌, Option, none, some, Option-cases, Bool-cases, List, [], ◌∷◌, ◌++◌, Text, All,
  if◌then◌else◌, ltb, HashMap, lookup, text_eq, ◌≡◌, refl, sym, ap, ◌∙◌, ◌⊎◌, inl, inr, arith,
}
use bits_broker.UserLimits.{
  Json, RealmLimit, UserLimitConfig, raise, and_then, raise_by_default, auth_roles, raise_by_roles,
  effective, resolve, auth_realm, auth_username,
}

abbrev pub to_list : Option ℕ → List ℕ
to_list none = []
to_list (some n) = n ∷ []

abbrev pub Among : ℕ → List ℕ → Type 0
Among n [] = ⊥
Among n (m ∷ ms) = (n ≡ m) ⊎ Among n ms

raise_all : List ℕ → Option ℕ → Option ℕ
raise_all [] e = e
raise_all (c ∷ cs) e = raise_all cs (raise e c)

-- What a fold of `raise` gives from a start: the highest of all.
raise_all-highest :
    (cs : List ℕ) (e : Option ℕ) {m : ℕ}
    → raise_all cs e ≡ some m
    → All (λ c. c ≤ m) (to_list e ++ cs) × Among m (to_list e ++ cs)
unfolding raise_all raise
raise_all-highest [] none h = cc
raise_all-highest [] (some n) h = ((ground arith, tt), inl cc)
raise_all-highest (c ∷ cs) none h = raise_all-highest cs (some c) h
raise_all-highest (c ∷ cs) (some n) h =
    let (bound, among) = raise_all-highest cs (some (if ltb n c then c else n)) h in
    (
      (ground (arith, bound.0), (ground (arith, bound.0), bound.1)),
      elim (Bool-cases (ltb n c)) [ inl t ↦ ground (arith, among) | inr t ↦ ground (arith, among) ],
    )

raise_all-append :
    (cs ds : List ℕ) (e : Option ℕ) → raise_all (cs ++ ds) e ≡ raise_all ds (raise_all cs e)
unfolding raise_all
raise_all-append [] ds e = refl
raise_all-append (c ∷ cs) ds e = raise_all-append cs ds (raise e c)

raise_by_default-raise_all : (o e : Option ℕ) → raise_by_default o e ≡ raise_all (to_list o) e
unfolding raise_by_default raise_all
raise_by_default-raise_all none e = refl
raise_by_default-raise_all (some d) e = refl

module _ (json : Json) where
  open json use {Value, pointer, as_str, as_array}

  -- The limits of the roles in a list that are strings and that the realm knows.
  unfoldable pub role_limits : HashMap Text ℕ → List Value → List ℕ
  role_limits limits [] = []
  role_limits limits (r ∷ rs) =
      to_list (and_then (as_str r) (λ role. lookup role limits)) ++ role_limits limits rs

  unfoldable pub block_limits : Option RealmLimit → Option (List Value) → List ℕ
  block_limits none roles = []
  block_limits (some block) none = to_list block.default
  block_limits (some block) (some roles) = to_list block.default ++ role_limits block.roles roles

  -- All limits that apply to a user of a realm: the global one, the realm's, and those that the realm
  -- gives to the user's roles.
  abbrev pub candidates : UserLimitConfig → Text → Value → List ℕ
  candidates cfg realm user =
      to_list cfg.default
      ++ block_limits (lookup realm cfg.realms) (and_then (pointer auth_roles user) as_array)

  raise_by_roles-raise_all :
      (limits : HashMap Text ℕ) (rs : List Value) (e : Option ℕ)
      → raise_by_roles json limits rs e ≡ raise_all (role_limits limits rs) e
  unfolding raise_by_roles role_limits raise_all
  raise_by_roles-raise_all limits [] e = refl
  raise_by_roles-raise_all limits (r ∷ rs) e =
      let o : Option ℕ = and_then (as_str r) (λ role. lookup role limits) in
      raise_by_roles-raise_all limits rs (raise_by_default o e)
      ∙ ap (raise_all (role_limits limits rs)) (raise_by_default-raise_all o e)
      ∙ sym (raise_all-append (to_list o) (role_limits limits rs) e)

  effective-raise_all :
      (cfg : UserLimitConfig) (realm : Text) (user : Value)
      → effective json cfg realm user
        ≡ raise_all
            (block_limits (lookup realm cfg.realms) (and_then (pointer auth_roles user) as_array))
            cfg.default
  unfolding effective raise_all block_limits
  effective-raise_all cfg realm user = elim (Option-cases (lookup realm cfg.realms)) [
    | inl e ↦ rw (effective, e, block_limits, raise_all) refl
    | inr (block, e) ↦ elim (Option-cases (and_then (pointer auth_roles user) as_array)) [
      | inl f ↦
          rw (effective, e, f, block_limits) (raise_by_default-raise_all block.default cfg.default)
      | inr (roles, f) ↦
          rw (effective, e, f, block_limits)
            (raise_by_roles-raise_all block.roles roles (raise_by_default block.default cfg.default)
              ∙ ap (raise_all (role_limits block.roles roles))
                  (raise_by_default-raise_all block.default cfg.default)
              ∙ sym (
                  raise_all-append (to_list block.default) (role_limits block.roles roles)
                    cfg.default))
    ]
  ]

  and_then-some :
      {A B : Type 0} (o : Option A) (f : A → Option B) {b : B}
      → and_then o f ≡ some b
      → (a : A) × (o ≡ some a) × (f a ≡ some b)
  and_then-some none f h = cc
  and_then-some (some a) f h = (a, refl, h)

  -- A user that is limited has a realm and a name, which make the key. The limit is the highest of
  -- those that apply: the global one, that of the user's realm, and those that this realm gives to
  -- the user's roles.
  pub resolve-highest :
      (cfg : UserLimitConfig) (user : Value) (key : Text) (max : ℕ)
      → resolve json cfg user ≡ some (key, max)
      → (realm : Text) × (username : Text) × (and_then (pointer auth_realm user) as_str
          ≡ some realm)
        × (and_then (pointer auth_username user) as_str ≡ some username)
        × (key ≡ realm ++ 31 ∷ username)
        × All (λ c. c ≤ max) (candidates cfg realm user)
        × Among max (candidates cfg realm user)
  unfolding resolve
  resolve-highest cfg user key max h =
      let (realm, r, h1) = and_then-some (and_then (pointer auth_realm user) as_str) _ h in
      let (username, u, h2) = and_then-some (and_then (pointer auth_username user) as_str) _ h1 in
      let (top, t, h3) = and_then-some (effective json cfg realm user) _ h2 in
      let (bound, among) =
        raise_all-highest
          (block_limits (lookup realm cfg.realms) (and_then (pointer auth_roles user) as_array))
          cfg.default {m = max} (sym (effective-raise_all cfg realm user) ∙ cc) in
      (realm, username, r, u, cc, bound, among)
