-- ===== src/Auth/Strategy.antt =====
-- src/interfaces/auth/jwt.strategy.ts and auth.module.ts: the keys by which tokens are signed and
-- checked. `upper` is `toUpperCase()`. `verify` is `jsonwebtoken`: the token, the key, the algorithm
-- and the issuer. `jwks_key` is `jwksRsa.passportJwtSecret`: the address and the token.
use node_b2b_orders.Base.{
  String, ◌≡◌, refl, Bool, true, false, not, ◌&&◌, ◌||◌, Option, none, some, str_eq, arith,
  Option-cases, Bool-cases, inl, inr, if◌then◌else◌,
}
use node_b2b_orders.Guards.{non_empty}

-- The variables that the two files read; `none` where one is not set.
pub record Environment : Type 0 where
  pub jwks_uri : Option String
  pub jwt_public_key : Option String
  pub jwt_algorithm : Option String
  pub jwt_secret : Option String
  pub jwt_secret_previous : Option String
  pub jwt_issuer : Option String

-- `secretOrKeyProvider`, or the `secretOrKey` of the last case.
pub data KeySource : Type 0 where
  jwks : (uri : String) → KeySource
  public_key : (key : String) → KeySource
  rotating : (current previous : String) → KeySource
  fixed : (key : String) → KeySource

pub record Strategy : Type 0 where
  pub keys : KeySource
  pub algorithm : String
  pub issuer : String

pub record Signing : Type 0 where
  pub secret : Option String
  pub algorithm : String
  pub issuer : String

-- A constructor that may throw an `Error`.
pub data Startup {ℓ} (A : Type ℓ) : Type ℓ where
  starts : A → Startup A
  refuses : String → Startup A

-- `variable || d`
abbrev pub or_variable : Option String → String → String
or_variable v d = elim (non_empty v) [ none ↦ d | some s ↦ s ]

abbrev pub is_set : Option String → Bool
is_set v = elim (non_empty v) [ none ↦ false | some s ↦ true ]

abbrev pub issuer_of : Environment → String
issuer_of env = or_variable env.jwt_issuer "local-auth"

non_empty-some : (v : Option String) (s : String) → non_empty v ≡ some s → str_eq s "" ≡ false
non_empty-some none s h = cc
non_empty-some (some t) s h = ground arith

and_false : (b : Bool) → (b && false) ≡ false
and_false true = refl
and_false false = refl

module _ (upper : String → String) where
  abbrev pub uses_rs256 : Environment → Bool
  uses_rs256 env =
      is_set env.jwks_uri
      || (str_eq (upper (or_variable env.jwt_algorithm "HS256")) "RS256"
          && is_set env.jwt_public_key)

  abbrev needs_provider : Environment → Bool
  needs_provider env =
      (uses_rs256 env && (is_set env.jwks_uri || is_set env.jwt_public_key))
      || (not (uses_rs256 env) && is_set env.jwt_secret_previous)

  -- `secretOrKeyProvider`
  abbrev provider : Environment → Option KeySource
  provider env =
      if needs_provider env
      then some (
          if uses_rs256 env && is_set env.jwks_uri
          then jwks (or_variable env.jwks_uri "")
          else if uses_rs256 env && is_set env.jwt_public_key
          then public_key (or_variable env.jwt_public_key "")
          else rotating (or_variable env.jwt_secret "") (or_variable env.jwt_secret_previous ""))
      else none

  abbrev strategy : Environment → KeySource → Startup Strategy
  strategy env source = starts (record {
    keys = source;
    algorithm = if uses_rs256 env then "RS256" else "HS256";
    issuer = issuer_of env;
  })

  -- The checks at the top of the constructor.
  abbrev missing_keys : Environment → Option String
  missing_keys env =
      if uses_rs256 env
      then (if not (is_set env.jwks_uri) && not (is_set env.jwt_public_key)
          then some "RS256 requires JWKS_URI or JWT_PUBLIC_KEY (with JWT_ALGORITHM=RS256)"
          else none)
      else if not (is_set env.jwt_secret)
      then some "Either JWKS_URI/JWT_PUBLIC_KEY (RS256) or JWT_SECRET (HS256) must be set"
      else none

  -- `new JwtStrategy()`
  unfoldable pub configure : Environment → Startup Strategy
  configure env = elim (missing_keys env) [
    | some message ↦ refuses message
    | none ↦ elim (provider env) [
      | some source ↦ strategy env source
      | none ↦ elim (non_empty env.jwt_secret) [
        | none ↦ refuses "JWT_SECRET must be set when not using secretOrKeyProvider"
        | some secret ↦ strategy env (fixed secret)
      ]
    ]
  ]

-- The options of `JwtModule.register`, by which `AuthService` signs.
unfoldable pub signing : Environment → Startup Signing
signing env =
    if is_set env.jwks_uri
    then starts (record { secret = none; algorithm = "RS256"; issuer = issuer_of env })
    else elim (non_empty env.jwt_secret) [
      | none ↦ refuses "Either JWKS_URI (RS256) or JWT_SECRET (HS256) must be set"
      | some secret ↦
          starts (record { secret = some secret; algorithm = "HS256"; issuer = issuer_of env })
    ]

module _ (verify : (token key algorithm issuer : String) → Bool)
    (jwks_key : (uri token : String) → Option String) where
  -- The key that the strategy gives for a token: the callbacks' `done(null, key)`.
  unfoldable pub key_for : Strategy → (token : String) → Option String
  key_for s token = elim s.keys [
    | jwks uri ↦ jwks_key uri token
    | public_key key ↦ some key
    | fixed key ↦ some key
    | rotating current previous ↦
        if verify token current "HS256" s.issuer
        then some current
        else if str_eq previous ""
        then none
        else if verify token previous "HS256" s.issuer
        then some previous
        else none
  ]

  -- The use of a strategy: the token is checked under the key that the strategy gives for it.
  abbrev pub accepts : Strategy → (token : String) → Bool
  accepts s token = elim (key_for s token) [
    | none ↦ false
    | some key ↦ verify token key s.algorithm s.issuer
  ]

  -- The answer to a token, `none` where the strategy does not start.
  abbrev pub answer : Startup Strategy → (token : String) → Option Bool
  answer (refuses message) token = none
  answer (starts s) token = some (accepts s token)

  abbrev verified : Option String → (token algorithm issuer : String) → Bool
  verified none token algorithm issuer = false
  verified (some key) token algorithm issuer = verify token key algorithm issuer

  -- The rule in one expression.
  abbrev pub rule : (upper : String → String) → Environment → (token : String) → Option Bool
  rule upper env token =
      let issuer = issuer_of env in
      if is_set env.jwks_uri
      then some (verified (jwks_key (or_variable env.jwks_uri "") token) token "RS256" issuer)
      else if uses_rs256 upper env
      then some (verified (non_empty env.jwt_public_key) token "RS256" issuer)
      else elim (non_empty env.jwt_secret) [
        | none ↦ none
        | some secret ↦ some (
            verify token secret "HS256" issuer
            || verified (non_empty env.jwt_secret_previous) token "HS256" issuer)
      ]

  configure-hs256 :
      (upper : String → String) (env : Environment) (token : String)
      → non_empty env.jwks_uri ≡ none
      → (str_eq (upper (or_variable env.jwt_algorithm "HS256")) "RS256"
          && is_set env.jwt_public_key)
        ≡ false
      → answer (configure upper env) token ≡ rule upper env token
  unfolding configure key_for
  configure-hs256 upper env token e r = elim (Option-cases (non_empty env.jwt_secret)) [
    | inl none_set ↦ ground (arith, e, r, none_set)
    | inr (secret, set) ↦ elim (Option-cases (non_empty env.jwt_secret_previous)) [
      | inl single ↦ ground (arith, e, r, set, single)
      | inr (previous, f) ↦
          let full = non_empty-some env.jwt_secret_previous previous f in
          ground (arith, e, r, set, f, full)
    ]
  ]

  -- With the address of a key set, a token is accepted exactly if the set has a key for it under which
  -- it verifies with RS256. Otherwise, with the algorithm RS256 and a public key, exactly if it verifies
  -- under that key. Otherwise the strategy does not start without a secret, and with one it accepts a
  -- token exactly if it verifies with HS256 under the current secret or, while one is set, the previous.
  pub configure-rule :
      (upper : String → String) (env : Environment) (token : String)
      → answer (configure upper env) token ≡ rule upper env token
  unfolding configure key_for
  configure-rule upper env token = elim (Option-cases (non_empty env.jwks_uri)) [
    | inr (uri, e) ↦ ground (arith, e)
    | inl e ↦ elim (Option-cases (non_empty env.jwt_public_key)) [
      | inr (key, f) ↦
          elim (Bool-cases (str_eq (upper (or_variable env.jwt_algorithm "HS256")) "RS256")) [
            | inl h ↦ ground (arith, e, f, h)
            | inr h ↦ configure-hs256 upper env token e (rw h refl)
          ]
      | inl f ↦ configure-hs256 upper env token e (rw (is_set, f) (and_false _))
    ]
  ]
