-- ===== src/Auth/Login.antt =====
-- The answers of `POST auth/token`: `AuthController.token` and `issueToken` of src/interfaces/auth.
use node_b2b_orders.Base.{
  ℕ, ◌+◌, String, ◌≡◌, ◌⊎◌, refl, Bool, true, false, not, ◌&&◌, ◌||◌, Option, none, some, arith,
  Option-cases, Bool-cases, inl, inr, Result, ok, err, unauthorized, invalid_value, signing_failed,
}
use node_b2b_orders.Guards.{non_empty}
use node_b2b_orders.Auth.{
  Account, Directory, Claims, Issued, tid_of, claims, token_claims, issue_token, token,
}

-- The account exists, the password fits, and it is a global administrator or has a tenant.
abbrev pub may_log_in : (String → String → Bool) → Directory → (email password : String) → Bool
may_log_in compare_password dir email password = elim (dir.users email) [
  | none ↦ false
  | some user ↦
      compare_password password user.password_hash
      && (user.is_global_admin || elim (non_empty user.tenant_id) [ none ↦ false | some t ↦ true ])
]

-- The account is a global administrator, and the tenant that it asks for is no UUID.
abbrev pub names_no_uuid : Directory → (email : String) (chosen : Option String) → Bool
names_no_uuid dir email chosen = elim (dir.users email) [
  | none ↦ false
  | some user ↦ elim (non_empty chosen) [
    | none ↦ false
    | some id ↦ user.is_global_admin && not (dir.is_uuid id)
  ]
]

-- The answer to claims for that account and time: the signed token, or the error of the signature.
abbrev pub Signs : (Claims → Option String) → (lifetime : ℕ) → Claims → Result Issued → Type 0
Signs sign lifetime c answer =
    ((signed : String) × (sign c ≡ some signed)
      × (answer ≡ ok (record { token = signed; expires_in = lifetime })))
    ⊎ ((sign c ≡ none) × (answer ≡ err signing_failed))

module _ (compare_password : String → String → Bool) (sign : Claims → Option String)
    (dir : Directory) (now lifetime : ℕ) (email password : String) (chosen : Option String) where
  abbrev pub LoginOutcome : Result Issued → Type 0
  LoginOutcome answer =
      ((may_log_in compare_password dir email password ≡ false)
        × (answer ≡ err (unauthorized "Invalid credentials")))
      ⊎ (((may_log_in compare_password dir email password ≡ true)
            × (names_no_uuid dir email chosen ≡ true)
            × (answer ≡ err invalid_value))
          ⊎ ((may_log_in compare_password dir email password ≡ true)
              × (names_no_uuid dir email chosen ≡ false)
              × (c : Claims) × (c.sub ≡ email)
              × (c.exp ≡ now + lifetime)
              × Signs sign lifetime c answer))

  token-Signs :
      (c : Claims)
      → token_claims compare_password dir now lifetime email password chosen ≡ ok (some c)
      → Signs sign lifetime c (token compare_password sign dir now lifetime email password chosen)
  unfolding token issue_token
  token-Signs c h = elim (Option-cases (sign c)) [
    | inl none_signed ↦ inr (none_signed, ground (arith, h, none_signed))
    | inr (signed, e) ↦ inl (signed, e, ground (arith, h, e))
  ]

  token-refuses :
      token_claims compare_password dir now lifetime email password chosen ≡ ok none
      → token compare_password sign dir now lifetime email password chosen
        ≡ err (unauthorized "Invalid credentials")
  unfolding token issue_token
  token-refuses h = ground (arith, h)

  token-fails :
      token_claims compare_password dir now lifetime email password chosen ≡ err invalid_value
      → token compare_password sign dir now lifetime email password chosen ≡ err invalid_value
  unfolding token issue_token
  token-fails h = ground (arith, h)

  -- The claims of an account with the right password, whose `tid` is there.
  login :
      (user : Account) (tid : String)
      → dir.users email ≡ some user
      → compare_password password user.password_hash ≡ true
      → tid_of user ≡ some tid
      → may_log_in compare_password dir email password ≡ true
      → LoginOutcome (token compare_password sign dir now lifetime email password chosen)
  unfolding token_claims
  login user tid found right t may = elim (Bool-cases (names_no_uuid dir email chosen)) [
    | inl bad ↦ inr (inl (may, bad, token-fails (ground (arith, found, right, t, bad))))
    | inr fine ↦
        let c = claims dir email user tid chosen now lifetime in
        inr (inr (may, fine, c, refl, refl, token-Signs c (ground (arith, found, right, t, fine))))
  ]

  -- `POST auth/token`. To an unknown account, a wrong password and an account that is no global
  -- administrator and has no tenant, it answers alike, that the credentials are invalid. To the right
  -- password of any other account it answers with the error of the database where a global
  -- administrator asks for a tenant whose id is no UUID, and otherwise with a token, signed over claims
  -- for that email and the configured lifetime, or the error of the signature where signing fails.
  pub token_lem : LoginOutcome (token compare_password sign dir now lifetime email password chosen)
  unfolding token_claims
  token_lem = elim (Option-cases (dir.users email)) [
    | inl absent ↦ inl (ground (arith, absent), token-refuses (ground (arith, absent)))
    | inr (user, found) ↦ elim (Bool-cases (compare_password password user.password_hash)) [
      | inr wrong ↦ inl (ground (arith, found, wrong), token-refuses (ground (arith, found, wrong)))
      | inl right ↦ elim (Bool-cases user.is_global_admin) [
        | inl admin ↦
            login user "*" found right (rw admin refl) (ground (arith, found, right, admin))
        | inr plain ↦ elim (Option-cases (non_empty user.tenant_id)) [
          | inl no_tenant ↦ inl (
            ground (arith, found, right, plain, no_tenant),
            token-refuses (ground (arith, found, right, plain, no_tenant)),
          )
          | inr (own, tenant) ↦
              login user own found right (rw (plain, tenant) refl)
                (ground (arith, found, right, plain, tenant))
        ]
      ]
    ]
  ]
