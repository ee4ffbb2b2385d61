-- ===== src/Auth/Gate/Vouched.antt =====
-- What is known of a request that the middleware of backend/internal/middleware/jwt_auth.go and
-- backend/internal/middleware/permission.go lets through.
use snow_panel.Prelude.{
  ℕ, ◌≡◌, ◌⊎◌, refl, sym, ap, subst, ◌∙◌, inl, inr, Text, text, text_eq, text_eq_sound, trim_space,
  is_empty, true, false, not, ◌&&◌, Option, none, some, [], ◌∷◌, ◌++◌, any_of, ◌==◌, arith,
  Bool-cases, if◌then◌else◌,
}
use snow_panel.Program.Results.{Tells, if-Tells, bind-Tells, return-Tells}
use mathlib.Core.Option.{some-injective}
use snow_panel.Errors.{
  password_change_need, unauthorized, token_parse, app, AppError, GoError, Result, ok, err,
}
use snow_panel.Auth.Env.{AuthEnv, AuthWorld, A, JwtClaims, clock, ◌>>=◌, return}
use snow_panel.Auth.Tokens.{
  TokenClaims, read_claims, normal_use, parse_token_with_use, parse_token, token_use_access,
}
use snow_panel.Auth.Sessions.{validate_session}
use snow_panel.Auth.Gate.{
  Identity, Passage, aborted, passed, bearer, strip_prefix, is_password_change_allowed_path,
  identity_of, check_token, jwt_auth, require_permission, guarded,
}
use snow_panel.Auth.Sessions.Accepted.{Accepts, session-Tells}

not_some : {T : Type 0} {s : Text} → ◌≡◌ {A = Option Text} none (some s) → T
not_some q = absurd (cc)

strip_prefix_sound : (p s rest : Text) → strip_prefix p s ≡ some rest → s ≡ p ++ rest
unfolding strip_prefix
strip_prefix_sound [] s rest h = some-injective s rest h
strip_prefix_sound (a ∷ p) [] rest h = not_some h
strip_prefix_sound (a ∷ p) (b ∷ s) rest h = elim (Bool-cases (a == b)) [
  | inl f ↦
      let same : a ≡ b = ground (arith, f) in
      λ i. sym same i ∷ strip_prefix_sound p s rest (rw f at h) i
  | inr f ↦ not_some (rw f at h)
]

not_passed :
    {T : Type 0} {R : Type 0} (a : AppError) (i : R)
    → ◌≡◌ {A = Passage R} (aborted a) (passed i)
    → T
not_passed a i q = absurd (cc)

passed-injective : {a b : Identity} → ◌≡◌ {A = Passage Identity} (passed a) (passed b) → a ≡ b
passed-injective q = cc

-- What is said of a request that is let through.
pub record IsVouched (e : AuthEnv) (permission path header : Text) (w : AuthWorld) (i : Identity)
    : Type 0 where
  pub token : Text
  pub claims : JwtClaims
  pub header_is : header ≡ bearer ++ token
  pub parsed : e.parse e.cfg.jwt_secret (e.turn w.steps).now (trim_space token) ≡ some claims
  pub is_access : normal_use e claims ≡ text "access"
  pub identity_is : i ≡ identity_of (read_claims e (text "access") claims)
  pub accepted : Accepts e (read_claims e (text "access") claims) w
  pub has_permission : any_of (λ p. text_eq p permission) claims.permissions ≡ true
  pub may_pass :
      (claims.must_change_password ≡ false) ⊎ (is_password_change_allowed_path path ≡ true)

-- What `ParseToken` has read.
record IsRead (e : AuthEnv) (token : Text) (w : AuthWorld) (c : TokenClaims) : Type 0 where
  claims : JwtClaims
  parsed : e.parse e.cfg.jwt_secret (e.turn w.steps).now token ≡ some claims
  is_access : normal_use e claims ≡ text "access"
  claims_is : c ≡ read_claims e (text "access") claims

not_read_claims :
    {T : Type 0} (x : GoError) (c : TokenClaims) → ◌≡◌ {A = Result TokenClaims} (err x) (ok c) → T
not_read_claims x c q = absurd (cc)

claims-injective : {a b : TokenClaims} → ◌≡◌ {A = Result TokenClaims} (ok a) (ok b) → a ≡ b
claims-injective q = cc

module _ (e : AuthEnv) (path : Text) (w : AuthWorld) where
  claims_of_parse :
      (token : Text) (c : TokenClaims) (now : ℕ) (o : Option JwtClaims)
      → (e.turn w.steps).now ≡ now
      → e.parse e.cfg.jwt_secret now token ≡ o
      → ◌≡◌ {A = Result TokenClaims}
          (elim o [
            | none ↦ err (app token_parse)
            | some j ↦
                if not (is_empty token_use_access)
                  && not (text_eq (normal_use e j) token_use_access)
                then err (app token_parse)
                else ok (read_claims e (normal_use e j) j)
          ])
          (ok c)
      → IsRead e token w c
  unfolding text
  claims_of_parse token c now none at q h = not_read_claims _ c h
  claims_of_parse token c now (some j) at q h =
      elim (Bool-cases (text_eq (normal_use e j) token_use_access)) [
        | inl f ↦
            let access : normal_use e j ≡ text "access" = text_eq_sound _ _ f in
            record {
              claims = j;
              parsed = ap (λ n. e.parse e.cfg.jwt_secret n token) at ∙ q;
              is_access = access;
              claims_is = sym (claims-injective (rw f at h)) ∙ ap (λ t. read_claims e t j) access;
            }
        | inr f ↦ not_read_claims _ c (rw f at h)
      ]

  parse-Tells :
      (token : Text) (c : TokenClaims) → Tells w (ok c) (IsRead e token w c) (parse_token e token)
  unfolding parse_token_with_use clock
  parse-Tells token c =
      bind-Tells _ _ λ now q. return-Tells _ λ h. claims_of_parse token c now _ q refl h

  -- What `JWTAuth` has checked.
  record IsAdmitted (header : Text) (i : Identity) : Type 0 where
    token : Text
    claims : JwtClaims
    header_is : header ≡ bearer ++ token
    parsed : e.parse e.cfg.jwt_secret (e.turn w.steps).now (trim_space token) ≡ some claims
    is_access : normal_use e claims ≡ text "access"
    identity_is : i ≡ identity_of (read_claims e (text "access") claims)
    accepted : Accepts e (read_claims e (text "access") claims) w
    may_pass : (claims.must_change_password ≡ false) ⊎ (is_password_change_allowed_path path ≡ true)

  parse_same : (token : Text) → (parse_token e token w).1 ≡ w
  unfolding parse_token_with_use clock ◌>>=◌ return
  parse_same token = refl

  admit :
      (header rest : Text) (i : Identity)
      → header ≡ bearer ++ rest
      → (c : TokenClaims) → (parse_token e (trim_space rest) w).0 ≡ ok c
      → (validate_session e c (parse_token e (trim_space rest) w).1).0 ≡ ok tt
      → (if c.must_change_password && not (is_password_change_allowed_path path)
          then aborted password_change_need
          else passed (identity_of c))
        ≡ passed i
      → IsAdmitted header i
  admit header rest i header_is c q v h =
      elim (Bool-cases (c.must_change_password && not (is_password_change_allowed_path path))) [
        | inl f ↦ not_passed _ i (rw f at h)
        | inr f ↦
            let r = (parse-Tells (trim_space rest) c).tells q in
            record {
              token = rest;
              claims = r.claims;
              header_is = header_is;
              parsed = r.parsed;
              is_access = r.is_access;
              identity_is = sym (passed-injective (rw f at h)) ∙ ap identity_of r.claims_is;
              accepted =
                  subst (λ x. Accepts e x w) r.claims_is
                    ((session-Tells e c w).tells (
                      subst (λ y. (validate_session e c y).0 ≡ ok tt) (parse_same (trim_space rest))
                        v));
              may_pass =
                  subst
                    (λ (x : TokenClaims).
                      (x.must_change_password ≡ false)
                      ⊎ (is_password_change_allowed_path path ≡ true))
                    r.claims_is (ground (arith, f));
            }
      ]

  check-Tells :
      (header rest : Text) (i : Identity)
      → header ≡ bearer ++ rest
      → Tells w (passed i) (IsAdmitted header i) (check_token e path (trim_space rest))
  unfolding check_token
  check-Tells header rest i header_is = bind-Tells _ _ (elim [
    | err x ↦ λ q. return-Tells _ (not_passed _ i)
    | ok c ↦ λ q. bind-Tells _ _ (elim [
      | err x ↦ λ v. return-Tells _ (not_passed _ i)
      | ok _ ↦ λ v. return-Tells _ (admit header rest i header_is c q v)
    ])
  ])

  jwt-Tells :
      (header : Text) (i : Identity)
      → Tells w (passed i) (IsAdmitted header i) (jwt_auth e path header)
  unfolding jwt_auth
  jwt-Tells header i =
      if-Tells (is_empty header) (λ a. return-Tells _ (not_passed _ i))
        λ a. stripped (strip_prefix bearer header) refl
    where
      stripped :
          (o : Option Text)
          → strip_prefix bearer header ≡ o
          → Tells w (passed i) (IsAdmitted header i) (elim o as (λ _. A (Passage Identity)) [
            | none ↦ return (aborted unauthorized)
            | some rest ↦ check_token e path (trim_space rest)
          ])
      stripped none q = return-Tells _ (not_passed _ i)
      stripped (some rest) q = check-Tells header rest i (strip_prefix_sound bearer header rest q)

module _ (e : AuthEnv) (permission path header : Text) (w : AuthWorld) (i : Identity) where
  vouch :
      (j : Identity)
      → (jwt_auth e path header w).0 ≡ passed j
      → require_permission permission j ≡ passed i
      → IsVouched e permission path header w i
  unfolding require_permission
  vouch j q h = elim (Bool-cases (any_of (λ p. text_eq p permission) j.permissions)) [
    | inl f ↦
        let a = (jwt-Tells e path w header j).tells q in
        record {
          token = a.token;
          claims = a.claims;
          header_is = a.header_is;
          parsed = a.parsed;
          is_access = a.is_access;
          identity_is = sym (passed-injective (rw f at h)) ∙ a.identity_is;
          accepted = a.accepted;
          has_permission =
              ap (λ (x : Identity). any_of (λ p. text_eq p permission) x.permissions)
                (sym a.identity_is)
              ∙ f;
          may_pass = a.may_pass;
        }
    | inr f ↦ not_passed _ i (rw f at h)
  ]

  gate-Tells :
      Tells w (passed i) (IsVouched e permission path header w i) (guarded e permission path header)
  unfolding guarded require_permission
  gate-Tells = bind-Tells _ _ (elim [
    | aborted a ↦ λ q. return-Tells _ (not_passed a i)
    | passed j ↦ λ q. return-Tells _ (vouch j q)
  ])

-- A request that both middlewares let through has in its header an access token that the JWT library
-- accepts, for a user who exists and may log in, of a session that is not before the user's last one,
-- made for roles and permissions with the checksum of those that the database gives now, and with the
-- permission of the route. If the token asks for a change of the password, the path is one of the
-- three that this allows. Others may write at any time.
pub guarded-IsVouched :
    (e : AuthEnv) (permission path header : Text) (w : AuthWorld) (i : Identity)
    → (guarded e permission path header w).0 ≡ passed i
    → IsVouched e permission path header w i
guarded-IsVouched e permission path header w i = (gate-Tells e permission path header w i).tells
