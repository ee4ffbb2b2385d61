-- ===== src/Auth/Tokens.antt =====
-- Tokens of backend/internal/service/auth_service.go: what they hold, how a pair is made and how one
-- is read.
use snow_panel.Prelude.{
  ℕ, ℤ, pos, ◌+◌, ◌/◌, Text, text, text_eq, trim_space, is_empty, is_nonpos, Bool, true, false, not,
  ◌&&◌, none, some, List, [], ◌∷◌, ◌++◌, ltb, if◌then◌else◌,
}
use snow_panel.Errors.{app, Result, ok, err, token_parse}
use snow_panel.Login.{second}
use snow_panel.Auth.Users.{User}
use snow_panel.Auth.Roles.{sort_texts}
use snow_panel.Auth.Env.{AuthEnv, JwtClaims, A, ◌>>=◌, return, clock, draw_random}

abbrev pub token_use_access : Text
token_use_access = text "access"

abbrev pub token_use_refresh : Text
token_use_refresh = text "refresh"

-- `TokenClaims`.
pub record TokenClaims : Type 0 where
  pub user_id : ℕ
  pub username : Text
  pub roles : List Text
  pub permissions : List Text
  pub must_change_password : Bool
  pub session_issued_at : ℤ
  pub token_use : Text
  pub rbac_checksum : Text

-- The order of `slices.Sort` on strings, which is that of their code points.
unfoldable pub text_le : Text → Text → Bool
text_le [] t = true
text_le (a ∷ s) [] = false
text_le (a ∷ s) (b ∷ t) = if ltb a b then true else if ltb b a then false else text_le s t

-- `strings.Join(..., ",")`.
unfoldable pub join_comma : List Text → Text
join_comma [] = []
join_comma (t ∷ []) = t
join_comma (t ∷ s ∷ rest) = t ++ (text "," ++ join_comma (s ∷ rest))

-- The text that `computeRBACChecksum` hashes.
unfoldable pub rbac_payload : List Text → List Text → Text
unfolding join_comma
rbac_payload roles permissions =
    join_comma (sort_texts text_le roles)
    ++ (text "|" ++ join_comma (sort_texts text_le permissions))

unfoldable pub compute_rbac_checksum : (Text → Text) → List Text → List Text → Text
unfolding rbac_payload
compute_rbac_checksum digest roles permissions = digest (rbac_payload roles permissions)

module _ (e : AuthEnv) where
  -- `generateToken`.
  unfoldable pub generate_token :
      User → List Text → List Text → Bool → Text → Text → ℕ → ℤ → A (Result (Text × ℕ))
  generate_token u roles permissions must purpose checksum expire session = do
    now ← clock e
    drawn ← draw_random e 16
    elim drawn [
      | err x ↦ return (err x)
      | ok token_id ↦
          return
            (elim (e.sign e.cfg.jwt_secret (record {
              user_id = u.id;
              username = u.username;
              roles = roles;
              permissions = permissions;
              must_change_password = must;
              session_issued_at = session;
              token_use = purpose;
              rbac_checksum = checksum;
              expires_at = now + expire;
              issued_at = now;
              issuer = e.cfg.jwt_issuer;
              subject = u.username;
              token_id = token_id;
            })) [ err x ↦ err x | ok token ↦ ok (token, expire / second) ])
    ]

  abbrev pub session_or : ℕ → ℤ → ℤ
  session_or now session = if is_nonpos session then pos now else session

  -- `generateTokenPair`: the access token and the refresh token, each with the seconds it is valid.
  unfoldable pub generate_token_pair :
      User → List Text → List Text → Bool → ℤ → A (Result ((Text × ℕ) × (Text × ℕ)))
  unfolding generate_token compute_rbac_checksum
  generate_token_pair u roles permissions must session = do
    now ← clock e
    let checksum = compute_rbac_checksum e.digest roles permissions
    let at = session_or now session
    a ← generate_token u roles permissions must token_use_access checksum e.cfg.jwt_expire at
    elim a [
      | err x ↦ return (err x)
      | ok access ↦ do
        b ←
            generate_token u roles permissions must token_use_refresh checksum
              e.cfg.jwt_refresh_expire at
        elim b [ err x ↦ return (err x) | ok refresh ↦ return (ok (access, refresh)) ]
    ]

  abbrev pub read_claims : Text → JwtClaims → TokenClaims
  read_claims purpose c = record {
    user_id = c.user_id;
    username = c.username;
    roles = c.roles;
    permissions = c.permissions;
    must_change_password = c.must_change_password;
    session_issued_at = c.session_issued_at;
    token_use = purpose;
    rbac_checksum = trim_space c.rbac_checksum;
  }

  abbrev pub normal_use : JwtClaims → Text
  normal_use c =
      let purpose = trim_space (e.lower c.token_use) in
      if is_empty purpose then token_use_access else purpose

  -- `parseTokenWithUse`.
  unfoldable pub parse_token_with_use : Text → Text → A (Result TokenClaims)
  parse_token_with_use raw expected = do
    now ← clock e
    return (elim (e.parse e.cfg.jwt_secret now raw) [
      | none ↦ err (app token_parse)
      | some c ↦
          if not (is_empty expected) && not (text_eq (normal_use c) expected)
          then err (app token_parse)
          else ok (read_claims (normal_use c) c)
    ])

  -- `ParseToken`.
  abbrev pub parse_token : Text → A (Result TokenClaims)
  parse_token raw = parse_token_with_use raw token_use_access
