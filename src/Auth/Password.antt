-- ===== src/Auth/Password.antt =====
-- Passwords in backend/internal/service/auth_service.go: `isStrongPassword` and
-- `isProductionEnv`.
pub mod Strength
use snow_panel.Prelude.{
  ℕ, Text, text, trim_space, byte_len, Bool, true, false, not, ◌&&◌, ◌||◌, List, [], ◌∷◌, leb, ltb,
  any_of, if◌then◌else◌,
}

abbrev pub is_upper : ℕ → Bool
is_upper c = leb 65 c && leb c 90

abbrev pub is_lower : ℕ → Bool
is_lower c = leb 97 c && leb c 122

abbrev pub is_digit : ℕ → Bool
is_digit c = leb 48 c && leb c 57

abbrev pub is_symbol : ℕ → Bool
is_symbol c = not (is_upper c || is_lower c || is_digit c)

-- The flags `hasUpper`, `hasLower`, `hasDigit` and `hasSymbol` of the loop.
pub record Seen : Type 0 where
  pub upper : Bool
  pub lower : Bool
  pub digit : Bool
  pub symbol : Bool

-- One round of the loop, by the cases of its switch.
unfoldable pub see : ℕ → Seen → Seen
see c s =
    if is_upper c
    then record s { upper = true }
    else if is_lower c
    then record s { lower = true }
    else if is_digit c
    then record s { digit = true }
    else record s { symbol = true }

unfoldable pub see_all : Text → Seen → Seen
unfolding see
see_all [] s = s
see_all (c ∷ rest) s = see_all rest (see c s)

unfoldable pub is_strong_password : Text → Bool
unfolding see_all
is_strong_password raw =
    let password = trim_space raw in
    let s =
      see_all password (record { upper = false; lower = false; digit = false; symbol = false }) in
    if ltb (byte_len password) 14 then false else s.upper && s.lower && s.digit && s.symbol

-- `isProductionEnv`, where `equal_fold` is `strings.EqualFold`.
abbrev pub is_production_env : (Text → Text → Bool) → Text → Bool
is_production_env equal_fold raw = equal_fold (trim_space raw) (text "production")
