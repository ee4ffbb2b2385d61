-- ===== src/Auth/Password/Strength.antt =====
-- `isStrongPassword` of backend/internal/service/auth_service.go without its loop.
use snow_panel.Prelude.{
  ℕ, ◌≡◌, Text, trim_space, byte_len, Bool, false, ◌&&◌, ◌||◌, [], ◌∷◌, leb, any_of, arith,
}
use snow_panel.Auth.Password.{
  is_upper, is_lower, is_digit, is_symbol, Seen, see, see_all, is_strong_password,
}

-- One round sets the flag of the class of the character, and each character has one class.
see_sets :
    (c : ℕ) (s : Seen)
    → ((see c s).upper ≡ s.upper || is_upper c)
      × ((see c s).lower ≡ s.lower || is_lower c)
      × ((see c s).digit ≡ s.digit || is_digit c)
      × ((see c s).symbol ≡ s.symbol || is_symbol c)
unfolding see
see_sets c s = (ground arith, ground arith, ground arith, ground arith)

or_assoc : (a b c : Bool) → (a || b) || c ≡ a || (b || c)
or_assoc a b c = ground arith

see_all_sets :
    (p : Text) (s : Seen)
    → ((see_all p s).upper ≡ s.upper || any_of is_upper p)
      × ((see_all p s).lower ≡ s.lower || any_of is_lower p)
      × ((see_all p s).digit ≡ s.digit || any_of is_digit p)
      × ((see_all p s).symbol ≡ s.symbol || any_of is_symbol p)
unfolding see_all
see_all_sets [] s = (ground arith, ground arith, ground arith, ground arith)
see_all_sets (c ∷ p) s =
    let (u, l, d, y) = see_all_sets p (see c s) in
    let (u', l', d', y') = see_sets c s in
    (
      rw (u, u') (or_assoc s.upper (is_upper c) (any_of is_upper p)),
      rw (l, l') (or_assoc s.lower (is_lower c) (any_of is_lower p)),
      rw (d, d') (or_assoc s.digit (is_digit c) (any_of is_digit p)),
      rw (y, y') (or_assoc s.symbol (is_symbol c) (any_of is_symbol p)),
    )

-- A password is strong exactly if, without the spaces around it, it takes at least 14 bytes in UTF-8
-- and has a character from A to Z, one from a to z, one from 0 to 9 and one that is none of these.
pub is_strong_password_lem :
    (raw : Text)
    → let p = trim_space raw in
      is_strong_password raw ≡ (
        leb 14 (byte_len p)
        && any_of is_upper p
        && any_of is_lower p
        && any_of is_digit p
        && any_of is_symbol p)
unfolding is_strong_password
is_strong_password_lem raw =
    let (u, l, d, y) =
      see_all_sets (trim_space raw)
        (record { upper = false; lower = false; digit = false; symbol = false }) in
    rw (u, l, d, y) (ground arith)
