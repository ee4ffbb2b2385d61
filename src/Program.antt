-- ===== src/Program.antt =====
-- A Go method that changes a state and gives a result: a function on the state. Its Go error is a
-- value of its result.
pub mod Keeps
pub mod Results
pub mod Hoare

abbrev pub Program : Type 0 → Type 0 → Type 0
Program W A = W → A × W

infixl 5 ◌>>=◌ ◌>>◌
unfoldable pub ◌>>=◌ : {W A B : Type 0} → Program W A → (A → Program W B) → Program W B
◌>>=◌ m f w = let (a, w') = m w in f a w'

abbrev pub ◌>>◌ : {W A B : Type 0} → Program W A → Program W B → Program W B
m >> n = m >>= λ _. n

unfoldable pub return : {W A : Type 0} → A → Program W A
return a w = (a, w)
