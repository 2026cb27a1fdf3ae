-- ===== src/Utils.antt =====
-- The text tests of utils.c, on the bytes of a string.
use lre.Base.{ℕ, suc, Bool, true, false, ◌&&◌, [], ◌∷◌, ◌≡◌, refl, ◌==◌, leb, if◌then◌else◌, arith}
use lre.Token.{Word}

abbrev pub isdigit : ℕ → Bool
isdigit c = leb b'0' c && leb c b'9'

unfoldable pub is_digit : Word → Bool
is_digit [] = true
is_digit (c ∷ cs) = let rest = is_digit cs in if isdigit c then rest else false

-- The loop of `is_double_digit`, with the number of dots seen.
unfoldable double_loop : ℕ → Word → Bool
double_loop flags [] = flags == 1
double_loop flags (c ∷ cs) =
    let rest = double_loop (if c == b'.' then suc flags else flags) cs in
    if isdigit c then rest else false

unfoldable pub is_double_digit : Word → Bool
unfolding double_loop
is_double_digit [] = double_loop 0 []
is_double_digit (c ∷ cs) = if c == b'.' then false else double_loop 0 (c ∷ cs)

double_loop-zero : (cs : Word) → double_loop 0 cs ≡ false
unfolding double_loop
double_loop-zero [] = refl
double_loop-zero (c ∷ cs) = ground (arith, double_loop-zero cs)

-- No text passes for a floating-point number: the dot that the test wants fails it as no digit.
pub is_double_digit-eq-false : (cs : Word) → is_double_digit cs ≡ false
unfolding is_double_digit
is_double_digit-eq-false [] = double_loop-zero []
is_double_digit-eq-false (c ∷ cs) = ground (arith, double_loop-zero (c ∷ cs))
