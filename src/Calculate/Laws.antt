-- ===== src/Calculate/Laws.antt =====
-- What the comparisons of calculate.c return, for every operator.
use lre.Base.{Bool, true, false, not, [], ◌∷◌, ◌≡◌, ◌↔◌, refl, arith}
use lre.Base.Int.{ℤ, pos, ◌-ℤ◌}
use lre.Symbols.{Sym, get_symbol_type}
use lre.Peek.{is_comp}
use lre.Token.{Word}
use lre.Calculate.{
  bool_int, vaild_lre_results, strcmp, lre_compare_int, lre_compare_double, lre_compare_string,
}

-- The operator that holds where `o` does not.
abbrev complement : Sym → Sym
complement Sym.equal = Sym.not_equal
complement Sym.not_equal = Sym.equal
complement Sym.gt = Sym.lt_or_equal
complement Sym.lt = Sym.gt_or_equal
complement Sym.gt_or_equal = Sym.lt
complement Sym.lt_or_equal = Sym.gt
complement o = o

-- The operator with its sides exchanged.
abbrev mirror : Sym → Sym
mirror Sym.gt = Sym.lt
mirror Sym.lt = Sym.gt
mirror Sym.gt_or_equal = Sym.lt_or_equal
mirror Sym.lt_or_equal = Sym.gt_or_equal
mirror o = o

valid-bool_int : (b : Bool) → vaild_lre_results (bool_int b) ≡ true
valid-bool_int true = refl
valid-bool_int false = refl

-- A comparison of integers has a valid result for the comparison operators and for no other.
valid-lre_compare_int :
    (a b : ℤ) (o : Sym) → vaild_lre_results (lre_compare_int a b o) ≡ is_comp (get_symbol_type o)
unfolding lre_compare_int
valid-lre_compare_int a b Sym.equal = valid-bool_int _
valid-lre_compare_int a b Sym.not_equal = valid-bool_int _
valid-lre_compare_int a b Sym.gt = valid-bool_int _
valid-lre_compare_int a b Sym.lt = valid-bool_int _
valid-lre_compare_int a b Sym.gt_or_equal = valid-bool_int _
valid-lre_compare_int a b Sym.lt_or_equal = valid-bool_int _
valid-lre_compare_int a b _ = refl

bool_int-not : (b : Bool) → bool_int (not b) ≡ pos 1 -ℤ bool_int b
unfolding ◌-ℤ◌
bool_int-not true = refl
bool_int-not false = refl

bool_int_not : (b : Bool) → bool_int b ≡ pos 1 -ℤ bool_int (not b)
unfolding ◌-ℤ◌
bool_int_not true = refl
bool_int_not false = refl

-- The complementary operator gives the other result.
lre_compare_int-complement :
    (a b : ℤ) (o : Sym)
    → is_comp (get_symbol_type o) ≡ true
    → lre_compare_int a b (complement o) ≡ pos 1 -ℤ lre_compare_int a b o
unfolding lre_compare_int
lre_compare_int-complement a b Sym.equal h = bool_int-not _
lre_compare_int-complement a b Sym.not_equal h = bool_int_not _
lre_compare_int-complement a b Sym.gt h = bool_int-not _
lre_compare_int-complement a b Sym.lt h = bool_int-not _
lre_compare_int-complement a b Sym.gt_or_equal h = bool_int_not _
lre_compare_int-complement a b Sym.lt_or_equal h = bool_int_not _
lre_compare_int-complement a b _ h = cc

-- Exchanging the sides and mirroring the operator changes nothing.
lre_compare_int-mirror :
    (a b : ℤ) (o : Sym) → lre_compare_int b a (mirror o) ≡ lre_compare_int a b o
unfolding lre_compare_int
lre_compare_int-mirror a b Sym.equal = ground arith
lre_compare_int-mirror a b Sym.not_equal = ground arith
lre_compare_int-mirror a b _ = refl

strcmp-swap : (a b : Word) → strcmp b a ≡ pos 0 -ℤ strcmp a b
unfolding strcmp ◌-ℤ◌
strcmp-swap [] [] = refl
strcmp-swap [] (d ∷ ds) = refl
strcmp-swap (c ∷ cs) [] = refl
strcmp-swap (c ∷ cs) (d ∷ ds) = ground (arith, strcmp-swap cs ds)

-- Strings compare the same way from both sides, for every operator.
lre_compare_string-mirror :
    (a b : Word) (o : Sym) → lre_compare_string b a (mirror o) ≡ lre_compare_string a b o
unfolding lre_compare_string ◌-ℤ◌
lre_compare_string-mirror a b Sym.equal = rw (strcmp-swap a b) (ground arith)
lre_compare_string-mirror a b Sym.not_equal = ground (arith, strcmp-swap a b)
lre_compare_string-mirror a b Sym.gt = ground (arith, strcmp-swap a b)
lre_compare_string-mirror a b Sym.lt = ground (arith, strcmp-swap a b)
lre_compare_string-mirror a b Sym.gt_or_equal = ground (arith, strcmp-swap a b)
lre_compare_string-mirror a b Sym.lt_or_equal = ground (arith, strcmp-swap a b)
lre_compare_string-mirror a b _ = refl

strcmp-zero : (a b : Word) → strcmp a b ≡ pos 0 → a ≡ b
unfolding strcmp
strcmp-zero [] [] h = refl
strcmp-zero [] (d ∷ ds) h = cc
strcmp-zero (c ∷ cs) [] h = cc
strcmp-zero (c ∷ cs) (d ∷ ds) h = ground (arith, strcmp-zero cs ds)

strcmp_self : (a : Word) → strcmp a a ≡ pos 0
unfolding strcmp
strcmp_self [] = refl
strcmp_self (c ∷ cs) = ground (arith, strcmp_self cs)

-- `==` on strings holds of equal strings and of no others.
lre_compare_string-equal : (a b : Word) → (lre_compare_string a b Sym.equal ≡ pos 1) ↔ (a ≡ b)
unfolding lre_compare_string
lre_compare_string-equal a b =
    (λ h. strcmp-zero a b (ground arith), λ e. rw e (ground (arith, strcmp_self b)))

-- The same holds of doubles, where `==` does not depend on the order.
lre_compare_double-mirror :
    {D : Type 0} (eq lt : D → D → Bool) (a b : D) (o : Sym)
    → ((x y : D) → eq x y ≡ eq y x)
    → lre_compare_double eq lt b a (mirror o) ≡ lre_compare_double eq lt a b o
unfolding lre_compare_double
lre_compare_double-mirror eq lt a b Sym.equal h = ground (arith, h a b)
lre_compare_double-mirror eq lt a b Sym.not_equal h = ground (arith, h a b)
lre_compare_double-mirror eq lt a b Sym.gt_or_equal h = ground (arith, h a b)
lre_compare_double-mirror eq lt a b Sym.lt_or_equal h = ground (arith, h a b)
lre_compare_double-mirror eq lt a b _ h = refl
