-- ===== src/Calculate.antt =====
-- Arithmetic and comparison of values: calculate.c, and the result codes of lre.h.
pub mod Laws
use lre.Base.{
  ℕ, Bool, true, false, not, ◌||◌, Option, none, some, [], ◌∷◌, ◌==◌, ltb, if◌then◌else◌,
}
use lre.Base.Int.{ℤ, pos, negsuc, ◌+ℤ◌, ◌-ℤ◌, ◌*ℤ◌, div_ℤ, ltb_ℤ, eqb_ℤ, checked}
use lre.Symbols.{Sym}
use lre.Token.{Word}

-- `RET_DEAD_VAL`, 0xdeaddeed as an `int`.
abbrev pub ret_dead_val : ℤ
ret_dead_val = negsuc 559030546

abbrev pub bool_int : Bool → ℤ
bool_int true = pos 1
bool_int false = pos 0

-- `vaild_lre_results`.
abbrev pub vaild_lre_results : ℤ → Bool
vaild_lre_results r = eqb_ℤ r (pos 1) || eqb_ℤ r (pos 0)

-- `none` where the C operation is undefined: overflow, and division by zero.
unfoldable pub lre_calc_int : ℤ → ℤ → Sym → Option ℤ
lre_calc_int a b Sym.add = checked (a +ℤ b)
lre_calc_int a b Sym.sub = checked (a -ℤ b)
lre_calc_int a b Sym.mul = checked (a *ℤ b)
lre_calc_int a b Sym.div = if eqb_ℤ b (pos 0) then none else checked (div_ℤ a b)
lre_calc_int a b _ = some ret_dead_val

unfoldable pub lre_compare_int : ℤ → ℤ → Sym → ℤ
lre_compare_int a b Sym.equal = bool_int (eqb_ℤ a b)
lre_compare_int a b Sym.not_equal = bool_int (not (eqb_ℤ a b))
lre_compare_int a b Sym.gt = bool_int (ltb_ℤ b a)
lre_compare_int a b Sym.lt = bool_int (ltb_ℤ a b)
lre_compare_int a b Sym.gt_or_equal = bool_int (not (ltb_ℤ a b))
lre_compare_int a b Sym.lt_or_equal = bool_int (not (ltb_ℤ b a))
lre_compare_int a b _ = ret_dead_val

-- `==` and `<` of doubles are given; the others are made of them, as for a value that is no number.
unfoldable pub lre_compare_double : {D : Type 0} → (D → D → Bool) → (D → D → Bool) → D → D → Sym → ℤ
lre_compare_double eq lt a b Sym.equal = bool_int (eq a b)
lre_compare_double eq lt a b Sym.not_equal = bool_int (not (eq a b))
lre_compare_double eq lt a b Sym.gt = bool_int (lt b a)
lre_compare_double eq lt a b Sym.lt = bool_int (lt a b)
lre_compare_double eq lt a b Sym.gt_or_equal = bool_int (lt b a || eq a b)
lre_compare_double eq lt a b Sym.lt_or_equal = bool_int (lt a b || eq a b)
lre_compare_double eq lt a b _ = ret_dead_val

-- The C library's `strcmp`: the sign of the first difference, of bytes.
unfoldable pub strcmp : Word → Word → ℤ
strcmp [] [] = pos 0
strcmp [] (d ∷ ds) = negsuc 0
strcmp (c ∷ cs) [] = pos 1
strcmp (c ∷ cs) (d ∷ ds) =
    let rest = strcmp cs ds in if ltb c d then negsuc 0 else if ltb d c then pos 1 else rest

unfoldable pub lre_compare_string : Word → Word → Sym → ℤ
lre_compare_string a b Sym.equal = bool_int (eqb_ℤ (strcmp a b) (pos 0))
lre_compare_string a b Sym.not_equal = bool_int (not (eqb_ℤ (strcmp a b) (pos 0)))
lre_compare_string a b Sym.gt = bool_int (ltb_ℤ (pos 0) (strcmp a b))
lre_compare_string a b Sym.lt = bool_int (ltb_ℤ (strcmp a b) (pos 0))
lre_compare_string a b Sym.gt_or_equal = bool_int (not (ltb_ℤ (strcmp a b) (pos 0)))
lre_compare_string a b Sym.lt_or_equal = bool_int (not (ltb_ℤ (pos 0) (strcmp a b)))
lre_compare_string a b _ = ret_dead_val

-- `lre_compare`, which is handed the comparison.
unfoldable pub lre_compare : {A : Type 0} → A → A → Sym → (A → A → ℤ) → ℤ
lre_compare a b Sym.equal cmp = bool_int (eqb_ℤ (cmp a b) (pos 0))
lre_compare a b Sym.not_equal cmp = bool_int (not (eqb_ℤ (cmp a b) (pos 0)))
lre_compare a b Sym.gt cmp = bool_int (ltb_ℤ (pos 0) (cmp a b))
lre_compare a b Sym.lt cmp = bool_int (ltb_ℤ (cmp a b) (pos 0))
lre_compare a b Sym.gt_or_equal cmp = bool_int (not (ltb_ℤ (cmp a b) (pos 0)))
lre_compare a b Sym.lt_or_equal cmp = bool_int (not (ltb_ℤ (pos 0) (cmp a b)))
lre_compare a b _ cmp = ret_dead_val
