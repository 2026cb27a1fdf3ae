-- ===== src/Lrc/File/Permissions.antt =====
-- The permissions of a file as numbers in decimal digits, and what the expressions of `file` say.
use lre.Base.{
  ◌≢◌, ◌+◌, ◌-◌, ◌*◌, ◌/◌, ◌^◌, ◌≤◌, ltb, ℕ, zero, suc, ◌<◌, Bool, true, false, ◌&&◌, Option, none,
  some, ◌≡◌, refl, sym, ap, ◌∙◌, ◌==◌, if◌then◌else◌, arith,
}
use Prim.Native.Nat.{bit_and}
use native.Mathlib.Nat.{mul_assoc, pow-succ'}
use lre.Base.Int.{ℤ, pos, negsuc, eqb_ℤ}
use lre.Symbols.{Sym}
use lre.Value.{int}
use lre.Calculate.{bool_int, lre_compare}
use lre.Lrc.Values.{Answer}
use lre.Lrc.File.{
  File, file_perm_compare, permission_answer, expr_permission_handler, int2perm, int2perm_loop,
  perm2int, perm2int_loop, word_int, Shown, shown, overflow, out_of_rounds, shown_perm, low_octal,
  shift_octal, digit_rounds, file_permission_mask,
}

-- A test that every number below `n` passes.
all_below : ℕ → (ℕ → Bool) → Bool
all_below zero f = true
all_below (suc n) f = f n && all_below n f

keeps : ℕ → Bool
keeps p = elim (perm2int p) [
  | none ↦ false
  | some n ↦ elim (int2perm (pos n)) [ none ↦ false | some q ↦ p == q ]
]

all-keep : all_below 4096 keeps ≡ true
unfolding keeps all_below int2perm int2perm_loop perm2int perm2int_loop
all-keep = refl

all_below-lt : (n : ℕ) (f : ℕ → Bool) (p : ℕ) → all_below n f ≡ true → p < n → f p ≡ true
unfolding all_below
all_below-lt zero f p h l = elim l [ ]
all_below-lt (suc n) f p h l = go (p == n) refl (f n) refl (λ r. all_below-lt n f p r) h
  where
    go :
        (b : Bool)
        → (p == n) ≡ b
        → (c : Bool) → f n ≡ c
        → (all_below n f ≡ true → p < n → f p ≡ true)
        → (c && all_below n f) ≡ true
        → f p ≡ true
    go true e false k ih r = cc
    go false e false k ih r = cc
    go true e true k ih r = let q : p ≡ n = ground arith in ap f q ∙ k
    go false e true k ih r = let q : p < n = ground arith in ih r q

-- The permissions of a file, shown as a number in decimal digits, are read back from that number.
pub int2perm-perm2int :
    (p : ℕ)
    → p < suc file_permission_mask
    → (n : ℕ) × (perm2int p ≡ some n) × (int2perm (pos n) ≡ some p)
unfolding keeps
int2perm-perm2int p h = go (perm2int p) refl (all_below-lt 4096 keeps p all-keep h)
  where
    back :
        (n : ℕ) (r : Option ℕ)
        → int2perm (pos n) ≡ r
        → (elim r [ none ↦ false | some q ↦ p == q ]) ≡ true
        → int2perm (pos n) ≡ some p
    back n none e k = cc
    back n (some q) e k = let l : q ≡ p = ground arith in e ∙ ap some l

    go :
        (r : Option ℕ)
        → perm2int p ≡ r
        → (elim r [
          | none ↦ false
          | some n ↦ elim (int2perm (pos n)) [ none ↦ false | some q ↦ p == q ]
        ])
          ≡ true
        → (n : ℕ) × (perm2int p ≡ some n) × (int2perm (pos n) ≡ some p)
    go none e k = absurd cc
    go (some n) e k = (n, e, back n (int2perm (pos n)) refl k)

eqb-perm : (b c : Bool) → eqb_ℤ (if b then pos 0 else if c then negsuc 0 else pos 1) (pos 0) ≡ b
eqb-perm true c = refl
eqb-perm false true = refl
eqb-perm false false = refl

eqb-file_perm_compare : (a b : ℕ) → eqb_ℤ (file_perm_compare a b) (pos 0) ≡ (a == b)
eqb-file_perm_compare a b = eqb-perm (a == b) _

-- A negative number never comes to zero: after any number of rounds the loop has found no number to
-- show.
perm2int_loop-negative : (n m i v : ℕ) → shown_perm (perm2int_loop n (negsuc m) i v) ≡ none
unfolding perm2int_loop
perm2int_loop-negative zero m i v = refl
perm2int_loop-negative (suc n) m i v =
    go (ltb (v + (7 - bit_and m 7) * i) (2 ^ 31) && ltb (i * 10) (2 ^ 31))
      (perm2int_loop-negative n (m / 8) (i * 10) (v + (7 - bit_and m 7) * i))
  where
    go :
        (b : Bool)
        → shown_perm (perm2int_loop n (negsuc (m / 8)) (i * 10) (v + (7 - bit_and m 7) * i)) ≡ none
        → shown_perm (
            if b
            then perm2int_loop n (negsuc (m / 8)) (i * 10) (v + (7 - bit_and m 7) * i)
            else overflow)
          ≡ none
    go true h = h
    go false h = refl

perm2int-negative : (p : ℕ) → 2 ^ 31 ≤ p → perm2int p ≡ none
unfolding perm2int
perm2int-negative p l =
    let big : ltb p (2 ^ 31) ≡ false = ground arith in
    ap
      (λ b.
        shown_perm (perm2int_loop digit_rounds (if b then pos p else negsuc (2 ^ 32 - 1 - p)) 1 0))
      big
    ∙ perm2int_loop-negative digit_rounds (2 ^ 32 - 1 - p) 1 0

-- Eleven rounds are enough for any number: the powers of ten leave the range of `int` before.
perm2int_loop_rounds :
    (n : ℕ) (val : ℤ) (i v : ℕ)
    → i < 2 ^ 31
    → 2 ^ 31 ≤ i * 10 ^ n
    → perm2int_loop n val i v ≢ out_of_rounds
unfolding perm2int_loop
perm2int_loop_rounds zero val i v l h = absurd (omega arith)
perm2int_loop_rounds (suc n) val i v l h =
    go (eqb_ℤ val (pos 0)) (ltb (v + low_octal val * i) (2 ^ 31)) (ltb (i * 10) (2 ^ 31)) refl
      (perm2int_loop_rounds n (shift_octal val) (i * 10) (v + low_octal val * i))
  where
    same : i * 10 ^ suc n ≡ i * 10 * 10 ^ n
    same = ap (λ x. i * x) (pow-succ' 10 n) ∙ sym (mul_assoc i 10 (10 ^ n))

    rest : Shown
    rest = perm2int_loop n (shift_octal val) (i * 10) (v + low_octal val * i)

    go :
        (a b c : Bool)
        → ltb (i * 10) (2 ^ 31) ≡ c
        → (i * 10 < 2 ^ 31 → 2 ^ 31 ≤ i * 10 * 10 ^ n → rest ≢ out_of_rounds)
        → (if a then shown v else if b && c then rest else overflow) ≢ out_of_rounds
    go true b c e ih = λ q. cc
    go false false c e ih = λ q. cc
    go false true false e ih = λ q. cc
    go false true true e ih = ih (ground arith) (omega (arith, h, same))

-- What is left of the ways to end.
ends-overflow : (r : Shown) → shown_perm r ≡ none → r ≢ out_of_rounds → r ≡ overflow
ends-overflow (shown k) h e = cc
ends-overflow overflow h e = refl
ends-overflow out_of_rounds h e = absurd (e refl)

perm2int_loop-overflow :
    (p : ℕ) → 2 ^ 31 ≤ p → perm2int_loop digit_rounds (word_int p) 1 0 ≡ overflow
perm2int_loop-overflow p l =
    ends-overflow (perm2int_loop digit_rounds (word_int p) 1 0)
      (unfold perm2int in perm2int-negative p l)
      (perm2int_loop_rounds digit_rounds (word_int p) 1 0 (omega arith) (omega arith))

-- Of a file whose permissions are negative as an `int`, as the -1 of a file that is not there, a
-- comparison by == with other permissions is undefined: the loop that reads the digits that are to
-- be shown never finds zero, and its power of ten leaves the range of `int`.
pub expr_permission_handler-missing :
    (D : Type 0) (f : File) (z : ℤ) (v : ℕ)
    → f.state ≡ true
    → 2 ^ 31 ≤ f.permission
    → int2perm z ≡ some v
    → v ≢ f.permission
    → (perm2int_loop digit_rounds (word_int f.permission) 1 0 ≡ overflow)
      × (expr_permission_handler {D = D} f Sym.equal (int z) ≡ none)
unfolding expr_permission_handler lre_compare
expr_permission_handler-missing D f z v s p e l =
    let ne : (f.permission == v) ≡ false = ground arith in
    (
      perm2int_loop-overflow f.permission p,
      rw (s, e, perm2int-negative f.permission p, eqb-file_perm_compare f.permission v, ne) refl,
    )

-- `permission == n` is true of exactly the files that have the permissions which `n` shows.
expr_permission_handler-equal :
    (D : Type 0) (f : File) (z : ℤ) (v : ℕ)
    → f.state ≡ true
    → f.permission < suc file_permission_mask
    → int2perm z ≡ some v
    → (a : Answer) × (expr_permission_handler {D = D} f Sym.equal (int z) ≡ some a)
      × (a.0 ≡ bool_int (f.permission == v))
unfolding expr_permission_handler lre_compare
expr_permission_handler-equal D f z v s p e =
    let (n, k, _) = int2perm-perm2int f.permission p in
    rw (s, e, k, eqb-file_perm_compare f.permission v) (go n (f.permission == v))
  where
    go :
        (n : ℕ) (b : Bool)
        → (a : Answer) × (permission_answer (bool_int b) (some n) ≡ some a) × (a.0 ≡ bool_int b)
    go n true = (_, refl, refl)
    go n false = (_, refl, refl)
