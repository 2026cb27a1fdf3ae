-- ===== src/Lrc/File/Facts.antt =====
-- What the expressions `exist` and `owner` of `file` say of the file.
use lre.Base.{
  ℕ, zero, suc, ◌+◌, ◌-◌, ◌<◌, ◌%◌, ◌/◌, Bool, true, false, Option, none, some, [], ◌∷◌, ◌≡◌, ◌++◌,
  refl, ap, ltb, if◌then◌else◌, length, arith,
}
use lre.Base.Int.{ℤ, pos, negsuc, eqb_ℤ}
use lre.Symbols.{Sym}
use lre.Token.{Word}
use lre.Value.{int}
use lre.Calculate.{bool_int, strcmp, lre_compare_int, lre_compare_string}
use lre.Lrc.Strings.{text, show_int, show_digits}
use lre.Lrc.Values.{Answer, report, user_name, silent, minus_einval, lre_ret_ok, details_unit_max}
use lre.Lrc.File.{
  File, Stat, omitted, stat_file, stated, enoent, failed, file_execute, expr_exist_handler,
  expr_owner_handler, owner_details,
}

abbrev pub is_stated : Stat → Bool
is_stated (stated uid gid mode) = true
is_stated _ = false

abbrev is_enoent : Stat → Bool
is_enoent enoent = true
is_enoent _ = false

exist-stat_file :
    (D : Type 0) (s : Stat) (f : File)
    → ((expr_exist_handler {D = D} (stat_file s f) Sym.equal (int (pos 1))).0
        ≡ bool_int (is_stated s))
      × ((expr_exist_handler {D = D} (stat_file s f) Sym.equal (int (pos 0))).0
          ≡ bool_int (is_enoent s))
unfolding expr_exist_handler lre_compare_int
exist-stat_file D (stated uid gid mode) f = (refl, refl)
exist-stat_file D enoent f = (refl, refl)
exist-stat_file D failed f = (refl, refl)

file_execute-stat :
    (stat : Word → Stat) (f : File) (w : Word)
    → f.path ≡ some w
    → (file_execute stat f).1 ≡ stat_file (stat w) f
unfolding file_execute
file_execute-stat stat f w h = go f.path h
  where
    go :
        (o : Option Word)
        → o ≡ some w
        → (elim o as (λ _. Answer × File) [
          | none ↦ (silent minus_einval, record f { state = false })
          | some w ↦ (
            report lre_ret_ok (text "file '" ++ omitted (details_unit_max - 32) w ++ text "'"),
            stat_file (stat w) f,
          )
        ]).1
          ≡ stat_file (stat w) f
    go none e = absurd cc
    go (some x) e = let q : x ≡ w = cc in ap (λ y. stat_file (stat y) f) q

-- Behind the execution of `file`, `exist == 1` is true of a file that `stat` finds, and
-- `exist == 0` of one of which it says that it is not there; where it fails otherwise, both are
-- false.
expr_exist_handler-file_execute :
    (D : Type 0) (stat : Word → Stat) (f : File) (w : Word)
    → f.path ≡ some w
    → ((expr_exist_handler {D = D} (file_execute stat f).1 Sym.equal (int (pos 1))).0
        ≡ bool_int (is_stated (stat w)))
      × ((expr_exist_handler {D = D} (file_execute stat f).1 Sym.equal (int (pos 0))).0
          ≡ bool_int (is_enoent (stat w)))
expr_exist_handler-file_execute D stat f w h =
    rw (file_execute-stat stat f w h) (exist-stat_file D (stat w) f)

-- A text that begins with a byte below the letters.
FirstLow : Word → Type 0
FirstLow [] = ⊥
FirstLow (c ∷ cs) = c < 58

show_digits-FirstLow : (k n : ℕ) (acc : Word) → FirstLow (show_digits (suc k) n acc)
unfolding show_digits FirstLow
show_digits-FirstLow zero n acc = go (ltb n 10) refl
  where
    go : (b : Bool) → ltb n 10 ≡ b → FirstLow (if b then (48 + n) ∷ acc else (48 + n % 10) ∷ acc)
    go true e = ground arith
    go false e = omega arith
show_digits-FirstLow (suc k) n acc =
    go (ltb n 10) refl (show_digits-FirstLow k (n / 10) ((48 + n % 10) ∷ acc))
  where
    go :
        (b : Bool)
        → ltb n 10 ≡ b
        → FirstLow (show_digits (suc k) (n / 10) ((48 + n % 10) ∷ acc))
        → FirstLow
            (if b then (48 + n) ∷ acc else show_digits (suc k) (n / 10) ((48 + n % 10) ∷ acc))
    go true e h = ground arith
    go false e h = h

show_int-FirstLow : (z : ℤ) → FirstLow (show_int z)
unfolding show_int FirstLow
show_int-FirstLow (pos n) = show_digits-FirstLow 9 n []
show_int-FirstLow (negsuc n) = omega arith

strcmp-FirstLow :
    (c : ℕ) (cs w : Word) → 57 < c → FirstLow w → eqb_ℤ (strcmp (c ∷ cs) w) (pos 0) ≡ false
unfolding strcmp FirstLow
strcmp-FirstLow c cs [] h l = absurd l
strcmp-FirstLow c cs (d ∷ w) h l = ground (arith)

user_name-short :
    (getpwuid : ℕ → Option Word) (owner : ℕ) (w : Word)
    → getpwuid owner ≡ some w
    → ltb (length w) 32 ≡ true
    → user_name getpwuid owner ≡ some w
unfolding user_name
user_name-short getpwuid owner w h l = rw (h, l, user_name) refl

-- `owner == n` is false of every number, also of the owner's, where the owner is a user whose name
-- begins with a letter and is shorter than 32 bytes.
expr_owner_handler-number :
    (D : Type 0) (getpwuid : ℕ → Option Word) (f : File) (z : ℤ) (c : ℕ) (cs : Word)
    → f.state ≡ true
    → getpwuid f.owner ≡ some (c ∷ cs)
    → 57 < c
    → length cs < 31
    → expr_owner_handler {D = D} getpwuid f Sym.equal (int z)
      ≡ some (report (pos 0) (owner_details (c ∷ cs) false))
unfolding expr_owner_handler lre_compare_string
expr_owner_handler-number D getpwuid f z c cs s e h l =
    let room : ltb (length (c ∷ cs)) 32 ≡ true = ground arith in
    rw
      (
        s,
        user_name-short getpwuid f.owner (c ∷ cs) e room,
        strcmp-FirstLow c cs (show_int z) h (show_int-FirstLow z),
      )
      refl
