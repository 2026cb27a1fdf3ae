-- ===== src/Lrc/Splicepath.antt =====
-- The call `splicepath` (lrc/lrc_c_splicepath.c): two parts of a path, joined.
use lre.Base.{◌-◌, Option, none, some, [], ◌∷◌, ◌++◌, ◌≡◌, ap, take, append-nil}
use lre.Base.Int.{ℤ}
use lre.Token.{Word}
use lre.Value.{LreValue, string}
use lre.Lrc.Strings.{Buffer, empty_buffer, xsnprintf}
use lre.Lrc.Strings.Printing.{IsPrinted, empty_buffer-IsPrinted, xsnprintf-IsPrinted}
use lre.Lrc.Values.{path_max, lre_ret_ok, lre_ret_error, string_handler}

-- struct lrc_splicepath.
pub record Splicepath : Type 0 where
  pub basepath : Option Word
  pub path : Option Word

abbrev pub splicepath_constructor : Splicepath
splicepath_constructor = record { basepath = none; path = none }

abbrev print_base : Option Word → Buffer → Buffer
print_base none b = b
print_base (some w) b = xsnprintf path_max b w

abbrev print_path : Option Word → Buffer → Buffer
print_path none b = b
print_path (some []) b = b
print_path (some (c ∷ cs)) b = xsnprintf path_max b (b'/' ∷ c ∷ cs)

module _ {D : Type 0} where
  abbrev pub arg_basepath_handler : Splicepath → LreValue D → ℤ × Splicepath
  arg_basepath_handler = string_handler (λ w s. record s { basepath = some w })

  abbrev pub arg_path_handler : Splicepath → LreValue D → ℤ × Splicepath
  arg_path_handler = string_handler (λ w s. record s { path = some w })

  abbrev pub spliced : Word → LreValue D → ℤ × LreValue D
  spliced [] val = (lre_ret_error, val)
  spliced (c ∷ cs) val = (lre_ret_ok, string (c ∷ cs))

  unfoldable pub splicepath_execute : Splicepath → LreValue D → ℤ × LreValue D
  splicepath_execute s val =
      spliced (print_path s.path (print_base s.basepath empty_buffer)).text val

-- The path that the two parts make.
abbrev pub given : Option Word → Word
given none = []
given (some w) = w

abbrev pub below : Word → Word
below [] = []
below (c ∷ cs) = b'/' ∷ c ∷ cs

print_path-IsPrinted :
    (path : Option Word) (t : Word) (b : Buffer)
    → IsPrinted path_max t b
    → IsPrinted path_max (t ++ below (given path)) (print_path path b)
print_path-IsPrinted none t b h = rw (append-nil t) h
print_path-IsPrinted (some []) t b h = rw (append-nil t) h
print_path-IsPrinted (some (c ∷ cs)) t b h = xsnprintf-IsPrinted path_max t (b'/' ∷ c ∷ cs) b h

print_base-IsPrinted :
    (basepath : Option Word)
    → IsPrinted path_max (given basepath) (print_base basepath empty_buffer)
print_base-IsPrinted none = empty_buffer-IsPrinted path_max
print_base-IsPrinted (some w) =
    xsnprintf-IsPrinted path_max [] w empty_buffer (empty_buffer-IsPrinted path_max)

-- The value is the base path and the path behind a slash, cut to the bytes that have room in the
-- buffer; where both are missing or empty, it is an error and the value is as it was.
pub splicepath_execute-given :
    {D : Type 0} (s : Splicepath) (val : LreValue D)
    → splicepath_execute s val
      ≡ spliced (take (path_max - 1) (given s.basepath ++ below (given s.path))) val
unfolding splicepath_execute
splicepath_execute-given s val =
    ap (λ t. spliced t val)
      (print_path-IsPrinted s.path (given s.basepath) (print_base s.basepath empty_buffer)
        (print_base-IsPrinted s.basepath)).text_eq
