-- ===== src/Lrc/Process/Stat.antt =====
-- The text of /proc/<pid>/stat, and the directory of a path, read back.
use native.Mathlib.Nat.{pow-succ'}
use lre.Base.Int.{ℤ, pos, negsuc, checked}
use lre.Lrc.Strings.{show_int, show_digits}
use lre.Base.{
  ℕ, zero, suc, ◌+◌, ◌/◌, ◌%◌, ◌^◌, ◌<◌, Bool, true, false, none, some, [], ◌∷◌, ◌++◌, ◌≡◌, refl,
  ap, ◌∙◌, ◌==◌, if◌then◌else◌, arith, ==_refl,
}
use lre.Token.{Word}
use lre.Lrc.Fuzzypath.Search.{subpath_of}
use lre.Lrc.Process.Info.{
  cut_at_last, path2dir, nexttok, nexttok_at, name_and_ppid, atoi_loop, parse_stat, atoi, negated,
  with_ppid, starts_with_digit,
}

-- Does the byte not stand in the text?
unfoldable pub lacks : ℕ → Word → Bool
lacks sep [] = true
lacks sep (c ∷ cs) = if c == sep then false else lacks sep cs

lacks-first : (sep c : ℕ) (t : Word) → lacks sep (c ∷ t) ≡ true → (c == sep) ≡ false
unfolding lacks
lacks-first sep c t h = ground arith

lacks-rest : (sep c : ℕ) (t : Word) → lacks sep (c ∷ t) ≡ true → lacks sep t ≡ true
unfolding lacks
lacks-rest sep c t h = ground arith

cut_at_last-lacks : (sep : ℕ) (t : Word) → lacks sep t ≡ true → cut_at_last sep t ≡ none
unfolding cut_at_last lacks
cut_at_last-lacks sep [] h = refl
cut_at_last-lacks sep (c ∷ t) h =
    rw (cut_at_last-lacks sep t (lacks-rest sep c t h), lacks-first sep c t h) refl

cut_at_last-append :
    (sep : ℕ) (w t : Word) → lacks sep t ≡ true → cut_at_last sep (w ++ sep ∷ t) ≡ some (w, t)
unfolding cut_at_last
cut_at_last-append sep [] t h = rw (cut_at_last-lacks sep t h, ==_refl sep) refl
cut_at_last-append sep (c ∷ w) t h = rw (cut_at_last-append sep w t h) refl

-- The directory of a path below it.
path2dir-subpath_of :
    (c : ℕ) (dir name : Word)
    → lacks b'/' name ≡ true
    → path2dir (subpath_of (c ∷ dir) name) ≡ c ∷ dir
unfolding path2dir cut_at_last
path2dir-subpath_of c dir name h = rw (cut_at_last-append b'/' (c ∷ dir) name h) refl

nexttok-append : (w t : Word) → lacks b' ' w ≡ true → nexttok (w ++ b' ' ∷ t) ≡ (w, some t)
unfolding nexttok lacks
nexttok-append [] t h = refl
nexttok-append (c ∷ w) t h =
    rw (lacks-first b' ' c w h, nexttok-append w t (lacks-rest b' ' c w h)) refl

lacks-append :
    (sep : ℕ) (w t : Word) → lacks sep w ≡ true → lacks sep t ≡ true → lacks sep (w ++ t) ≡ true
unfolding lacks
lacks-append sep [] t h k = k
lacks-append sep (c ∷ w) t h k = ground (arith, lacks-append sep w t)

-- The digits of a number are read back behind others.
atoi_loop-show_digits :
    (k n : ℕ) (acc : Word) → n < 10 ^ k → atoi_loop 0 (show_digits k n acc) ≡ atoi_loop n acc
unfolding atoi_loop show_digits
atoi_loop-show_digits zero n acc h = let none_left : n ≡ 0 = omega arith in rw none_left refl
atoi_loop-show_digits (suc k) n acc h =
    let below : n / 10 < 10 ^ k = omega (arith, h, pow-succ' 10 k) in
    ground (arith, atoi_loop-show_digits k (n / 10) ((b'0' + n % 10) ∷ acc) below)

lacks-show_digits :
    (sep k n : ℕ) (acc : Word)
    → sep < b'0'
    → lacks sep acc ≡ true
    → lacks sep (show_digits k n acc) ≡ true
unfolding lacks show_digits
lacks-show_digits sep zero n acc l h = h
lacks-show_digits sep (suc k) n acc l h =
    ground (arith, lacks-show_digits sep k (n / 10) ((b'0' + n % 10) ∷ acc) l)

lacks-show_int : (sep : ℕ) (z : ℤ) → sep < b'-' → lacks sep (show_int z) ≡ true
unfolding show_int lacks
lacks-show_int sep (pos n) l = lacks-show_digits sep 10 n [] (omega arith) refl
lacks-show_int sep (negsuc n) l =
    ground (arith, lacks-show_digits sep 10 (suc n) [] (omega arith) refl)

-- The first byte is a digit.
starts-show_digits :
    (k n : ℕ) (acc : Word)
    → starts_with_digit acc ≡ true
    → starts_with_digit (show_digits k n acc) ≡ true
unfolding show_digits
starts-show_digits zero n acc h = h
starts-show_digits (suc k) n acc h =
    ground (arith, starts-show_digits k (n / 10) ((b'0' + n % 10) ∷ acc))

starts-show_number : (k n : ℕ) → starts_with_digit (show_digits (suc k) n []) ≡ true
unfolding show_digits
starts-show_number k n = ground (arith, starts-show_digits k (n / 10) ((b'0' + n % 10) ∷ []))

atoi-starts_with_digit :
    (w : Word) → starts_with_digit w ≡ true → atoi w ≡ checked (pos (atoi_loop 0 w))
unfolding atoi
atoi-starts_with_digit [] h = cc
atoi-starts_with_digit (c ∷ w) h = ground arith

-- An `int` is read back from its decimal text.
atoi-show_int : (z : ℤ) → checked z ≡ some z → atoi (show_int z) ≡ some z
unfolding show_int atoi_loop atoi
atoi-show_int (pos n) h =
    atoi-starts_with_digit (show_digits 10 n []) (starts-show_number 9 n)
    ∙ ap (λ m. checked (pos m)) (atoi_loop-show_digits 10 n [] (ground arith))
    ∙ h
atoi-show_int (negsuc n) h =
    ap (λ m. checked (negated m)) (atoi_loop-show_digits 10 (suc n) [] (ground arith)) ∙ h

-- What follows the name of a process.
abbrev put_rest : Word → Word → Word → Word
put_rest state ppid rest = b' ' ∷ (state ++ b' ' ∷ (ppid ++ b' ' ∷ rest))

name_and_ppid-put_rest :
    (name state ppid rest : Word)
    → lacks b' ' state ≡ true
    → lacks b' ' ppid ≡ true
    → name_and_ppid (some (name, put_rest state ppid rest)) ≡ with_ppid name (atoi ppid)
name_and_ppid-put_rest name state ppid rest hs hn =
    rw (nexttok-append state (ppid ++ b' ' ∷ rest) hs, name_and_ppid)
      (rw (nexttok-append ppid rest hn, nexttok_at) refl)

lacks-put_rest :
    (state ppid rest : Word)
    → lacks b')' state ≡ true
    → lacks b')' ppid ≡ true
    → lacks b')' rest ≡ true
    → lacks b')' (put_rest state ppid rest) ≡ true
unfolding lacks
lacks-put_rest state ppid rest hs hp hr =
    lacks-append b')' state (b' ' ∷ (ppid ++ b' ' ∷ rest)) hs
      (lacks-append b')' ppid (b' ' ∷ rest) hp hr)

-- The line of a process, as the kernel writes it.
abbrev pub put_stat : ℤ → Word → Word → ℤ → Word → Word
put_stat pid name state ppid rest =
    show_int pid ++ b' ' ∷ b'(' ∷ (name ++ b')' ∷ put_rest state (show_int ppid) rest)

-- The name of a process is read back from the line of its state whatever bytes it has, spaces and
-- parentheses among them, and so is the number of its parent, an `int` of any sign that is written
-- in decimal. The state has no space, and no closing parenthesis stands in it or behind the
-- number.
pub parse_stat-put_stat :
    (pid : ℤ) (name state : Word) (ppid : ℤ) (rest : Word)
    → checked ppid ≡ some ppid
    → lacks b' ' state ≡ true
    → lacks b')' state ≡ true
    → lacks b')' rest ≡ true
    → parse_stat (put_stat pid name state ppid rest) ≡ some (name, ppid)
unfolding parse_stat
parse_stat-put_stat pid name state ppid rest fits hs hc hr =
    let after = put_rest state (show_int ppid) rest in
    let closed : lacks b')' after ≡ true =
      lacks-put_rest state (show_int ppid) rest hc (lacks-show_int b')' ppid (omega arith)) hr in
    rw
      (
        nexttok-append (show_int pid) (b'(' ∷ (name ++ b')' ∷ after))
            (lacks-show_int b' ' pid (omega arith)),
        parse_stat,
      )
      (ap name_and_ppid (cut_at_last-append b')' name after closed)
        ∙ name_and_ppid-put_rest name state (show_int ppid) rest hs
            (lacks-show_int b' ' ppid (omega arith))
        ∙ ap (with_ppid name) (atoi-show_int ppid fits))
