-- ===== src/Lrc/Process/Info.antt =====
-- What `process` reads of the running processes: `get_process_info` and `processes_info_load`, and
-- the directory of a path, `getrealdir` and `path2dir` (lrc/lrc_process.c).
use lre.Base.Int.{ℤ, pos, negsuc, checked}
use lre.Macro.Lines.{is_space}
use lre.Base.{
  ℕ, zero, suc, ◌-◌, ◌+◌, ◌*◌, Bool, false, Option, none, some, List, [], ◌∷◌, ltb, ◌==◌,
  if◌then◌else◌, length, take,
}
use lre.Token.{Word}
use lre.Utils.{isdigit}
use lre.Lrc.Values.{user_name}
use lre.Lrc.Process.{ProcessInfo}

-- The text before the last byte `sep`, as `strrchr` finds it, and the text behind it.
unfoldable pub cut_at_last : ℕ → Word → Option (Word × Word)
cut_at_last sep [] = none
cut_at_last sep (c ∷ cs) = elim (cut_at_last sep cs) [
  | some (w, rest) ↦ some (c ∷ w, rest)
  | none ↦ if c == sep then some ([], cs) else none
]

abbrev pub dir_before : Option (Word × Word) → Option Word
dir_before none = none
dir_before (some ([], rest)) = some (b'/' ∷ [])
dir_before (some (c ∷ cs, rest)) = some (c ∷ cs)

-- `getrealdir`: `readlink` is cut at 1023 bytes.
unfoldable pub getrealdir : (Word → Option Word) → Word → Option Word
getrealdir readlink path = elim (readlink path) [
  | none ↦ none
  | some w ↦ dir_before (cut_at_last b'/' (take 1023 w))
]

-- Of a path that has room in the buffer `dir`.
unfoldable pub path2dir : Word → Word
path2dir path = elim (dir_before (cut_at_last b'/' path)) [ none ↦ path | some dir ↦ dir ]

-- `nexttok`: the text before the next space, and what is left behind it; no text is a null pointer.
unfoldable pub nexttok : Word → Word × Option Word
nexttok [] = ([], none)
nexttok (c ∷ cs) = let (w, rest) = nexttok cs in if c == b' ' then ([], some cs) else (c ∷ w, rest)

-- `nexttok` where the pointer may be null.
abbrev pub nexttok_at : Option Word → Word × Option Word
nexttok_at none = ([], none)
nexttok_at (some w) = nexttok w

-- `ptr++` past a byte; behind the end of the text it is undefined, and so is a null pointer.
abbrev pub next_byte : Option Word → Option Word
next_byte none = none
next_byte (some []) = none
next_byte (some (c ∷ cs)) = some cs

-- The C library's `atoi`: blanks are skipped, a sign may follow, and the digits are read up to
-- another byte; `none` is a number that is no `int`, which is undefined.
unfoldable pub atoi_loop : ℕ → Word → ℕ
atoi_loop acc [] = acc
atoi_loop acc (c ∷ cs) =
    let rest = atoi_loop (10 * acc + (c - b'0')) cs in if isdigit c then rest else acc

abbrev pub negated : ℕ → ℤ
negated zero = pos 0
negated (suc n) = negsuc n

abbrev pub after_blanks : Word → Option ℤ
after_blanks [] = some (pos 0)
after_blanks (c ∷ cs) =
    if c == b'-'
    then checked (negated (atoi_loop 0 cs))
    else if c == b'+'
    then checked (pos (atoi_loop 0 cs))
    else checked (pos (atoi_loop 0 (c ∷ cs)))

unfoldable pub atoi : Word → Option ℤ
unfolding atoi_loop
atoi [] = some (pos 0)
atoi (c ∷ cs) = let rest = atoi cs in if is_space c then rest else after_blanks (c ∷ cs)

abbrev pub with_ppid : Word → Option ℤ → Option (Word × ℤ)
with_ppid name none = none
with_ppid name (some ppid) = some (name, ppid)

abbrev pub name_and_ppid : Option (Word × Word) → Option (Word × ℤ)
name_and_ppid none = none
name_and_ppid (some (name, rest)) = elim (next_byte (some rest)) [
  | none ↦ none
  | some w ↦
      let (state, rest') = nexttok w in
      let (ppid, rest'') = nexttok_at rest' in with_ppid name (atoi ppid)
]

-- The name and the parent in the text of /proc/<pid>/stat; `none` is undefined behaviour.
unfoldable pub parse_stat : Word → Option (Word × ℤ)
parse_stat buf =
    let (pid, rest) = nexttok buf in
    elim (next_byte rest) [ none ↦ none | some name ↦ name_and_ppid (cut_at_last b')' name) ]

-- What the system says of a process: the owner of /proc/<pid>, the link exe, and what is read of
-- the files stat and cmdline. The user's name comes from `getpwuid`.
pub record Proc : Type 0 where
  pub uid : ℕ
  pub exe : Option Word
  pub stat : Option Word
  pub cmdline : Option Word

-- A process is there or not, or the reading is undefined.
pub data Got : Type 0 where
  got : ProcessInfo → Got
  gone undefined : Got

-- A link that `readlink` cannot read, or an empty one, is no path.
abbrev pub binpath_of : Option Word → Option Word
binpath_of none = none
binpath_of (some []) = none
binpath_of (some (c ∷ cs)) = some (take 4095 (c ∷ cs))

-- The command line read, up to 2048 bytes; with so many the zero behind them is out of bounds.
abbrev pub cmdline_of : Option Word → Option Word
cmdline_of none = some []
cmdline_of (some w) = if ltb (length w) 2048 then some w else none

abbrev pub got_info : ℤ → Option Word → Option Word → Option (Word × ℤ) → Option Word → Got
got_info pid (some user) binpath (some (name, ppid)) (some cmdline) = got (record {
  pid = pid;
  ppid = ppid;
  name = some name;
  user = user;
  binpath = binpath;
  cmdline = cmdline;
})
got_info pid user binpath stat cmdline = undefined

unfoldable pub get_process_info : (ℕ → Option Word) → ℤ → Proc → Got
unfolding user_name
get_process_info getpwuid pid p = elim (user_name getpwuid p.uid) [
  | none ↦ undefined
  | some user ↦ elim p.stat [
    | none ↦ gone
    | some buf ↦
        got_info pid (some user) (binpath_of p.exe) (parse_stat (take 1023 buf))
          (cmdline_of p.cmdline)
  ]
]

abbrev pub starts_with_digit : Word → Bool
starts_with_digit [] = false
starts_with_digit (c ∷ cs) = isdigit c

-- `process_info_add` puts a process at the front of the list.
abbrev pub process_info_add : Got → List ProcessInfo → Option (List ProcessInfo)
process_info_add (got i) is = some (i ∷ is)
process_info_add gone is = some is
process_info_add undefined is = none

-- The loop of `processes_info_load` over the names in /proc.
unfoldable pub load_loop :
    (ℕ → Option Word) → (ℤ → Proc) → List Word → List ProcessInfo → Option (List ProcessInfo)
load_loop getpwuid proc [] is = some is
load_loop getpwuid proc (w ∷ ws) is =
    if starts_with_digit w
    then elim (atoi w) [
      | none ↦ none
      | some pid ↦ elim (process_info_add (get_process_info getpwuid pid (proc pid)) is) [
        | none ↦ none
        | some is' ↦ load_loop getpwuid proc ws is'
      ]
    ]
    else load_loop getpwuid proc ws is

-- The list that is loaded; a directory /proc that cannot be opened leaves it empty.
unfoldable pub processes_info_load :
    (ℕ → Option Word) → (ℤ → Proc) → Option (List Word) → Option (List ProcessInfo)
unfolding load_loop
processes_info_load getpwuid proc none = some []
processes_info_load getpwuid proc (some names) = load_loop getpwuid proc names []
