-- ===== src/Lrc/Process/Cmdline.antt =====
-- The arguments of a process, and the call `cmdline_extract` (lrc/lrc_process.c).
use lre.Base.{
  ℕ, zero, suc, ◌-◌, Bool, true, false, Option, none, some, List, [], ◌∷◌, ◌++◌, ltb, leb, ◌==◌,
  if◌then◌else◌, length, take, drop, get_elem?,
}
use lre.Base.Int.{ℤ, pos, negsuc}
use lre.Token.{Word}
use lre.Value.{LreValue, string}
use lre.Macro.Content.{is_prefix}
use lre.Lrc.Strings.{Buffer, empty_buffer, xsnprintf}
use lre.Lrc.Values.{minus_einval, lre_ret_ok}
use lre.Lrc.Process.{
  ProcessInfo, Process, Processlist, processes_of, has_name_or_path, fill_spec_process,
}

-- The size of the array `argv`.
abbrev pub process_arg_max : ℕ
process_arg_max = 1024

-- The string at a pointer: `none` is a string that the memory ends before.
unfoldable pub c_string : Word → Option Word
c_string [] = none
c_string (c ∷ cs) =
    let rest = c_string cs in
    if c == 0 then some [] else elim rest [ none ↦ none | some w ↦ some (c ∷ w) ]

-- The loop of `cmd2args`. `skip` counts the bytes of an argument that are still to be passed.
-- `none` is a read behind the command line.
unfoldable pub cmd_loop : ℕ → Word → Option (List Word)
cmd_loop skip [] = some []
cmd_loop (suc skip) (c ∷ cs) = cmd_loop skip cs
cmd_loop zero (c ∷ cs) = elim (c == 0) [
  | true ↦ cmd_loop 0 cs
  | false ↦ elim (c_string (c ∷ cs)) [
    | none ↦ none
    | some w ↦ elim (cmd_loop (length w - 1) cs) [ none ↦ none | some args ↦ some (w ∷ args) ]
  ]
]

unfoldable pub cmd2args : Word → Option (List Word)
unfolding cmd_loop
cmd2args cmdline = cmd_loop 0 cmdline

-- The key of an argument without the spaces at its end; nothing is left of a key of spaces.
unfoldable cut_spaces : Word → Word
cut_spaces [] = []
cut_spaces (c ∷ cs) = elim (cut_spaces cs) [
  | [] ↦ if c == b' ' then [] else c ∷ []
  | d ∷ ds ↦ c ∷ d ∷ ds
]

-- The first argument that begins with the key, with those behind it.
unfoldable find_key : Word → List Word → List Word
find_key key [] = []
find_key key (w ∷ ws) = let rest = find_key key ws in if is_prefix key w then w ∷ ws else rest

-- What is printed of an argument: nothing, a text, or what lies behind its end, which is undefined.
pub data Extract : Type 0 where
  nothing undefined : Extract
  extracted : Word → Extract

abbrev behind_key : ℕ → Word → Extract
behind_key n w = if leb n (length w) then extracted (drop n w) else undefined

-- By the key: the argument behind the one that begins with it if a space follows the key, else what
-- follows the key. `n` is the length of the key with its spaces.
abbrev by_key : Bool → ℕ → List Word → Extract
by_key spacesplit n [] = nothing
by_key true n (w ∷ u ∷ ws) = extracted u
by_key true n (w ∷ []) = behind_key n w
by_key false n (w ∷ ws) = behind_key n w

abbrev by_index : Option Word → Extract → Extract
by_index none other = other
by_index (some w) other = extracted w

-- An index that is negative reads in front of the array.
abbrev extract_arg : ℤ → Extract → List Word → Extract
extract_arg (pos zero) other args = other
extract_arg (pos (suc n)) other args = by_index (get_elem? args (suc n)) other
extract_arg (negsuc n) other args = undefined

abbrev extract_len_max : ℕ
extract_len_max = 4095

abbrev put_extract : Extract → Buffer → Option Buffer
put_extract nothing b = some b
put_extract undefined b = none
put_extract (extracted w) b = some (xsnprintf extract_len_max b (w ++ b';' ∷ []))

-- One process of the loop.
unfoldable extract_process : Word → ℤ → ProcessInfo → Buffer → Option Buffer
extract_process argkey index i b = elim (cmd2args i.cmdline) [
  | none ↦ none
  | some args ↦
      let key = cut_spaces argkey in
      put_extract
        (extract_arg index
          (by_key (ltb (length key) (length argkey)) (length argkey) (find_key key args)) args)
        b
]

unfoldable extract_loop : Word → ℤ → List ProcessInfo → Buffer → Option Buffer
extract_loop argkey index [] b = some b
extract_loop argkey index (i ∷ is) b = elim (extract_process argkey index i b) [
  | none ↦ none
  | some b' ↦ extract_loop argkey index is b'
]

-- `outstr[len - 1] = '\0'`: with nothing printed it is a write in front of the buffer.
abbrev extract_text : Buffer → Option Word
extract_text b = elim b.len [ zero ↦ none | suc n ↦ some (take n b.text) ]

abbrev extracted_value : {D : Type 0} → Option Buffer → Option (ℤ × LreValue D)
extracted_value none = none
extracted_value (some b) = elim (extract_text b) [
  | none ↦ none
  | some w ↦ some (lre_ret_ok, string w)
]

-- With the processes chosen. A key that is missing or empty is read through a null pointer or in
-- front of the text.
abbrev extract_keyed :
    {D : Type 0} → Option Word → ℤ → List ProcessInfo → LreValue D → Option (ℤ × LreValue D)
extract_keyed none index is val = none
extract_keyed (some []) index is val = none
extract_keyed (some (c ∷ cs)) index is val = elim (cut_spaces (c ∷ cs)) [
  | [] ↦ some (minus_einval, val)
  | d ∷ ds ↦ extracted_value (extract_loop (c ∷ cs) index is empty_buffer)
]

-- `cmdline_extract_execute` behind the loading of the list; `none` is undefined behaviour.
unfoldable cmdline_extract_execute :
    {D : Type 0} → Processlist → Process → LreValue D → Option ((ℤ × LreValue D) × Process)
cmdline_extract_execute ps p val =
    if has_name_or_path p
    then elim (processes_of ps) [
      | none ↦ none
      | some is ↦ elim (fill_spec_process p is) [
        | none ↦ none
        | some q ↦ elim (extract_keyed q.argkey q.argindex q.psinfo val) [
          | none ↦ none
          | some r ↦ some (r, record q { state = true })
        ]
      ]
    ]
    else some ((minus_einval, val), record p { state = false })
