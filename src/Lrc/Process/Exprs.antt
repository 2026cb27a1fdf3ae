-- ===== src/Lrc/Process/Exprs.antt =====
-- The expressions `running` and `user` of `process` (lrc/lrc_process.c).
use lre.Base.{
  Bool, true, false, not, ◌&&◌, ◌||◌, Option, none, some, List, [], ◌∷◌, ◌++◌, ltb, if◌then◌else◌,
  length,
}
use lre.Base.Int.{pos}
use lre.Symbols.{Sym}
use lre.Token.{Word}
use lre.Value.{LreValue, int, string}
use lre.Calculate.{bool_int, lre_compare_int}
use lre.Lrc.Strings.{text, show_int, same_string}
use lre.Lrc.Values.{lre_ret_error, Answer, silent, answer, not_word}
use lre.Lrc.Process.{ProcessInfo, Process}

-- The paths of the processes, in the details.
abbrev shown_binpaths : List ProcessInfo → Word
shown_binpaths [] = []
shown_binpaths (i ∷ is) =
    elim i.binpath [ none ↦ text "(unknown)" | some w ↦ w ] ++ (b';' ∷ shown_binpaths is)

abbrev running_details : Process → Word
running_details p = elim p.psinfo [
  | [] ↦ text "not running."
  | i ∷ is ↦ elim p.excludepath [
    | none ↦ text "running."
    | some w ↦ text "running. path:" ++ shown_binpaths (i ∷ is)
  ]
]

abbrev has_user : Word → List ProcessInfo → Bool
has_user user [] = false
has_user user (i ∷ is) = same_string i.user user || has_user user is

abbrev is_empty : List ProcessInfo → Bool
is_empty [] = true
is_empty (i ∷ is) = false

abbrev answer_user : Process → Sym → Option Word → Option Answer
answer_user p opt none = none
answer_user p opt (some user) = some (
    answer (lre_compare_int (bool_int (has_user user p.psinfo)) (pos 1) opt)
      (λ b. text "expr 'user' " ++ (not_word b ++ text "matched.")))

module _ {D : Type 0} where
  unfoldable expr_running_handler : Process → Sym → LreValue D → Answer
  expr_running_handler p opt (int z) =
      if p.state
      then answer (lre_compare_int (bool_int (not (is_empty p.psinfo))) z opt)
          (λ _. running_details p)
      else silent lre_ret_error
  expr_running_handler p opt _ = silent lre_ret_error

  -- An `int` is compared as the truth value of `lre_value_is_int`. `none` is a write behind the
  -- array `user`.
  abbrev wanted_user : LreValue D → Option Word
  wanted_user (int z) = some (show_int (pos 1))
  wanted_user (string w) = if ltb (length w) 32 then some w else none
  wanted_user _ = none

  abbrev is_user_value : LreValue D → Bool
  is_user_value (int z) = true
  is_user_value (string w) = true
  is_user_value _ = false

  unfoldable expr_user_handler : Process → Sym → LreValue D → Option Answer
  expr_user_handler p opt v =
      if p.state && is_user_value v
      then answer_user p opt (wanted_user v)
      else some (silent lre_ret_error)
