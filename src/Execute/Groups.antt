-- ===== src/Execute/Groups.antt =====
-- How `execute_syntax_childs` (execute.c) groups a mixed list of `&&` and `||`.
use lre.Base.{ℕ, [], true, some, ◌≡◌, ◌⊎◌, inl, inr, refl, if◌then◌else◌, arith}
use lre.Base.Int.{ℤ, pos, eqb_ℤ}
use lre.Symbols.{Sym}
use lre.Syntax.{Childs, block, cnil, ccons}
use lre.Calculate.{ret_dead_val, vaild_lre_results}
use lre.Machine.{Components, State, M, pure, ◌>>=◌, bind_congr, bind-eq, val_uninitialized}
use lre.Execute.{join, decided, after_round, exec_child, exec_childs, interp_execute}

module _ {K : Type 0} where
  -- `&&` or `||` stands between two nodes, and nothing behind the last.
  abbrev Joins : Sym → Childs K → Type 0
  Joins o cnil = o ≡ Sym.reserved
  Joins o (ccons d p ds) = (o ≡ Sym.and) ⊎ (o ≡ Sym.or)

  -- The list is not empty.
  abbrev IsMore : Childs K → Type 0
  IsMore cnil = ⊥
  IsMore (ccons d p ds) = Unit

  abbrev IsJoined : Childs K → Type 0
  IsJoined cnil = Unit
  IsJoined (ccons d o ds) = Joins o ds × IsJoined ds

module _ (c : Components) where
  -- The result of one node: a truth value, or the dead value for any other.
  abbrev verdict : ℤ → M (State c) ℤ
  verdict ret =
      if eqb_ℤ ret (pos 0)
      then pure (pos 0)
      else if eqb_ℤ ret (pos 1)
      then pure (pos 1)
      else pure ret_dead_val

  -- The value of a node and, where that leaves the matter open, of all that follows it.
  abbrev pub link : Sym → M (State c) ℤ → ℤ → M (State c) ℤ
  link Sym.and rest ret = if eqb_ℤ ret (pos 1) then rest else verdict ret
  link Sym.or rest ret = if eqb_ℤ ret (pos 0) then rest else verdict ret
  link _ rest ret = verdict ret

  -- The operators group to the right, each with all that follows it as its second operand.
  unfoldable pub nested : Childs c.Stub → M (State c) ℤ
  nested cnil = pure val_uninitialized
  nested (ccons ch o cs) = exec_child c ch >>= link o (nested cs)

  -- A result and an operator before a node that leave the node's value as the new result.
  Passes : ℤ → Sym → Type 0
  Passes res opt = (ret : ℤ) → vaild_lre_results ret ≡ true → join c res opt ret ≡ some ret

  Passes-first : (opt : Sym) → Passes val_uninitialized opt
  unfolding Passes join
  Passes-first opt ret h = refl

  Passes-and : Passes (pos 1) Sym.and
  unfolding Passes join
  Passes-and ret h = ground arith

  Passes-or : Passes (pos 0) Sym.or
  unfolding Passes join
  Passes-or ret h = ground arith

  after_round-last :
      (again : ℤ → M (State c) ℤ) (res : ℤ) (opt : Sym) (ret : ℤ) (st : State c)
      → Passes res opt
      → ((r : ℤ) → again r st ≡ some (r, st))
      → after_round c again res opt Sym.reserved ret st ≡ verdict ret st
  unfolding after_round Passes decided
  after_round-last again res opt ret st p h = ground (arith, p ret, h ret)

  after_round-and :
      (again : ℤ → M (State c) ℤ) (rest : M (State c) ℤ) (res : ℤ) (opt : Sym) (ret : ℤ)
      (st : State c)
      → Passes res opt
      → again (pos 1) st ≡ rest st
      → after_round c again res opt Sym.and ret st ≡ link Sym.and rest ret st
  unfolding after_round Passes decided
  after_round-and again rest res opt ret st p h = ground (arith, p ret)

  after_round-or :
      (again : ℤ → M (State c) ℤ) (rest : M (State c) ℤ) (res : ℤ) (opt : Sym) (ret : ℤ)
      (st : State c)
      → Passes res opt
      → again (pos 0) st ≡ rest st
      → after_round c again res opt Sym.or ret st ≡ link Sym.or rest ret st
  unfolding after_round Passes decided
  after_round-or again rest res opt ret st p h = ground (arith, p ret)

  exec_childs-link :
      (o : Sym) (cs : Childs c.Stub) (res : ℤ) (opt : Sym) (ret : ℤ) (st : State c)
      → Joins o cs
      → Passes res opt
      → (IsMore cs → (r : ℤ) (q : Sym) → Passes r q → exec_childs c r q cs st ≡ nested cs st)
      → after_round c (λ r. exec_childs c r o cs) res opt o ret st ≡ link o (nested cs) ret st
  exec_childs-link o cnil res opt ret st j p ih = rw j (
      after_round-last (λ r. exec_childs c r Sym.reserved cnil) res opt ret st p
        (λ r. unfold exec_childs in refl))
  exec_childs-link o (ccons d q ds) res opt ret st (inl e) p ih = rw e (
      after_round-and _ (nested (ccons d q ds)) res opt ret st p (ih tt (pos 1) Sym.and Passes-and))
  exec_childs-link o (ccons d q ds) res opt ret st (inr e) p ih =
      rw e
        (after_round-or _ (nested (ccons d q ds)) res opt ret st p (ih tt (pos 0) Sym.or Passes-or))

  exec_childs-nested :
      (cs : Childs c.Stub) (res : ℤ) (opt : Sym) (st : State c)
      → IsMore cs
      → IsJoined cs
      → Passes res opt
      → exec_childs c res opt cs st ≡ nested cs st
  unfolding exec_childs nested
  exec_childs-nested cnil res opt st m j p = absurd m
  exec_childs-nested (ccons ch o cs) res opt st m j p =
      bind_congr (exec_child c ch) _ (link o (nested cs)) st (λ ret st'.
        exec_childs-link o cs res opt ret st' j.0 p
          (λ n r q p'. exec_childs-nested cs r q st' n j.1 p'))

  -- A rule whose nodes are joined by `&&` and `||` alone runs as if the operators grouped to the
  -- right, without precedence, and evaluates no node that the result does not need.
  pub interp_execute-nested :
      (size : ℕ) (w : c.World) (cs : Childs c.Stub)
      → IsMore cs
      → IsJoined cs
      → interp_execute c size w cs ≡ nested cs (record { stack = []; stackdepth = size; world = w })
  unfolding interp_execute
  interp_execute-nested size w cs m j =
      exec_childs-nested cs val_uninitialized Sym.reserved _ m j (Passes-first Sym.reserved)

  -- A negated block whose nodes end in the dead value has the valid result 0 (false).
  exec_block-negated_dead :
      (cs : Childs c.Stub) (st st' : State c)
      → exec_childs c val_uninitialized Sym.reserved cs st ≡ some (ret_dead_val, st')
      → exec_child c (block true cs) st ≡ some (pos 0, st')
  unfolding exec_childs
  exec_block-negated_dead cs st st' h =
      bind-eq (exec_childs c val_uninitialized Sym.reserved cs) _ st st' ret_dead_val h
