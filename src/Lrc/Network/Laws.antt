-- ===== src/Lrc/Network/Laws.antt =====
-- The table of sockets, and what `listen` says of a port (lrc/lrc_network.c).
use lre.Lrc.Strings.{same_string}
use lre.Base.{
  leb, ◌==◌, ◌&&◌, ◌||◌, ◌<◌, ◌⊎◌, inl, inr, false, ℕ, suc, ◌+◌, ◌≤◌, Bool, true, Option, some,
  List, [], ◌∷◌, ◌≡◌, refl, ap, ◌∙◌, length, arith,
}
use lre.Base.Int.{ℤ, pos}
use lre.Symbols.{Sym}
use lre.Token.{Word}
use lre.Value.{int}
use lre.Calculate.{bool_int, lre_compare_int}
use lre.Lrc.Values.{Answer}
use lre.Lrc.Network.{
  NetState, lower, lower_all, stats_loop, lines_of, without_first, Stats, stats, state_load, Net,
  Network, listen_flags, vaild_port, has_socket, ask, listen_answer, listen_port, listen_flagged,
  listen_protocol, expr_listen_handler,
}

stats_loop-length :
    (sscanf : Word → Option NetState) (entries cnt : ℕ) (lines : List Word)
    → cnt ≤ entries
    → cnt + length (stats_loop sscanf entries cnt lines) ≤ entries
unfolding stats_loop
stats_loop-length sscanf entries cnt [] h = omega arith
stats_loop-length sscanf entries cnt (line ∷ lines) h = ground (
  arith,
  stats_loop-length sscanf entries cnt lines,
  stats_loop-length sscanf entries (suc cnt) lines,
)

-- The sockets have room in the array, also if the file has grown since its lines were counted.
state_load-length :
    (sscanf : Word → Option NetState) (counted parsed : Word) (old : Stats)
    → (ss : List NetState) × (state_load sscanf (some (counted, parsed)) old ≡ stats ss)
      × (length ss ≤ length (lines_of counted))
unfolding state_load
state_load-length sscanf counted parsed old = (
  _,
  refl,
  omega (
    arith,
    stats_loop-length sscanf (length (lines_of counted)) 0 (without_first (lines_of parsed)),
  ),
)

-- The byte is the letter, in lower or in upper case.
abbrev pub IsLetter : ℕ → ℕ → Type 0
IsLetter d c = (c ≡ d) ⊎ (c + 32 ≡ d)

-- The protocols, in any case, and the flags that they ask for: 0x0A for TCP and 0x07 for UDP.
pub data Asks : Word → ℕ → Type 0 where
  tcp : (x y z : ℕ) → IsLetter b't' x → IsLetter b'c' y → IsLetter b'p' z → Asks (x ∷ y ∷ z ∷ []) 10
  udp : (x y z : ℕ) → IsLetter b'u' x → IsLetter b'd' y → IsLetter b'p' z → Asks (x ∷ y ∷ z ∷ []) 7

lower-IsLetter : (d c : ℕ) → leb b'a' d ≡ true → leb d b'z' ≡ true → IsLetter d c → lower c ≡ d
lower-IsLetter d c h l (inl e) = ground arith
lower-IsLetter d c h l (inr e) = ground arith

lower_all-three :
    (a b d x y z : ℕ)
    → lower x ≡ a
    → lower y ≡ b
    → lower z ≡ d
    → lower_all (x ∷ y ∷ z ∷ []) ≡ a ∷ b ∷ d ∷ []
unfolding lower_all
lower_all-three a b d x y z e f g = cc

listen_flags-Asks : (w : Word) (flags : ℕ) → Asks w flags → listen_flags w ≡ some flags
unfolding listen_flags
listen_flags-Asks _ _ (tcp x y z h k l) =
    rw
      (lower_all-three b't' b'c' b'p' x y z (lower-IsLetter b't' x refl refl h)
        (lower-IsLetter b'c' y refl refl k) (lower-IsLetter b'p' z refl refl l))
      (unfold same_string in refl)
listen_flags-Asks _ _ (udp x y z h k l) =
    rw
      (lower_all-three b'u' b'd' b'p' x y z (lower-IsLetter b'u' x refl refl h)
        (lower-IsLetter b'd' y refl refl k) (lower-IsLetter b'p' z refl refl l))
      (unfold same_string in refl)

-- Some socket of the list has the flags and the port, or none has.
pub data Listens (flags port : ℕ) : List NetState → Type 0 where
  here :
      (s : NetState) (ss : List NetState)
      → s.state ≡ flags
      → s.localport ≡ port
      → Listens flags port (s ∷ ss)
  there : (s : NetState) (ss : List NetState) → Listens flags port ss → Listens flags port (s ∷ ss)

-- What a test says of a claim: 1 where it holds, and 0 where it does not.
pub data Tells (P : Type 0) : ℤ → Type 0 where
  yes : P → Tells P (pos 1)
  no : ¬ P → Tells P (pos 0)

not-here :
    (flags port : ℕ) (s : NetState) (ss : List NetState)
    → (s.state == flags && s.localport == port) ≡ false
    → ¬ Listens flags port ss
    → ¬ Listens flags port (s ∷ ss)
not-here flags port s ss e h (here _ _ f p) = ground arith
not-here flags port s ss e h (there _ _ l) = h l

Tells-has_socket :
    (flags port : ℕ) (ss : List NetState)
    → Tells (Listens flags port ss) (bool_int (has_socket flags (pos port) ss))
unfolding has_socket
Tells-has_socket flags port [] = no λ l. (elim l [ ])
Tells-has_socket flags port (s ∷ ss) =
    go (s.state == flags && s.localport == port) refl (has_socket flags (pos port) ss)
      (Tells-has_socket flags port ss)
  where
    go :
        (b : Bool)
        → (s.state == flags && s.localport == port) ≡ b
        → (c : Bool) → Tells (Listens flags port ss) (bool_int c)
        → Tells (Listens flags port (s ∷ ss)) (bool_int (b || c))
    go true e c t = yes (here s ss (ground arith) (ground arith))
    go false e true (yes l) = yes (there s ss l)
    go false e false (no h) = no (not-here flags port s ss e h)

-- `listen == 1` is 1 if one of the TCP sockets has the port and the flags of the protocol, which is
-- TCP or UDP in any case, and 0 if none has; the UDP sockets are not asked. The port is from 1 to
-- 65535, and the list of TCP sockets is not freed.
pub expr_listen_handler-tcp_stats :
    (D : Type 0) (net : Net) (n : Network) (w : Word) (flags port : ℕ) (ss : List NetState)
    → n.protocol ≡ some w
    → Asks w flags
    → n.port ≡ pos port
    → 0 < port
    → port ≤ 65535
    → net.tcp_stats ≡ stats ss
    → (a : Answer) × (expr_listen_handler {D = D} net n Sym.equal (int (pos 1)) ≡ some a)
      × Tells (Listens flags port ss) a.0
unfolding expr_listen_handler lre_compare_int
expr_listen_handler-tcp_stats D net n w flags port ss e f g low high h =
    let valid : vaild_port n.port ≡ true = ap vaild_port g ∙ in_range in
    let (a, k, l) = answered (has_socket flags (pos port) ss) in
    (
      a,
      ap (listen_protocol net n Sym.equal (pos 1)) e
          ∙ ap (listen_flagged net n Sym.equal (pos 1)) (listen_flags-Asks w flags f)
          ∙ ap (listen_port net n Sym.equal (pos 1) flags) valid
          ∙ ap (λ t. listen_answer (pos 1) Sym.equal (ask flags n.port t)) h
          ∙ ap (λ p. listen_answer (pos 1) Sym.equal (ask flags p (stats ss))) g
          ∙ k,
      rw l (Tells-has_socket flags port ss),
    )
  where
    in_range : vaild_port (pos port) ≡ true
    in_range = ground arith

    answered :
        (b : Bool)
        → (a : Answer) × (listen_answer (pos 1) Sym.equal (some b) ≡ some a) × (a.0 ≡ bool_int b)
    answered true = (_, refl, refl)
    answered false = (_, refl, refl)
