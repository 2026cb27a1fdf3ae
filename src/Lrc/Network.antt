-- ===== src/Lrc/Network.antt =====
-- The function `network` (lrc/lrc_network.c): the sockets that /proc/net lists, and whether a port
-- is listened on.
pub mod Laws
use lre.Base.{
  ℕ, zero, suc, ◌+◌, ◌-◌, Bool, true, false, ◌&&◌, ◌||◌, Option, none, some, List, [], ◌∷◌, ◌++◌,
  ltb, leb, ◌==◌, if◌then◌else◌, length,
}
use lre.Base.Int.{ℤ, pos, negsuc, eqb_ℤ}
use lre.Symbols.{Sym}
use lre.Token.{Word}
use lre.Value.{LreValue, unknown, int, double, string}
use lre.Calculate.{bool_int, lre_compare_int}
use lre.Macro.Lines.{got, null, xgetline}
use lre.Lrc.Strings.{text, show_int, same_string}
use lre.Lrc.Values.{
  lre_ret_ok, lre_ret_error, string_handler, int_handler, Answer, silent, report, answer, not_word,
}

-- struct net_state, without the addresses, which nothing reads.
pub record NetState : Type 0 where
  pub localport : ℕ
  pub remoteport : ℕ
  pub state : ℕ

-- The lines of a file, which is the list of its bytes: the loop over `xgetline`, with fuel.
unfoldable pub lines_loop : ℕ → Word → List Word
lines_loop zero file = []
lines_loop (suc n) file = elim (xgetline 511 file) [
  | null line rest ↦ []
  | got line rest ↦ line ∷ lines_loop n rest
]

abbrev pub lines_of : Word → List Word
lines_of file = lines_loop (suc (length file)) file

-- The loop that fills the array of `entries` sockets, `cnt` of them filled. `sscanf` reads a line,
-- if all five conversions succeed.
unfoldable pub stats_loop : (Word → Option NetState) → ℕ → ℕ → List Word → List NetState
stats_loop sscanf entries cnt [] = []
stats_loop sscanf entries cnt (line ∷ lines) = if leb entries cnt then [] else elim (sscanf line) [
  | none ↦ stats_loop sscanf entries cnt lines
  | some s ↦ s ∷ stats_loop sscanf entries (suc cnt) lines
]

abbrev pub without_first : List Word → List Word
without_first [] = []
without_first (line ∷ lines) = lines

-- The array and its length; `freed` is an array that `network_info_release` freed, with the length
-- that it had.
pub data Stats : Type 0 where
  stats : List NetState → Stats
  freed : ℕ → Stats

-- `tcp_state_load` and `udp_state_load`. The file is read twice, to count its lines and to parse
-- them, and it may change between. A file that cannot be opened leaves everything as it was.
unfoldable pub state_load : (Word → Option NetState) → Option (Word × Word) → Stats → Stats
unfolding lines_loop stats_loop
state_load sscanf none old = old
state_load sscanf (some (counted, parsed)) old =
    stats (stats_loop sscanf (length (lines_of counted)) 0 (without_first (lines_of parsed)))

-- The global variables.
pub record Net : Type 0 where
  pub tcp_stats : Stats
  pub udp_stats : Stats
  pub net_initialized : Bool

abbrev pub network_info_load :
    (Word → Option NetState) → Option (Word × Word) → Option (Word × Word) → Net → Net
network_info_load sscanf tcp udp net = record net {
  tcp_stats = state_load sscanf tcp net.tcp_stats;
  udp_stats = state_load sscanf udp net.udp_stats;
  net_initialized = true;
}

abbrev pub free_stats : Stats → Stats
free_stats (stats xs) = freed (length xs)
free_stats (freed n) = freed n

abbrev pub network_info_release : Net → Net
network_info_release net = record net {
  tcp_stats = free_stats net.tcp_stats;
  udp_stats = free_stats net.udp_stats;
  net_initialized = false;
}

abbrev pub lrc_network_release : Net → Net
lrc_network_release net = if net.net_initialized then network_info_release net else net

-- struct lrc_network. `none` is a protocol that fills its array of 16 bytes without a zero behind.
pub record Network : Type 0 where
  pub protocol : Option Word
  pub port : ℤ

-- INVAILD_PORT.
abbrev pub invaild_port : ℤ
invaild_port = negsuc 0

abbrev pub network_constructor : Network
network_constructor = record { protocol = some []; port = invaild_port }

abbrev pub copy_protocol : Word → Network → Network
copy_protocol w n = record n { protocol = if ltb (length w) 16 then some w else none }

module _ {D : Type 0} where
  abbrev pub arg_protocol_handler : Network → LreValue D → ℤ × Network
  arg_protocol_handler = string_handler copy_protocol

  abbrev pub arg_port_handler : Network → LreValue D → ℤ × Network
  arg_port_handler = int_handler (λ z n. record n { port = z })

-- The protocol that is asked for, TCP if none was given.
abbrev pub default_protocol : Word → Word
default_protocol [] = text "tcp"
default_protocol (c ∷ cs) = c ∷ cs

abbrev pub network_details : Word → ℤ → Word
network_details protocol port =
    text "network protocol:"
    ++ (protocol
        ++ (b' ' ∷ (if eqb_ℤ port invaild_port then [] else text "port:" ++ show_int port)))

-- `network_execute` with the files of /proc/net; `none` is undefined behaviour.
unfoldable pub network_execute :
    (Word → Option NetState)
    → Option (Word × Word)
    → Option (Word × Word)
    → Net
    → Network
    → Option ((Answer × Network) × Net)
network_execute sscanf tcp udp net n = elim n.protocol [
  | none ↦ none
  | some w ↦ some (
    (
      report lre_ret_ok (network_details (default_protocol w) n.port),
      record n { protocol = some (default_protocol w) },
    ),
    if net.net_initialized then net else network_info_load sscanf tcp udp net,
  )
]

-- `strcasecmp`, of bytes.
abbrev pub lower : ℕ → ℕ
lower c = if leb b'A' c && leb c b'Z' then c + 32 else c

unfoldable pub lower_all : Word → Word
lower_all [] = []
lower_all (c ∷ cs) = lower c ∷ lower_all cs

-- The flags that the protocol asks for, in the list of the TCP sockets for both protocols.
unfoldable pub listen_flags : Word → Option ℕ
unfolding lower_all
listen_flags protocol =
    if same_string (lower_all protocol) (text "tcp")
    then some 10
    else if same_string (lower_all protocol) (text "udp")
    then some 7
    else none

abbrev pub vaild_port : ℤ → Bool
vaild_port (pos n) = ltb 0 n && leb n 65535
vaild_port (negsuc n) = false

-- Is there a socket with the flags and the port?
unfoldable pub has_socket : ℕ → ℤ → List NetState → Bool
has_socket flags port [] = false
has_socket flags port (s ∷ ss) =
    (s.state == flags && eqb_ℤ (pos s.localport) port) || has_socket flags port ss

-- `none` is a read of freed memory.
abbrev pub ask : ℕ → ℤ → Stats → Option Bool
ask flags port (stats ss) = some (has_socket flags port ss)
ask flags port (freed zero) = some false
ask flags port (freed (suc n)) = none

abbrev pub listen_answer : ℤ → Sym → Option Bool → Option Answer
listen_answer z opt none = none
listen_answer z opt (some exist) =
    some
      (answer (lre_compare_int z (bool_int exist) opt) (λ _. not_word exist ++ text "listening."))

module _ (net : Net) (n : Network) (opt : Sym) (z : ℤ) where
  abbrev pub listen_port : ℕ → Bool → Option Answer
  listen_port flags true = listen_answer z opt (ask flags n.port net.tcp_stats)
  listen_port flags false = some (silent lre_ret_error)

  abbrev pub listen_flagged : Option ℕ → Option Answer
  listen_flagged none = some (silent lre_ret_error)
  listen_flagged (some flags) = listen_port flags (vaild_port n.port)

  abbrev pub listen_protocol : Option Word → Option Answer
  listen_protocol none = none
  listen_protocol (some w) = listen_flagged (listen_flags w)

unfoldable pub expr_listen_handler : {D : Type 0} → Net → Network → Sym → LreValue D → Option Answer
expr_listen_handler net n opt (int z) = listen_protocol net n opt z n.protocol
expr_listen_handler net n opt _ = some (silent lre_ret_error)
