-- ===== src/Ca/Flags.antt =====
-- The flags of c/ca.c: match_flag, parse_bool, and ca_main up to the connection. An `exit(1)` with its
-- message is `none`. An int is the bit pattern of its 32 bits.
pub mod Items
pub mod Gathered
use mathlib.Core.Option
use tracep.Base.{
  Bool, List, Option, [], false, if◌then◌else◌, length, ltb, none, not, some, true, ℕ, ◌++◌, ◌==◌,
  ◌||◌, ◌∷◌,
}
use tracep.Int.{int32, negsuc, pos}
use tracep.Memory.{Bytes}
use tracep.Text.{codes, same_text, strtol}
use tracep.Tls.Events.{behind}

-- what match_flag returns: 0, its exit, or 1 or 2 with the value and whether it took the next argument
pub data Match : Type 0 where
  missed : Match
  needs_value : Match
  hit : Option Bytes → Bool → Match

-- a flag that stands alone
unfoldable pub bare_flag : Bool → Option Bytes → Match
bare_flag true next = hit none false
bare_flag false none = needs_value
bare_flag false (some v) = hit (some v) true

-- what follows the name of a flag
unfoldable pub flag_value : Bool → Bytes → Option Bytes → Match
unfolding bare_flag
flag_value is_bool [] next = bare_flag is_bool next
flag_value is_bool (c ∷ v) next = if c == b'=' then hit (some v) false else missed

-- `a + 1`, or `a + 2` behind a second dash
unfoldable pub flag_body : Bytes → Option Bytes
flag_body (c ∷ d ∷ s) = if c == b'-' then some (if d == b'-' then s else d ∷ s) else none
flag_body (c ∷ []) = if c == b'-' then some [] else none
flag_body [] = none

-- `next` is the argument behind `a`
unfoldable pub match_flag : Bytes → Bool → Bytes → Option Bytes → Match
unfolding flag_body flag_value behind
match_flag name is_bool a next = elim (flag_body a) [
  | none ↦ missed
  | some body ↦ elim (behind name body) [
    | none ↦ missed
    | some after ↦ flag_value is_bool after next
  ]
]

abbrev pub is_one_of : List Bytes → Bytes → Bool
is_one_of [] v = false
is_one_of (t ∷ ts) v = same_text v t || is_one_of ts v

abbrev pub true_words : List Bytes
true_words = codes "1" ∷ codes "t" ∷ codes "T" ∷ codes "true" ∷ codes "TRUE" ∷ codes "True" ∷ []

abbrev pub false_words : List Bytes
false_words = codes "0" ∷ codes "f" ∷ codes "F" ∷ codes "false" ∷ codes "FALSE" ∷ codes "False" ∷ []

unfoldable pub parse_bool : Option Bytes → Option Bool
unfolding same_text
parse_bool none = some true
parse_bool (some v) =
    if length v == 0 || is_one_of true_words v
    then some true
    else if is_one_of false_words v
    then some false
    else none

-- the static variables, and `pos` with its `posn` places
pub record Flags : Type 0 where
  pub port : ℕ
  pub output : Bytes
  pub fetch_root : Bool
  pub insecure : Bool
  pub all : Bool
  pub timeout : ℕ
  pub show_ver : Bool
  pub pos : List Bytes

abbrev pub defaults : Flags
defaults = record {
  port = 443;
  output = [];
  fetch_root = false;
  insecure = false;
  all = false;
  timeout = 10;
  show_ver = false;
  pos = [];
}

-- the value of -port and of -timeout: strtol to the end of the text
unfoldable pub int_value : Bytes → Option ℕ
unfolding strtol int32
int_value v =
    let r = strtol v in if not r.any || ltb 0 (length r.end) then none else some (int32 r.value)

-- One `if (match_flag(...)) { ...; continue; }`: what it does with the value, and what follows it.
unfoldable pub try_flag :
    Match → (Option Bytes → Option Flags) → Option (Flags × Bool) → Option (Flags × Bool)
try_flag missed keep otherwise = otherwise
try_flag needs_value keep otherwise = none
try_flag (hit v taken) keep otherwise = Option.map (λ f. (f, taken)) (keep v)

-- the value of a flag that is no bool
abbrev pub text_of : Option Bytes → Bytes
text_of none = []
text_of (some v) = v

unfoldable pub set_port : Flags → Option Bytes → Option Flags
unfolding int_value
set_port f v = Option.map (λ n. record f { port = n }) (int_value (text_of v))

unfoldable pub set_timeout : Flags → Option Bytes → Option Flags
unfolding int_value
set_timeout f v = Option.map (λ n. record f { timeout = n }) (int_value (text_of v))

-- `argv[i][0] == '-' && argv[i][1] != 0`
unfoldable pub is_flag : Bytes → Bool
is_flag (c ∷ d ∷ s) = c == b'-'
is_flag _ = false

-- an argument that no flag matches: an unknown flag, or one that is kept where there is place
unfoldable pub positional : Flags → Bytes → Option (Flags × Bool)
unfolding is_flag
positional f a =
    if is_flag a
    then none
    else some ((if ltb (length f.pos) 4 then record f { pos = f.pos ++ a ∷ [] } else f), false)

-- the body of the loop, with the argument behind `a`: the flags, and whether that one is taken
unfoldable pub parse_arg : Flags → Bytes → Option Bytes → Option (Flags × Bool)
unfolding try_flag match_flag set_port set_timeout parse_bool positional
parse_arg f a next = try_flag (match_flag (codes "port") false a next) (set_port f) (
    try_flag (match_flag (codes "fetch-root") true a next)
      (λ v. Option.map (λ b. record f { fetch_root = b }) (parse_bool v))
      (try_flag (match_flag (codes "insecure") true a next)
        (λ v. Option.map (λ b. record f { insecure = b }) (parse_bool v))
        (try_flag (match_flag (codes "all") true a next)
          (λ v. Option.map (λ b. record f { all = b }) (parse_bool v))
          (try_flag (match_flag (codes "version") true a next)
            (λ v. Option.map (λ b. record f { show_ver = b }) (parse_bool v))
            (try_flag (match_flag (codes "timeout") false a next) (set_timeout f) (
              try_flag (match_flag (codes "o") false a next)
                (λ v. some (record f { output = text_of v })) (positional f a)))))))

abbrev pub head? : List Bytes → Option Bytes
head? [] = none
head? (a ∷ rest) = some a

-- the loop over the arguments; `taken` says that the next one is the value of a flag
unfoldable pub parse_args : Bool → Flags → List Bytes → Option Flags
unfolding parse_arg
parse_args taken f [] = some f
parse_args true f (a ∷ rest) = parse_args false f rest
parse_args false f (a ∷ rest) = elim (parse_arg f a (head? rest)) [
  | none ↦ none
  | some (f', taken) ↦ parse_args taken f' rest
]

-- how ca_main goes on: it prints its version, or connects to a host at `port`
pub data Command : Type 0 where
  version : Command
  connect : Bytes → Flags → Command

-- the second positional is a port from 1 to 65535
unfoldable pub port_arg : Bytes → Option ℕ
unfolding strtol
port_arg s =
    let r = strtol s in
    if not r.any || ltb 0 (length r.end)
    then none
    else elim r.value [ pos p ↦ if ltb p 1 || ltb 65535 p then none else some p | negsuc p ↦ none ]

unfoldable pub command_of : Flags → List Bytes → Option Command
unfolding port_arg
command_of f [] = none
command_of f (host ∷ []) = some (connect host f)
command_of f (host ∷ p ∷ rest) = Option.map (λ n. connect host (record f { port = n })) (port_arg p)

-- ca_main up to the connection, on the arguments behind the name
unfoldable pub ca_options : List Bytes → Option Command
unfolding parse_args command_of
ca_options args = elim (parse_args false defaults args) [
  | none ↦ none
  | some f ↦ if f.show_ver then some version else command_of f f.pos
]
