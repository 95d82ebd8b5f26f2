-- ===== src/Ca/Flags/Items.antt =====
-- The flags of c/ca.c as items, what each does to the state, and the loop of ca_main on its arguments.
use mathlib.Core.Option
use tracep.Base.{
  Bool, List, Option, [], arith, false, if◌then◌else◌, inl, inr, length, ltb, none, refl, some,
  true, ◌++◌, ◌∷◌, ◌≡◌, ◌⊎◌,
}
use tracep.Ca.Flags.{
  Flags, flag_body, head?, is_flag, match_flag, parse_arg, parse_args, parse_bool, set_port,
  set_timeout,
}
use tracep.Memory.{Bytes}
use tracep.Text.{codes}

-- a flag with a value, and one that is true or false
pub data ValueName : Type 0 where
  port_flag : ValueName
  timeout_flag : ValueName
  output_flag : ValueName

pub data BoolName : Type 0 where
  root_flag : BoolName
  insecure_flag : BoolName
  all_flag : BoolName
  version_flag : BoolName

abbrev pub value_name : ValueName → Bytes
value_name port_flag = codes "port"
value_name timeout_flag = codes "timeout"
value_name output_flag = codes "o"

abbrev pub bool_name : BoolName → Bytes
bool_name root_flag = codes "fetch-root"
bool_name insecure_flag = codes "insecure"
bool_name all_flag = codes "all"
bool_name version_flag = codes "version"

abbrev pub dashes : Bool → Bytes
dashes two = if two then codes "--" else codes "-"

-- A flag with its value beside it or behind an equals sign, in one or two arguments; a flag with one
-- or two dashes.
pub data Item : Type 0 where
  word : Bytes → Item
  apart : Bool → ValueName → Bytes → Item
  joined : Bool → ValueName → Bytes → Item
  alone : Bool → BoolName → Item
  given : Bool → BoolName → Bytes → Item

abbrev pub arguments_of : Item → List Bytes
arguments_of (word a) = a ∷ []
arguments_of (apart two n v) = (dashes two ++ value_name n) ∷ v ∷ []
arguments_of (joined two n v) = (dashes two ++ value_name n ++ b'=' ∷ v) ∷ []
arguments_of (alone two n) = (dashes two ++ bool_name n) ∷ []
arguments_of (given two n v) = (dashes two ++ bool_name n ++ b'=' ∷ v) ∷ []

abbrev pub rendered : List Item → List Bytes
rendered [] = []
rendered (i ∷ items) = arguments_of i ++ rendered items

-- the items without the positional arguments, and these alone
abbrev pub flags_of : List Item → List Bytes
flags_of [] = []
flags_of (word a ∷ items) = flags_of items
flags_of (i ∷ items) = arguments_of i ++ flags_of items

abbrev pub plain_of : List Item → List Bytes
plain_of [] = []
plain_of (word a ∷ items) = a ∷ plain_of items
plain_of (i ∷ items) = plain_of items

-- A positional argument is a dash alone, or begins with none.
abbrev pub IsItem : Item → Type 0
IsItem (word a) = is_flag a ≡ false
IsItem _ = Unit

-- A positional argument is kept where there is place.
abbrev pub added : Flags → Bytes → Flags
added f a = if ltb (length f.pos) 4 then record f { pos = f.pos ++ a ∷ [] } else f

flag_body_plain : (a : Bytes) → is_flag a ≡ false → (flag_body a ≡ none) ⊎ (a ≡ codes "-")
unfolding is_flag flag_body
flag_body_plain [] h = inl refl
flag_body_plain (c ∷ []) h = ground arith
flag_body_plain (c ∷ d ∷ s) h = ground arith

parse_arg-word :
    (f : Flags) (a : Bytes) (next : Option Bytes)
    → is_flag a ≡ false
    → parse_arg f a next ≡ some (added f a, false)
unfolding parse_arg
parse_arg-word f a next h = elim (flag_body_plain a h) [
  | inl e ↦ rw (match_flag, e, h) refl
  | inr e ↦ rw e refl
]

-- What a flag does to the state, if it does not exit.
unfoldable pub setting : Item → Flags → Option Flags
setting (word a) f = some (added f a)
setting (apart two port_flag v) f = set_port f (some v)
setting (apart two timeout_flag v) f = set_timeout f (some v)
setting (apart two output_flag v) f = some (record f { output = v })
setting (joined two port_flag v) f = set_port f (some v)
setting (joined two timeout_flag v) f = set_timeout f (some v)
setting (joined two output_flag v) f = some (record f { output = v })
setting (alone two root_flag) f = some (record f { fetch_root = true })
setting (alone two insecure_flag) f = some (record f { insecure = true })
setting (alone two all_flag) f = some (record f { all = true })
setting (alone two version_flag) f = some (record f { show_ver = true })
setting (given two root_flag v) f =
    Option.map (λ b. record f { fetch_root = b }) (parse_bool (some v))
setting (given two insecure_flag v) f =
    Option.map (λ b. record f { insecure = b }) (parse_bool (some v))
setting (given two all_flag v) f = Option.map (λ b. record f { all = b }) (parse_bool (some v))
setting (given two version_flag v) f =
    Option.map (λ b. record f { show_ver = b }) (parse_bool (some v))

unfoldable pub after : Option Flags → List Bytes → Option Flags
after none s = none
after (some f) s = parse_args false f s

parse_args_one :
    (f : Flags) (a : Bytes) (s : List Bytes) (o : Option Flags)
    → parse_arg f a (head? s) ≡ Option.map (λ g. (g, false)) o
    → parse_args false f (a ∷ s) ≡ after o s
unfolding parse_args after
parse_args_one f a s none e = rw (e, parse_args) refl
parse_args_one f a s (some g) e = rw (e, parse_args) refl

parse_args_two :
    (f : Flags) (a v : Bytes) (s : List Bytes) (o : Option Flags)
    → parse_arg f a (some v) ≡ Option.map (λ g. (g, true)) o
    → parse_args false f (a ∷ v ∷ s) ≡ after o s
unfolding parse_args after
parse_args_two f a v s none e = rw (e, parse_args) refl
parse_args_two f a v s (some g) e = rw (e, parse_args) refl

-- One round of the loop on a flag.
apart_lem :
    (two : Bool) (n : ValueName) (v : Bytes) (f : Flags)
    → parse_arg f (dashes two ++ value_name n) (some v)
      ≡ Option.map (λ g. (g, true)) (setting (apart two n v) f)
unfolding setting parse_arg
apart_lem true port_flag v f = refl
apart_lem false port_flag v f = refl
apart_lem _ _ v f = refl

joined_lem :
    (two : Bool) (n : ValueName) (v : Bytes) (f : Flags) (next : Option Bytes)
    → parse_arg f (dashes two ++ value_name n ++ b'=' ∷ v) next
      ≡ Option.map (λ g. (g, false)) (setting (joined two n v) f)
unfolding setting parse_arg
joined_lem true port_flag v f next = refl
joined_lem false port_flag v f next = refl
joined_lem _ _ v f next = refl

alone_lem :
    (two : Bool) (n : BoolName) (f : Flags) (next : Option Bytes)
    → parse_arg f (dashes two ++ bool_name n) next
      ≡ Option.map (λ g. (g, false)) (setting (alone two n) f)
unfolding setting parse_arg
alone_lem true root_flag f next = refl
alone_lem false root_flag f next = refl
alone_lem _ _ f next = refl

given_lem :
    (two : Bool) (n : BoolName) (v : Bytes) (f : Flags) (next : Option Bytes)
    → parse_arg f (dashes two ++ bool_name n ++ b'=' ∷ v) next
      ≡ Option.map (λ g. (g, false)) (setting (given two n v) f)
unfolding setting parse_arg
given_lem true root_flag v f next = refl
given_lem false root_flag v f next = refl
given_lem _ _ v f next = refl

-- The loop on the arguments of an item.
pub parse_args-setting :
    (i : Item) (f : Flags) (s : List Bytes)
    → IsItem i
    → parse_args false f (arguments_of i ++ s) ≡ after (setting i f) s
unfolding setting
parse_args-setting (word a) f s h =
    parse_args_one f a s (some (added f a)) (parse_arg-word f a (head? s) h)
parse_args-setting (apart two n v) f s h =
    parse_args_two f (dashes two ++ value_name n) v s _ (apart_lem two n v f)
parse_args-setting (joined two n v) f s h =
    parse_args_one f (dashes two ++ value_name n ++ b'=' ∷ v) s _ (joined_lem two n v f (head? s))
parse_args-setting (alone two n) f s h =
    parse_args_one f (dashes two ++ bool_name n) s _ (alone_lem two n f (head? s))
parse_args-setting (given two n v) f s h =
    parse_args_one f (dashes two ++ bool_name n ++ b'=' ∷ v) s _ (given_lem two n v f (head? s))
