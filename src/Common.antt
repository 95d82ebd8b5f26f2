-- ===== src/Common.antt =====
-- c/common.c: the colour test, the rotating pool of buffers, clr and shquote. A pointer into the pool
-- is the number of its slot. `int slot` is taken not to overflow, which needs 2 ^ 31 calls.
pub mod Rotation
pub mod Quoting
use Prim.Native.Char.{code}
use tracep.Base.{
  Bool, [], false, if◌then◌else◌, leb, length, ltb, not, take, true, ℕ, ◌%◌, ◌&&◌, ◌++◌, ◌+◌, ◌-◌,
  ◌==◌, ◌||◌, ◌∷◌,
}
use tracep.Memory.{Bytes, cstr}
use tracep.Text.{codes}

-- POOL_N and POOL_SZ
abbrev pub pool_n : ℕ
pool_n = 16

abbrev pub pool_sz : ℕ
pool_sz = 1024

-- `static char pool[POOL_N][POOL_SZ]` and `static int slot`
pub record Pool : Type 0 where
  pub slots : ℕ → Bytes
  pub slot : ℕ

-- `pool[slot++ % POOL_N]`, filled
unfoldable pub fill : Pool → Bytes → Pool × ℕ
fill p text =
    let b = p.slot % pool_n in
    (record { slots = λ i. if i == b then text else p.slots i; slot = p.slot + 1 }, b)

-- is_terminal, where `device` says whether fstat works and the stream is a character device
abbrev pub want_color : Bool → Bool → Bool → Bool
want_color force terminal no_color = if force then true else terminal && not no_color

-- the escape sequence, "\033[<code>m<s>\033[0m"
unfoldable pub painted : Bytes → Bytes → Bytes
unfolding cstr
painted code s =
    take (pool_sz - 1) (27 ∷ b'[' ∷ (code ++ (b'm' ∷ (cstr s ++ (27 ∷ b'[' ∷ b'0' ∷ b'm' ∷ [])))))

-- What clr returns: `s` itself, or a slot of the pool.
pub data Text : Type 0 where
  own : Bytes → Text
  pooled : ℕ → Text

pub clr : Pool → Bool → Bytes → Bytes → Pool × Text
unfolding fill painted
clr p on code [] = (p, own [])
clr p on code (c ∷ s) =
    if not on || c == 0
    then (p, own (c ∷ s))
    else (let (p', b) = fill p (painted code (c ∷ s)) in (p', pooled b))

-- The characters that a call leaves for its caller to print, as long as the slot is not used again.
unfoldable pub clr_text : Bool → Bytes → Bytes → Bytes
unfolding cstr painted
clr_text on code s = if on && not (length (cstr s) == 0) then painted code s else cstr s

-- the second argument of strchr: "`^#*[]=|\\?${}()'\"<>&;\x7f"
abbrev pub metacharacters : Bytes
metacharacters = codes "`^#*[]=|\\?${}()'\"<>&;" ++ 127 ∷ []

pub mem_byte : ℕ → Bytes → Bool
mem_byte c [] = false
mem_byte c (x ∷ s) = c == x || mem_byte c s

-- `*p <= ' ' || strchr(…, *p)`
unfoldable pub is_unsafe : ℕ → Bool
unfolding mem_byte
is_unsafe c = leb c b' ' || mem_byte c metacharacters

pub all_safe : Bytes → Bool
unfolding is_unsafe
all_safe [] = true
all_safe (c ∷ s) = not (is_unsafe c) && all_safe s

-- what the loop appends for one character
unfoldable pub quote_byte : ℕ → Bytes
quote_byte c = if c == b'\'' then codes "'\\''" else if c == b'\n' then codes "'$'\\n''" else c ∷ []

-- `for (p = s; *p && w < POOL_SZ - 8; p++)`, with what is written so far
pub quote_onto : Bytes → Bytes → Bytes
unfolding quote_byte
quote_onto b [] = b
quote_onto b (c ∷ s) = elim (ltb (length b) (pool_sz - 8)) [
  | true ↦ quote_onto (b ++ quote_byte c) s
  | false ↦ b
]

-- `if (w < POOL_SZ - 1) b[w++] = '\''`
pub close_quote : Bytes → Bytes
close_quote b = if ltb (length b) (pool_sz - 1) then b ++ b'\'' ∷ [] else b

unfoldable pub quoted : Bytes → Bytes
unfolding all_safe quote_onto close_quote
quoted [] = codes "''"
quoted (c ∷ s) =
    if all_safe (c ∷ s)
    then take (pool_sz - 1) (c ∷ s)
    else close_quote (quote_onto (b'\'' ∷ []) (c ∷ s))

-- shquote of a C string, into the pool of its own
pub shquote : Pool → Bytes → Pool × ℕ
unfolding fill quoted cstr
shquote p s = fill p (quoted (cstr s))
