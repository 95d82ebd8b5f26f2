-- ===== src/Memory.antt =====
-- Buffers read through pointers: an access past the end of its buffer is a fault, and a loop without
-- a bound of its own gets a number of rounds. Also the byte order helpers, be16 of c/dns.c, le32 and
-- le64 of c/exec.c, and the C strings that snprintf copies.
use tracep.Base.{
  List, [], arith, get_elem?, get_elem?_within, if◌then◌else◌, length, none, refl, some, take, ℕ,
  ◌%◌, ◌*◌, ◌+◌, ◌-◌, ◌<◌, ◌==◌, ◌^◌, ◌∷◌, ◌≡◌, ◌≢◌, ◌≤◌,
}

abbrev pub Bytes : Type 0
Bytes = List ℕ

pub data Outcome {ℓ} (A : Type ℓ) : Type ℓ where
  ok : A → Outcome A
  -- an access outside the buffer, which C leaves undefined
  fault : Outcome A
  -- the loop is still running after the rounds that it was given
  spin : Outcome A

infixl 5 ◌>>=◌
abbrev pub ◌>>=◌ {ℓ κ} : {A : Type ℓ} {B : Type κ} → Outcome A → (A → Outcome B) → Outcome B
ok a >>= f = f a
fault >>= f = fault
spin >>= f = spin

-- the byte at offset `i` of the buffer
unfoldable pub load : Bytes → ℕ → Outcome ℕ
load d i = elim (get_elem? d i) [ none ↦ fault | some b ↦ ok b ]

-- `be16(d + i)`
unfoldable pub be16 : Bytes → ℕ → Outcome ℕ
unfolding load
be16 d i = do hi ← load d i; lo ← load d (i + 1); ok ((hi * 256 + lo) % 2 ^ 16)

-- `le32(d + i)`
unfoldable pub le32 : Bytes → ℕ → Outcome ℕ
unfolding load
le32 d i = do
  b0 ← load d i
  b1 ← load d (i + 1)
  b2 ← load d (i + 2)
  b3 ← load d (i + 3)
  ok ((b0 + b1 * 2 ^ 8 + b2 * 2 ^ 16 + b3 * 2 ^ 24) % 2 ^ 32)

-- `le64(d + i)`
unfoldable pub le64 : Bytes → ℕ → Outcome ℕ
unfolding le32
le64 d i = do lo ← le32 d i; hi ← le32 d (i + 4); ok (lo + hi * 2 ^ 32)

-- the characters in front of the first NUL, which is what C reads of a char array
unfoldable pub cstr : Bytes → Bytes
cstr [] = []
cstr (c ∷ s) = if c == 0 then [] else c ∷ cstr s

-- `snprintf(b, size, "%s", s)`
unfoldable pub print_s : ℕ → Bytes → Bytes
unfolding cstr
print_s size s = take (size - 1) (cstr s)

-- The run makes no read outside its buffers, and what it returns satisfies `P`; `E` says what a run
-- that has not ended may assume.
abbrev pub Within {ℓ} : {A : Type ℓ} → Type 0 → (A → Type 0) → Outcome A → Type 0
Within E P (ok a) = P a
Within E P fault = ⊥
Within E P spin = E

-- The run may be left spinning.
abbrev pub Safe {ℓ} : {A : Type ℓ} → (A → Type 0) → Outcome A → Type 0
Safe = Within Unit

-- The run ends.
abbrev pub Returns {ℓ} : {A : Type ℓ} → (A → Type 0) → Outcome A → Type 0
Returns = Within ⊥

pub Within-bind {ℓ κ} :
    {A : Type ℓ} {B : Type κ} (E : Type 0) (P : A → Type 0) (Q : B → Type 0) (m : Outcome A)
    (f : A → Outcome B)
    → Within E P m
    → ((a : A) → P a → Within E Q (f a))
    → Within E Q (m >>= f)
Within-bind E P Q (ok a) f s next = next a s
Within-bind E P Q fault f s next = elim s [ ]
Within-bind E P Q spin f s next = s

pub Within-map {ℓ} :
    {A : Type ℓ} (P Q : A → Type 0) (m : Outcome A)
    → ((a : A) → P a → Q a)
    → Returns P m
    → Returns Q m
Within-map P Q (ok a) f s = f a s
Within-map P Q fault f s = elim s [ ]
Within-map P Q spin f s = elim s [ ]

pub Within-of_Returns {ℓ} :
    {A : Type ℓ} (E : Type 0) (P : A → Type 0) (m : Outcome A) → Returns P m → Within E P m
Within-of_Returns E P (ok a) s = s
Within-of_Returns E P fault s = elim s [ ]
Within-of_Returns E P spin s = elim s [ ]

pub Returns-of_Safe {ℓ} :
    {A : Type ℓ} (P : A → Type 0) (m : Outcome A)
    → Safe P m
    → Returns (λ _. Unit {0}) m
    → Returns P m
Returns-of_Safe P (ok a) s r = s
Returns-of_Safe P fault s r = elim s [ ]
Returns-of_Safe P spin s r = elim r [ ]

pub bind-congr {ℓ κ} :
    {A : Type ℓ} {B : Type κ} (m : Outcome A) (f g : A → Outcome B)
    → ((a : A) → m ≡ ok a → f a ≡ g a)
    → (m >>= f) ≡ (m >>= g)
bind-congr (ok a) f g same = same a refl
bind-congr fault f g same = refl
bind-congr spin f g same = refl

-- A run that does not spin has a first part that does not, and goes on in the same way.
pub bind-ne-spin {ℓ κ μ} :
    {A : Type ℓ} {B : Type κ} {C : Type μ} (m : Outcome A) (f : A → Outcome B)
    → (m ≡ fault → C)
    → ((a : A) → m ≡ ok a → f a ≢ spin → C)
    → (m >>= f) ≢ spin
    → C
bind-ne-spin (ok a) f faults goes ne = goes a refl ne
bind-ne-spin fault f faults goes ne = faults refl
bind-ne-spin spin f faults goes ne = absurd (ne refl)

-- A number that a wire format keeps in two bytes is below 2 ^ 16.
pub be16_within : (d : Bytes) (i : ℕ) → i + 2 ≤ length d → Returns (λ v. v < 2 ^ 16) (be16 d i)
unfolding be16
be16_within d i h = ground (arith, get_elem?_within d i, get_elem?_within d (i + 1))

pub load_within : (d : Bytes) (i : ℕ) → i < length d → Returns (λ _. Unit {0}) (load d i)
unfolding load
load_within d i h = ground (arith, get_elem?_within d i)

pub Returns-ok {ℓ} :
    {A : Type ℓ} (P : A → Type 0) (m : Outcome A) → Returns P m → (a : A) × (m ≡ ok a) × P a
Returns-ok P (ok a) s = (a, refl, s)
Returns-ok P fault s = elim s [ ]
Returns-ok P spin s = elim s [ ]
