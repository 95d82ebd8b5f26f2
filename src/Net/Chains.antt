-- ===== src/Net/Chains.antt =====
-- The chained hash tables of c/net.c over C strings, conndb and dns_cache: str_hash, db_get, db_put and
-- db_delete. A C string is the list of its characters in front of the NUL. The array of buckets is a
-- function of the index, a chain is a list. `Keyed` is what an entry type gives to a table. db_put
-- returns a pointer that its caller writes through, so it takes that write as a function. calloc is
-- taken to succeed.
pub mod Refine
pub mod Maps
use Prim.Native.Nat.{bit_xor}
use tracep.Base.{
  List, Option, [], if◌then◌else◌, none, some, take, ℕ, ◌%◌, ◌*◌, ◌-◌, ◌==◌, ◌^◌, ◌∷◌, ◌≡◌,
}
use tracep.Memory.{Bytes}
use tracep.Text.{same_text}

-- what a table needs of its entries: the key array and its size, calloc with a key, and the number of
-- buckets
pub record Keyed (E : Type 0) : Type 0 where
  pub key : E → Bytes
  pub fresh : Bytes → E
  pub room : ℕ
  pub buckets : ℕ
  -- snprintf cuts a key to the array
  pub key-fresh : (k : Bytes) → key (fresh k) ≡ take (room - 1) k

-- the loop of str_hash
unfoldable pub hash_from : ℕ → Bytes → ℕ
hash_from h [] = h
hash_from h (c ∷ s) = hash_from (bit_xor h c * 16777619 % 2 ^ 32) s

-- str_hash, FNV-1a in 32 bits
unfoldable pub str_hash : Bytes → ℕ
unfolding hash_from
str_hash s = hash_from 2166136261 s

abbrev pub Buckets : Type 0 → Type 0
Buckets E = ℕ → List E

module _ {E : Type 0} (K : Keyed E) where
  -- the loop of db_get
  unfoldable pub find_in : Bytes → List E → Option E
  unfolding same_text
  find_in k [] = none
  find_in k (e ∷ c) = if same_text (K.key e) k then some e else find_in k c

  -- a write through a pointer that db_get returned
  unfoldable pub write_in : Bytes → (E → E) → List E → List E
  unfolding same_text
  write_in k f [] = []
  write_in k f (e ∷ c) =
      let rest = write_in k f c in if same_text (K.key e) k then f e ∷ c else e ∷ rest

  -- the loop of db_delete
  unfoldable pub delete_in : Bytes → List E → List E
  unfolding same_text
  delete_in k [] = []
  delete_in k (e ∷ c) = let rest = delete_in k c in if same_text (K.key e) k then c else e ∷ rest

  -- the two cases of db_put
  unfoldable pub put_in : Bytes → (E → E) → List E → List E
  unfolding find_in write_in
  put_in k f c = elim (find_in k c) [ some e ↦ write_in k f c | none ↦ f (K.fresh k) ∷ c ]

  -- `str_hash(key) % BUCKETS`
  abbrev pub bucket : Bytes → ℕ
  bucket k = str_hash k % K.buckets

  -- a chain put in place of another
  abbrev pub rechain : Buckets E → ℕ → List E → Buckets E
  rechain t b c i = if i == b then c else t i

  unfoldable pub db_get : Buckets E → Bytes → Option E
  unfolding find_in str_hash
  db_get t k = find_in k (t (bucket k))

  unfoldable pub db_write : Buckets E → Bytes → (E → E) → Buckets E
  unfolding write_in str_hash
  db_write t k f = rechain t (bucket k) (write_in k f (t (bucket k)))

  unfoldable pub db_put : Buckets E → Bytes → (E → E) → Buckets E
  unfolding put_in str_hash
  db_put t k f = rechain t (bucket k) (put_in k f (t (bucket k)))

  unfoldable pub db_delete : Buckets E → Bytes → Buckets E
  unfolding delete_in str_hash
  db_delete t k = rechain t (bucket k) (delete_in k (t (bucket k)))
