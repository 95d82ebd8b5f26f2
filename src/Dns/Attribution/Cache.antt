-- ===== src/Dns/Attribution/Cache.antt =====
-- proc_lookup of c/dns.c: the entries of its cache and their age.
use tracep.Base.{
  All, Bool-cases, Option, [], arith, inl, inr, length-take, ltb, refl, suc, take, take_all, true,
  zero, ℕ, ◌+◌, ◌-◌, ◌<◌, ◌==◌, ◌∷◌, ◌≡◌, ◌≢◌,
}
use tracep.Dns.Attribution.{CacheEnt, cache_ttl, look_up, proc_lookup}
use tracep.Dns.Message.Query.{cstr-no_nul}
use tracep.Memory.{Bytes, cstr, print_s}

cstr-no_zero : (s : Bytes) → All (λ c. c ≢ 0) (cstr s)
unfolding cstr
cstr-no_zero [] = tt
cstr-no_zero (c ∷ s) = elim (Bool-cases (c == 0)) [
  | inl nul ↦ rw (nul, cstr) tt
  | inr other ↦ rw (other, cstr) (ground arith, cstr-no_zero s)
]

take-All : (n : ℕ) (s : Bytes) → All (λ c. c ≢ 0) s → All (λ c. c ≢ 0) (take n s)
take-All zero s h = tt
take-All (suc n) [] h = tt
take-All (suc n) (c ∷ s) h = (h.0, take-All n s h.1)

print_s_twice : (s : Bytes) → print_s 64 (print_s 64 s) ≡ print_s 64 s
unfolding print_s
print_s_twice s =
    let clean = cstr-no_nul (take 63 (cstr s)) (take-All 63 (cstr s) (cstr-no_zero s)) in
    rw clean (take_all 63 (take 63 (cstr s)) (omega (arith, length-take 63 (cstr s))))

-- A lookup of a port within two seconds after one that went to the system gives its pid and its
-- name, whoever owns the port by then, and leaves the cache as it was.
pub proc_lookup-look_up :
    (owner later_owner : ℕ → ℕ × Bytes) (cache : ℕ → Option CacheEnt) (port now later : ℕ)
    → later < now + cache_ttl
    → proc_lookup later_owner (look_up owner cache port now).0 port later
      ≡ look_up owner cache port now
unfolding proc_lookup look_up
proc_lookup-look_up owner later_owner cache port now later soon =
    let same : (port == port) ≡ true = ground arith in
    let young : ltb (later - now) cache_ttl ≡ true = ground arith in
    rw (same, proc_lookup, young, print_s_twice (owner port).1) refl
