-- ===== src/Net/Reverse/Once.antt =====
-- async_reverse_lookup of c/net.c over any run of lookups and of ends of workers.
use tracep.Base.{
  All, Bool, Bool-cases, List, Option, Option-cases, [], arith, false, if◌then◌else◌, inl, inr,
  length, none, not, refl, some, true, ℕ, ◌&&◌, ◌+◌, ◌||◌, ◌∙◌, ◌∷◌, ◌≡◌, ◌≢◌, ◌≤◌,
}
use tracep.Memory.{Bytes}
use tracep.Net.Chains.{db_get, db_put, find_in}
use tracep.Net.Chains.Maps.{db_get-db_put_ne, db_get-db_put_self}
use tracep.Net.Chains.Refine.{Text-cases}
use tracep.Net.Reverse.{
  DnsEnt, NameStep, Names, answered, async_reverse_lookup, dns_keyed, dns_worker, host_of, launch,
  name_entry, sought, starts_for,
}
use tracep.Text.{same_text}

-- The address is looked up in the run.
unfoldable pub is_asked : Bytes → List NameStep → Bool
unfolding same_text
is_asked ip [] = false
is_asked ip (sought j ∷ steps) = same_text j ip || is_asked ip steps
is_asked ip (answered j found ∷ steps) = is_asked ip steps

-- The text fits the array of an entry, as any address does.
abbrev pub Fits : NameStep → Type 0
Fits (sought j) = length j ≤ 45
Fits (answered j found) = length j ≤ 45

-- A worker was started for the address.
abbrev is_launched : Option DnsEnt → Bool
is_launched none = false
is_launched (some e) = e.launched

module _ (names : Names) (j : Bytes) (fits : length j ≤ 45) where
  launch_self : is_launched (db_get dns_keyed (db_put dns_keyed names j launch) j) ≡ true
  launch_self = rw (db_get-db_put_self dns_keyed names j launch fits (λ e. refl)) refl

  launch_ne :
      (ip : Bytes)
      → j ≢ ip
      → is_launched (db_get dns_keyed (db_put dns_keyed names j launch) ip)
        ≡ is_launched (db_get dns_keyed names ip)
  launch_ne ip ne = rw (db_get-db_put_ne dns_keyed names j ip launch fits (λ e. refl) ne) refl

  -- A lookup starts a worker if none was started for the address, and marks that.
  lookup_self :
      ((async_reverse_lookup names j).starts ≡ not (is_launched (db_get dns_keyed names j)))
      × (is_launched (db_get dns_keyed (async_reverse_lookup names j).names j) ≡ true)
  unfolding async_reverse_lookup
  lookup_self = elim (Option-cases (db_get dns_keyed names j)) [
    | inl new ↦ rw (new, async_reverse_lookup) (refl, launch_self)
    | inr (e, old) ↦ elim (Bool-cases e.launched) [
      | inl started ↦ rw (old, async_reverse_lookup, started) (refl, rw (old, started) refl)
      | inr fresh_one ↦ rw (old, async_reverse_lookup, fresh_one) (refl, launch_self)
    ]
  ]

  lookup_ne :
      (ip : Bytes)
      → j ≢ ip
      → is_launched (db_get dns_keyed (async_reverse_lookup names j).names ip)
        ≡ is_launched (db_get dns_keyed names ip)
  unfolding async_reverse_lookup
  lookup_ne ip ne = elim (Option-cases (db_get dns_keyed names j)) [
    | inl new ↦ rw (new, async_reverse_lookup) (launch_ne ip ne)
    | inr (e, old) ↦ elim (Bool-cases e.launched) [
      | inl started ↦ rw (old, async_reverse_lookup, started) refl
      | inr fresh_one ↦ rw (old, async_reverse_lookup, fresh_one) (launch_ne ip ne)
    ]
  ]

  -- The end of a worker leaves the marks.
  dns_worker_marks :
      (found ip : Bytes)
      → is_launched (db_get dns_keyed (dns_worker names j found) ip)
        ≡ is_launched (db_get dns_keyed names ip)
  unfolding dns_worker
  dns_worker_marks found ip = elim (Text-cases j ip) [
    | inr (t, ne) ↦
        rw (db_get-db_put_ne dns_keyed names j ip (name_entry (host_of found)) fits (λ e. refl) ne)
          refl
    | inl (t, same) ↦
        rw
          (
            ← same,
            db_get-db_put_self dns_keyed names j (name_entry (host_of found)) fits (λ e. refl),
          )
          (elim (Option-cases (db_get dns_keyed names j)) [
            | inl new ↦ rw new refl
            | inr (e, old) ↦ rw old refl
          ])
  ]

none_counted : (s : Bool) (n : ℕ) → (if s && false then 1 else 0) + n ≡ n
none_counted true n = omega arith
none_counted false n = omega arith

once_counted :
    (l more : Bool)
    → (if not l && true then 1 else 0) + (if more && not true then 1 else 0)
      ≡ (if not l then 1 else 0)
once_counted l more = ground arith

all_counted : (b : Bool) → ◌≡◌ {A = ℕ} (if b && true then 1 else 0) (if b then 1 else 0)
all_counted b = ground arith

module _ (ip : Bytes) where
  starts_from :
      (names : Names) (steps : List NameStep)
      → All Fits steps
      → starts_for ip names steps
        ≡ (if is_asked ip steps && not (is_launched (db_get dns_keyed names ip)) then 1 else 0)
  unfolding starts_for is_asked
  starts_from names [] h = refl
  starts_from names (answered j found ∷ steps) (fits, h) =
      starts_from (dns_worker names j found) steps h
      ∙ rw (dns_worker_marks names j fits found ip) refl
  starts_from names (sought j ∷ steps) (fits, h) =
      let rest = starts_from (async_reverse_lookup names j).names steps h in
      elim (Text-cases j ip) [
        | inr (t, ne) ↦
            rw (t, rest, lookup_ne names j fits ip ne)
              (none_counted (async_reverse_lookup names j).starts _)
        | inl (t, same) ↦
            let (starts, marked) = lookup_self names j fits in
            rw (t, rest, ← same, starts, marked)
              (once_counted (is_launched (db_get dns_keyed names j)) (is_asked j steps))
      ]

-- In any run of lookups of addresses that fit their array, and of ends of workers at any time, a
-- worker is started once for an address that is looked up, and never for another.
pub starts_for-is_asked :
    (ip : Bytes) (steps : List NameStep)
    → All Fits steps
    → starts_for ip (λ i. []) steps ≡ (if is_asked ip steps then 1 else 0)
unfolding db_get find_in
starts_for-is_asked ip steps h = starts_from ip (λ i. []) steps h ∙ all_counted (is_asked ip steps)
