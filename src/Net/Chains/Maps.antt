-- ===== src/Net/Chains/Maps.antt =====
-- The chained tables of c/net.c against a map from keys to entries: every run of gets, puts and
-- deletes has the answers of the map.
use mathlib.Core.Path.{ap₂}
use tracep.Base.{
  ==_iff, All, Bool-cases, List, Option, [], ap, if◌then◌else◌, inl, inr, length, none, refl, some,
  sym, ℕ, ◌-◌, ◌==◌, ◌∙◌, ◌∷◌, ◌≡◌, ◌≢◌, ◌≤◌,
}
use tracep.Memory.{Bytes}
use tracep.Net.Chains.{Buckets, Keyed, bucket, db_delete, db_get, db_put, find_in, rechain}
use tracep.Net.Chains.Refine.{
  Distinct, KeepsKey, Text-cases, delete_in-Distinct, find_in-delete_in_ne, find_in-delete_in_self,
  find_in-put_in_ne, find_in-put_in_self, put_in-Distinct,
}
use tracep.Text.{same_text}

-- What a caller does with a table; a put writes through the pointer that it is given.
pub data Command (E : Type 0) : Type 0 where
  get_one : Bytes → Command E
  put_one : Bytes → (E → E) → Command E
  delete_one : Bytes → Command E

-- A map, and what a put and a delete mean.
abbrev pub KeyMap : Type 0 → Type 0
KeyMap E = Bytes → Option E

module _ {E : Type 0} (K : Keyed E) where
  abbrev pub map_put : KeyMap E → Bytes → (E → E) → KeyMap E
  map_put m k f j =
      if same_text k j then some (f (elim (m k) [ none ↦ K.fresh k | some e ↦ e ])) else m j

  abbrev pub map_delete : KeyMap E → Bytes → KeyMap E
  map_delete m k j = if same_text k j then none else m j

  -- the answers of the gets
  unfoldable pub table_answers : Buckets E → List (Command E) → List (Option E)
  unfolding db_get db_put db_delete
  table_answers t [] = []
  table_answers t (get_one k ∷ cs) = db_get K t k ∷ table_answers t cs
  table_answers t (put_one k f ∷ cs) = table_answers (db_put K t k f) cs
  table_answers t (delete_one k ∷ cs) = table_answers (db_delete K t k) cs

  unfoldable pub map_answers : KeyMap E → List (Command E) → List (Option E)
  map_answers m [] = []
  map_answers m (get_one k ∷ cs) = m k ∷ map_answers m cs
  map_answers m (put_one k f ∷ cs) = map_answers (map_put m k f) cs
  map_answers m (delete_one k ∷ cs) = map_answers (map_delete m k) cs

  -- A put has a key that fits the array, and leaves it in the entry.
  abbrev pub IsProper : Command E → Type 0
  IsProper (get_one k) = Unit
  IsProper (put_one k f) = (length k ≤ K.room - 1) × KeepsKey K f
  IsProper (delete_one k) = Unit

  -- The table stands for the map.
  pub record StandsFor (t : Buckets E) (m : KeyMap E) : Type 0 where
    pub distinct : (i : ℕ) → Distinct K (t i)
    pub agrees : (k : Bytes) → db_get K t k ≡ m k

  pub rechain-Distinct :
      (t : Buckets E) (b : ℕ) (c : List E)
      → ((i : ℕ) → Distinct K (t i))
      → Distinct K c
      → (i : ℕ) → Distinct K (rechain K t b c i)
  rechain-Distinct t b c h new i = elim (Bool-cases (i == b)) [
    | inl here ↦ rw here new
    | inr on ↦ rw on (h i)
  ]

  -- A get behind the change of a chain, if the change has no say in the key.
  db_get-rechain :
      (t : Buckets E) (k : Bytes) (c : List E) (j : Bytes)
      → find_in K j c ≡ find_in K j (t (bucket K k))
      → db_get K (rechain K t (bucket K k) c) j ≡ db_get K t j
  unfolding db_get
  db_get-rechain t k c j same = elim (Bool-cases (bucket K j == bucket K k)) [
    | inl here ↦ rw here (same ∙ ap (λ b. find_in K j (t b)) (sym ((==_iff _ _).0 here)))
    | inr on ↦ rw on refl
  ]

  -- the two cases of a get behind a put
  pub db_get-db_put_self :
      (t : Buckets E) (k : Bytes) (f : E → E)
      → length k ≤ K.room - 1
      → KeepsKey K f
      → db_get K (db_put K t k f) k
        ≡ some (f (elim (db_get K t k) [ none ↦ K.fresh k | some e ↦ e ]))
  unfolding db_get db_put
  db_get-db_put_self t k f fits keeps =
      rw ((==_iff (bucket K k) (bucket K k)).1 refl)
        (find_in-put_in_self K k fits f keeps (t (bucket K k)))

  pub db_get-db_put_ne :
      (t : Buckets E) (k j : Bytes) (f : E → E)
      → length k ≤ K.room - 1
      → KeepsKey K f
      → k ≢ j
      → db_get K (db_put K t k f) j ≡ db_get K t j
  unfolding db_put
  db_get-db_put_ne t k j f fits keeps ne =
      db_get-rechain t k _ j (find_in-put_in_ne K k fits f keeps j _ ne)

  pub db_get-db_delete_ne :
      (t : Buckets E) (k j : Bytes) → k ≢ j → db_get K (db_delete K t k) j ≡ db_get K t j
  unfolding db_delete
  db_get-db_delete_ne t k j ne = db_get-rechain t k _ j (find_in-delete_in_ne K k j _ ne)

  module _ {t : Buckets E} {m : KeyMap E} (s : StandsFor t m) (k : Bytes) where
    db_put-StandsFor :
        (f : E → E)
        → length k ≤ K.room - 1
        → KeepsKey K f
        → StandsFor (db_put K t k f) (map_put m k f)
    unfolding db_put
    db_put-StandsFor f fits keeps = record {
      distinct =
          rechain-Distinct t (bucket K k) _ s.distinct
            (put_in-Distinct K k fits f keeps _ (s.distinct (bucket K k)));
      agrees = λ j. elim (Text-cases k j) [
        | inl (e, same) ↦
            rw (e, ← same) (db_get-db_put_self t k f fits keeps ∙ rw (s.agrees k) refl)
        | inr (e, ne) ↦
            rw e (db_get-rechain t k _ j (find_in-put_in_ne K k fits f keeps j _ ne) ∙ s.agrees j)
      ];
    }

    db_delete-StandsFor : StandsFor (db_delete K t k) (map_delete m k)
    unfolding db_delete
    db_delete-StandsFor = record {
      distinct =
          rechain-Distinct t (bucket K k) _ s.distinct
            (delete_in-Distinct K k _ (s.distinct (bucket K k)));
      agrees = λ j. elim (Text-cases k j) [
        | inl (e, same) ↦
            rw (e, ← same)
              (unfold db_get in
                rw ((==_iff (bucket K k) (bucket K k)).1 refl)
                  (find_in-delete_in_self K k (t (bucket K k)) (s.distinct (bucket K k))))
        | inr (e, ne) ↦ rw e (db_get-rechain t k _ j (find_in-delete_in_ne K k j _ ne) ∙ s.agrees j)
      ];
    }

  answers_from :
      (cs : List (Command E)) (t : Buckets E) (m : KeyMap E)
      → StandsFor t m
      → All IsProper cs
      → table_answers t cs ≡ map_answers m cs
  unfolding table_answers map_answers
  answers_from [] t m s ok_all = refl
  answers_from (get_one k ∷ cs) t m s (_, rest) = ap₂ ◌∷◌ (s.agrees k) (answers_from cs t m s rest)
  answers_from (put_one k f ∷ cs) t m s ((fits, keeps), rest) =
      answers_from cs _ _ (db_put-StandsFor s k f fits keeps) rest
  answers_from (delete_one k ∷ cs) t m s (_, rest) =
      answers_from cs _ _ (db_delete-StandsFor s k) rest

  -- Any run of gets, puts and deletes, where each put has a key that fits the array of an entry and
  -- leaves the key alone, has on the chained table the answers that it has on a map from keys to
  -- entries, both empty at first.
  pub table_answers-eq-map_answers :
      (cs : List (Command E))
      → All IsProper cs
      → table_answers (λ i. []) cs ≡ map_answers (λ k. none) cs
  unfolding db_get find_in
  table_answers-eq-map_answers cs ok_all =
      answers_from cs _ _ (record { distinct = λ i. tt; agrees = λ k. refl }) ok_all
