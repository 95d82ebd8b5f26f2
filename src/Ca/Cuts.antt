-- ===== src/Ca/Cuts.antt =====
-- What strstr and strchr cut from a text with something in front of it.
use mathlib.Core.Option
use tracep.Base.{Option, [], none, refl, some, ℕ, ◌++◌, ◌∷◌, ◌≡◌}
use tracep.Memory.{Bytes}

abbrev pub onto : Bytes → Bytes × Bytes → Bytes × Bytes
onto a r = (a ++ r.0, r.1)

pub map_twice :
    (x : ℕ) (a : Bytes) (o : Option (Bytes × Bytes))
    → Option.map (onto (x ∷ [])) (Option.map (onto a) o) ≡ Option.map (onto (x ∷ a)) o
map_twice x a none = refl
map_twice x a (some r) = refl

pub map_nothing : (o : Option (Bytes × Bytes)) → o ≡ Option.map (onto []) o
map_nothing none = refl
map_nothing (some r) = refl
