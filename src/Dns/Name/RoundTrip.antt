-- ===== src/Dns/Name/RoundTrip.antt =====
-- read_name of c/dns.c against an encoder, which writes a length byte in front of each label.
use mathlib.Core.List.{append-nil, append_assoc}
use tracep.Base.{
  All, List, Option, [], ap, arith, get_elem?, length, length-append, lt→ltb, none, refl, some, suc,
  sym, zero, ℕ, ◌++◌, ◌+◌, ◌-◌, ◌<◌, ◌∙◌, ◌∷◌, ◌≡◌, ◌≤◌,
}
use tracep.Dns.Name.{copy, dotted, finish, hop, label, put_label, read_loop, read_name}
use tracep.Memory.{Bytes, load, ok, ◌>>=◌}

unfoldable pub wire : List Bytes → Bytes
wire [] = 0 ∷ []
wire (l ∷ ls) = length l ∷ (l ++ wire ls)

-- the labels behind the first one, as they stand in a domain name
tail_text : List Bytes → Bytes
tail_text [] = []
tail_text (l ∷ ls) = b'.' ∷ (l ++ tail_text ls)

unfoldable pub domain : List Bytes → Bytes
unfolding tail_text
domain [] = []
domain (l ∷ ls) = l ++ tail_text ls

-- A label is not empty, and its length byte has the two top bits clear.
abbrev pub IsLabel : Bytes → Type 0
IsLabel l = (0 < length l) × (length l < 64)

-- `rest` stands in the buffer at `off`.
abbrev pub StandsAt : Bytes → ℕ → Bytes → Type 0
StandsAt d off rest = (pre : Bytes) × (d ≡ pre ++ rest) × (length pre ≡ off)

get_elem?-append : (pre rest : Bytes) (x : ℕ) → get_elem? (pre ++ x ∷ rest) (length pre) ≡ some x
get_elem?-append [] rest x = refl
get_elem?-append (y ∷ pre) rest x = get_elem?-append pre rest x

pub StandsAt-head :
    (d : Bytes) (off x : ℕ) (rest : Bytes) → StandsAt d off (x ∷ rest) → get_elem? d off ≡ some x
StandsAt-head d off x rest (pre, e, o) = rw (e, ← o) (get_elem?-append pre rest x)

pub StandsAt-tail :
    (d : Bytes) (off x : ℕ) (rest : Bytes) → StandsAt d off (x ∷ rest) → StandsAt d (off + 1) rest
StandsAt-tail d off x rest (pre, e, o) = (
  pre ++ x ∷ [],
  e ∙ sym (append_assoc pre (x ∷ []) rest),
  omega (arith, length-append pre (x ∷ [])),
)

pub StandsAt-drop :
    (d : Bytes) (off : ℕ) (l rest : Bytes)
    → StandsAt d off (l ++ rest)
    → StandsAt d (off + length l) rest
StandsAt-drop d off l rest (pre, e, o) =
    (pre ++ l, e ∙ sym (append_assoc pre l rest), omega (arith, length-append pre l))

pub StandsAt-le :
    (d : Bytes) (off : ℕ) (rest : Bytes) → StandsAt d off rest → off + length rest ≤ length d
StandsAt-le d off rest (pre, e, o) = rw e (omega (arith, length-append pre rest))

copy-StandsAt :
    (l rest d : Bytes) (off size : ℕ) (w : Bytes)
    → StandsAt d off (l ++ rest)
    → length w + length l ≤ size - 1
    → copy (length l) d off size w ≡ ok (w ++ l)
unfolding copy
copy-StandsAt [] rest d off size w s fits = rw append-nil
copy-StandsAt (c ∷ l) rest d off size w s fits =
    rw (lt→ltb (length w) (size - 1) (omega arith), StandsAt-head d off c (l ++ rest) s, copy, load)
      (copy-StandsAt l rest d (off + 1) size (w ++ c ∷ []) (StandsAt-tail d off c (l ++ rest) s)
          (omega (arith, length-append w (c ∷ [])))
        ∙ ap ok (append_assoc w (c ∷ []) l))

hop_label :
    (d : Bytes) (off l : ℕ)
    → get_elem? d off ≡ some l
    → 0 < l
    → l < 64
    → off + 1 + l ≤ length d
    → hop d (length d) off ≡ ok (label l)
unfolding hop
hop_label d off l e pos lt inside = ground arith

hop_finish :
    (d : Bytes) (off : ℕ)
    → get_elem? d off ≡ some 0
    → off < length d
    → hop d (length d) off ≡ ok finish
unfolding hop
hop_finish d off e lt = ground arith

-- One label in front of what is still to be read.
read_label :
    (d : Bytes) (size rounds off : ℕ) (orig : Option ℕ) (w l rest : Bytes)
    → StandsAt d off (length l ∷ (l ++ rest))
    → IsLabel l
    → length (dotted size w) + length l ≤ size - 1
    → (read_loop (suc rounds) d (length d) size off orig (some w)
        ≡ read_loop rounds d (length d) size (off + 1 + length l) orig (some (dotted size w ++ l)))
      × StandsAt d (off + 1 + length l) rest
unfolding read_loop put_label
read_label d size rounds off orig w l rest s (pos, lt) fits =
    let s' = StandsAt-tail d off (length l) (l ++ rest) s in
    let le = StandsAt-le d (off + 1) (l ++ rest) s' in
    let h =
      hop_label d off (length l) (StandsAt-head d off (length l) (l ++ rest) s) pos lt
        (omega (arith, length-append l rest)) in
    (
      rw (h, ◌>>=◌, copy-StandsAt l rest d (off + 1) size (dotted size w) s' fits),
      StandsAt-drop d (off + 1) l rest s',
    )

dotted_ne :
    (size : ℕ) (w : Bytes) → 0 < length w → length w < size - 1 → dotted size w ≡ w ++ b'.' ∷ []
unfolding dotted
dotted_ne size w pos lt = ground arith

read_end :
    (d : Bytes) (size rounds off : ℕ) (rest : Bytes) (dst : Option Bytes)
    → StandsAt d off (0 ∷ rest)
    → read_loop (suc rounds) d (length d) size off none dst ≡ ok (some (off + 1, dst))
unfolding read_loop
read_end d size rounds off rest dst s =
    let le = StandsAt-le d off (0 ∷ rest) s in
    rw (hop_finish d off (StandsAt-head d off 0 rest s) (omega arith), ◌>>=◌)

dotted_text : (w l t : Bytes) → ((w ++ b'.' ∷ []) ++ l) ++ t ≡ w ++ b'.' ∷ (l ++ t)
dotted_text w l t = simp append_assoc

module _ (d post : Bytes) (size : ℕ) where
  read_tail :
      (ls : List Bytes) (rounds off : ℕ) (w : Bytes)
      → StandsAt d off (wire ls ++ post)
      → All IsLabel ls
      → 0 < length w
      → length (w ++ tail_text ls) ≤ size - 1
      → length ls < rounds
      → read_loop rounds d (length d) size off none (some w)
        ≡ ok (some (off + length (wire ls), some (w ++ tail_text ls)))
  unfolding wire tail_text
  read_tail ls zero off w s labels pos fits lt = elim lt [ ]
  read_tail [] (suc rounds) off w s labels pos fits lt =
      rw append-nil (read_end d size rounds off post (some w) s)
  read_tail (l ∷ ls) (suc rounds) off w s labels pos fits lt =
      let long = length-append w (b'.' ∷ (l ++ tail_text ls)) in
      let long' = length-append l (tail_text ls) in
      let s' : StandsAt d off (length l ∷ (l ++ (wire ls ++ post))) = rw append_assoc at s in
      let dot = dotted_ne size w pos (omega arith) in
      let text = ap (λ v. (v ++ l) ++ tail_text ls) dot ∙ dotted_text w l (tail_text ls) in
      let long'' = length-append w (b'.' ∷ []) in
      let fits' : length (dotted size w) + length l ≤ size - 1 = rw dot (omega arith) in
      let place : off + 1 + length l + length (wire ls) ≡ off + length (wire (l ∷ ls)) =
        omega (arith, length-append l (wire ls)) in
      let (step, rest) =
        read_label d size rounds off none w l (wire ls ++ post) s' labels.0 fits' in
      step
      ∙ read_tail ls rounds (off + 1 + length l) (dotted size w ++ l) rest labels.1
          (omega (arith, length-append (dotted size w) l, labels.0.0)) (rw text fits) (omega arith)
      ∙ cc (text, place)

pub length-le-wire : (ls : List Bytes) → length ls < length (wire ls)
unfolding wire
length-le-wire [] = omega arith
length-le-wire (l ∷ ls) = omega (arith, length-le-wire ls, length-append l (wire ls))

dotted_nil : (size : ℕ) → dotted size [] ≡ []
unfolding dotted
dotted_nil size = refl

pub read_domain :
    (ls : List Bytes) (d post : Bytes) (size rounds off : ℕ)
    → StandsAt d off (wire ls ++ post)
    → All IsLabel ls
    → length (domain ls) ≤ size - 1
    → length ls < rounds
    → read_loop rounds d (length d) size off none (some [])
      ≡ ok (some (off + length (wire ls), some (domain ls)))
unfolding wire domain
read_domain ls d post size zero off s labels fits lt = elim lt [ ]
read_domain [] d post size (suc rounds) off s labels fits lt =
    read_end d size rounds off post (some []) s
read_domain (l ∷ ls) d post size (suc rounds) off s labels fits lt =
    let s' : StandsAt d off (length l ∷ (l ++ (wire ls ++ post))) = rw append_assoc at s in
    let nil = ap (λ (v : Bytes). v ++ l) (dotted_nil size) in
    let long = length-append l (tail_text ls) in
    let fits' : length (dotted size []) + length l ≤ size - 1 = rw dotted_nil (omega arith) in
    let place : off + 1 + length l + length (wire ls) ≡ off + length (wire (l ∷ ls)) =
      omega (arith, length-append l (wire ls)) in
    let (step, rest) = read_label d size rounds off none [] l (wire ls ++ post) s' labels.0 fits' in
    let tail =
      read_tail d post size ls rounds (off + 1 + length l) l rest labels.1 labels.0.0 fits
        (omega arith) in
    cc (step, nil, tail, place)

-- Labels of 1 to 63 bytes whose dotted form fits `dst` with its NUL, wherever they stand in the
-- message and whatever follows them, are read back with dots between them, and the offset returned
-- is that of the byte behind the name.
pub read_name-wire :
    (pre post : Bytes) (ls : List Bytes) (size : ℕ)
    → All IsLabel ls
    → length (domain ls) ≤ size - 1
    → read_name
        (pre ++ (wire ls ++ post))
        (length (pre ++ (wire ls ++ post)))
        size
        (length pre)
        (some [])
      ≡ ok (some (length pre + length (wire ls), some (domain ls)))
unfolding read_name
read_name-wire pre post ls size labels fits =
    let d : Bytes = pre ++ (wire ls ++ post) in
    read_domain ls d post size (length d + 1) (length pre) (pre, refl, refl) labels fits
      (omega (
        arith,
        length-append pre (wire ls ++ post),
        length-append (wire ls) post,
        length-le-wire ls,
      ))
