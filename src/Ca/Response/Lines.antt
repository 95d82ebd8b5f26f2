-- ===== src/Ca/Response/Lines.antt =====
-- The loop of http_get_once of c/ca.c over the lines of the header.
use mathlib.Core.Option
use mathlib.Core.List.{append-nil}
use tracep.Base.{
  All, List, [], ap, arith, false, length, length-append, ltb, none, refl, some, suc, zero, ℕ, ◌++◌,
  ◌+◌, ◌-◌, ◌<◌, ◌==◌, ◌∙◌, ◌∷◌, ◌≡◌, ◌≢◌, ◌≤◌,
}
use tracep.Ca.Cuts.{map_nothing, map_twice, onto}
use tracep.Ca.Response.{crlf, header_line, header_lines}
use tracep.Memory.{Bytes}
use tracep.Net.Lsof.{cut_text}
use tracep.Tls.Events.{behind}

-- A line of the header: some characters, no carriage return and no NUL among them.
pub record IsLine (l : Bytes) : Type 0 where
  pub some_text : 0 < length l
  pub one_line : All (λ c. (c ≢ 13) × (c ≢ 0)) l

-- The lines, each with its end behind it, the blank line, and the body.
abbrev pub header_text : List Bytes → Bytes → Bytes
header_text [] s = crlf ++ s
header_text (l ∷ ls) s = l ++ (crlf ++ header_text ls s)

-- What stands in front of the blank line and the end of the line above it.
abbrev pub head_of : Bytes → List Bytes → Bytes
head_of l [] = l
head_of l (m ∷ ls) = l ++ (crlf ++ head_of m ls)

-- The lines in their order, each with what it does to `location`.
abbrev pub after_lines : List Bytes → Bytes → Bytes
after_lines [] location = location
after_lines (l ∷ ls) location = after_lines ls (header_line l location)

cut_text_miss :
    (p : Bytes) (x : ℕ) (s : Bytes)
    → behind p (x ∷ s) ≡ none
    → cut_text p (x ∷ s) ≡ Option.map (onto (x ∷ [])) (cut_text p s)
unfolding cut_text
cut_text_miss p x s e = rw (e, cut_text) refl

cut_text_step :
    (p : Bytes) (x : ℕ) (s : Bytes)
    → x ≢ 13
    → cut_text (13 ∷ p) (x ∷ s) ≡ Option.map (onto (x ∷ [])) (cut_text (13 ∷ p) s)
unfolding behind
cut_text_step p x s h =
    let other : (13 == x) ≡ false = ground (arith, h) in
    cut_text_miss (13 ∷ p) x s (rw (behind, other) refl)

-- strstr of what begins with a carriage return, over a line that has none.
cut_text-line :
    (p l s : Bytes)
    → All (λ c. (c ≢ 13) × (c ≢ 0)) l
    → cut_text (13 ∷ p) (l ++ s) ≡ Option.map (onto l) (cut_text (13 ∷ p) s)
cut_text-line p [] s h = map_nothing (cut_text (13 ∷ p) s)
cut_text-line p (x ∷ l) s h =
    cut_text_step p x (l ++ s) h.0.0
    ∙ (ap (Option.map (onto (x ∷ []))) (cut_text-line p l s h.1)
        ∙ map_twice x l (cut_text (13 ∷ p) s))

cut_text_cr :
    (x : ℕ) (s : Bytes)
    → x ≢ 13
    → cut_text (crlf ++ crlf) (13 ∷ 10 ∷ x ∷ s)
      ≡ Option.map (onto (13 ∷ [])) (cut_text (crlf ++ crlf) (10 ∷ x ∷ s))
unfolding behind
cut_text_cr x s h =
    let other : (13 == x) ≡ false = ground (arith, h) in
    cut_text_miss (crlf ++ crlf) 13 (10 ∷ x ∷ s) (rw (behind, other) refl)

-- The end of a line that is not the blank line.
cut_text-crlf :
    (l s : Bytes)
    → IsLine l
    → cut_text (crlf ++ crlf) (crlf ++ (l ++ s))
      ≡ Option.map (onto crlf) (cut_text (crlf ++ crlf) (l ++ s))
cut_text-crlf [] s h = absurd (omega (arith, h.some_text))
cut_text-crlf (x ∷ l) s h =
    cut_text_cr x (l ++ s) h.one_line.0.0
    ∙ (ap (Option.map (onto (13 ∷ []))) (cut_text_step (10 ∷ crlf) 10 (x ∷ l ++ s) (omega arith))
        ∙ map_twice 13 (10 ∷ []) (cut_text (crlf ++ crlf) (x ∷ l ++ s)))

pub cut_text-head :
    (l : Bytes) (ls : List Bytes) (s : Bytes)
    → All IsLine (l ∷ ls)
    → cut_text (crlf ++ crlf) (header_text (l ∷ ls) s) ≡ some (head_of l ls, s)
unfolding cut_text
cut_text-head l [] s h =
    cut_text-line (10 ∷ crlf) l (crlf ++ (crlf ++ s)) h.0.one_line
    ∙ ap (λ a. some (a, s)) (append-nil l)
cut_text-head l (m ∷ ls) s h =
    cut_text-line (10 ∷ crlf) l (crlf ++ header_text (m ∷ ls) s) h.0.one_line
    ∙ ap (Option.map (onto l)) (
        cut_text-crlf m (crlf ++ header_text ls s) h.1.0
        ∙ ap (Option.map (onto crlf)) (cut_text-head m ls s h.1))

cut_text-end : (l s : Bytes) → IsLine l → cut_text crlf (l ++ (crlf ++ s)) ≡ some (l, s)
unfolding cut_text
cut_text-end l s h =
    cut_text-line (10 ∷ []) l (crlf ++ s) h.one_line ∙ ap (λ a. some (a, s)) (append-nil l)

-- What is left of the header behind its first line.
left_behind :
    (l : Bytes) (m : Bytes) (ls : List Bytes)
    → length (head_of l (m ∷ ls)) - (length l + 2) ≡ length (head_of m ls)
left_behind l m ls = omega (arith, length-append l (crlf ++ head_of m ls))

header_lines_none : (rounds : ℕ) (l location : Bytes) → header_lines rounds 0 l location ≡ location
unfolding header_lines
header_lines_none zero l location = refl
header_lines_none (suc rounds) l location = refl

header_lines_step :
    (rounds left : ℕ) (l s location : Bytes)
    → IsLine l
    → length l ≤ left
    → header_lines (suc rounds) left (l ++ (crlf ++ s)) location
      ≡ header_lines rounds (left - (length l + 2)) s (header_line l location)
unfolding header_lines
header_lines_step rounds left l s location h le =
    let more : (left == 0) ≡ false = ground (arith, h.some_text, le) in
    let whole : ltb left (length l) ≡ false = ground (arith, le) in
    rw (header_lines, more, cut_text-end l s h, whole) refl

pub header_lines-after :
    (l : Bytes) (ls : List Bytes) (s location : Bytes) (rounds : ℕ)
    → All IsLine (l ∷ ls)
    → length (head_of l ls) < rounds
    → header_lines rounds (length (head_of l ls)) (header_text (l ∷ ls) s) location
      ≡ after_lines (l ∷ ls) location
header_lines-after l ls s location zero h lt = absurd (omega arith)
header_lines-after l [] s location (suc rounds) h lt =
    header_lines_step rounds (length l) l (crlf ++ s) location h.0 (omega arith)
    ∙ (let past : length l - (length l + 2) ≡ 0 = omega arith in
        rw past (header_lines_none rounds (crlf ++ s) (header_line l location)))
header_lines-after l (m ∷ ls) s location (suc rounds) h lt =
    header_lines_step rounds (length (head_of l (m ∷ ls))) l (header_text (m ∷ ls) s) location h.0
      (omega (arith, length-append l (crlf ++ head_of m ls)))
    ∙ rw (left_behind l m ls) (
        header_lines-after m ls s (header_line l location) rounds h.1
          (omega (arith, lt, length-append l (crlf ++ head_of m ls))))
