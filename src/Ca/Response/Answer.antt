-- ===== src/Ca/Response/Answer.antt =====
-- What http_get_once of c/ca.c reads of the answer that a server writes to redirect it.
use Prim.Native.Char.{code}
use mathlib.Core.List.{append-nil, append_assoc}
use tracep.Base.{
  All, All-append, All-map, List, Option, [], ap, arith, drop, false, length, length-append, none,
  refl, some, suc, sym, take_all, ℕ, ◌++◌, ◌+◌, ◌<◌, ◌==◌, ◌^◌, ◌||◌, ◌∙◌, ◌∷◌, ◌≡◌, ◌≢◌, ◌≤◌,
}
use tracep.Ca.Response.{
  Response, behind_any_case, crlf, header_line, header_lines, parse_response, status_of,
}
use tracep.Ca.Response.Lines.{
  IsLine, after_lines, cut_text-head, head_of, header_lines-after, header_text,
}
use tracep.Ca.Response.Status.{status_of-code}
use tracep.Memory.{Bytes, cstr}
use tracep.Net.Lsof.{cut_text}
use tracep.Text.{codes, decimal}
use tracep.Text.Decimal.{IsDigit, decimal_digits}

abbrev pub status_line : ℕ → Bytes → Bytes
status_line code reason = codes "HTTP/1.1 " ++ (decimal code ++ b' ' ∷ reason)

abbrev pub location_line : Bytes → Bytes
location_line target = codes "Location: " ++ target

-- A line of the header that is not the one with the location.
pub record IsOther (l : Bytes) : Type 0 where
  pub line : IsLine l
  pub other : behind_any_case (codes "location:") l ≡ none

-- The text of a URL: it is not empty, and has no control character and no blank.
pub record IsTarget (t : Bytes) : Type 0 where
  pub some_text : 0 < length t
  pub printing : All (λ c. 32 < c) t

cstr-append : (a s : Bytes) → All (λ c. c ≢ 0) a → cstr (a ++ s) ≡ a ++ cstr s
unfolding cstr
cstr-append [] s h = refl
cstr-append (x ∷ a) s h =
    let other : (x == 0) ≡ false = ground (arith, h.0) in
    rw (cstr, other) (ap (λ t. x ∷ t) (cstr-append a s h.1))

cstr-header :
    (ls : List Bytes) (s : Bytes)
    → All IsLine ls
    → cstr (header_text ls s) ≡ header_text ls (cstr s)
unfolding cstr
cstr-header [] s h = refl
cstr-header (l ∷ ls) s h =
    cstr-append l (crlf ++ header_text ls s) (All-map _ (λ c. c ≢ 0) l (λ c k. k.1) h.0.one_line)
    ∙ ap (λ t. l ++ (crlf ++ t)) (cstr-header ls s h.1)

drop-append : (a s : Bytes) (k : ℕ) → drop (length a + k) (a ++ s) ≡ drop k s
drop-append [] s k = ap (λ n. drop n s) (omega arith)
drop-append (x ∷ a) s k =
    let more : length (x ∷ a) + k ≡ suc (length a + k) = omega arith in rw more (drop-append a s k)

body_of_header :
    (l : Bytes) (ls : List Bytes) (s : Bytes)
    → header_text (l ∷ ls) s ≡ head_of l ls ++ (crlf ++ (crlf ++ s))
body_of_header l [] s = refl
body_of_header l (m ∷ ls) s =
    ap (λ t. l ++ (crlf ++ t)) (body_of_header m ls s)
    ∙ sym (append_assoc l (crlf ++ head_of m ls) (crlf ++ (crlf ++ s)))

header_line-other : (l location : Bytes) → IsOther l → header_line l location ≡ location
unfolding header_line
header_line-other l location h = rw (h.other, header_line) refl

after_lines-others :
    (ls ms : List Bytes) (location : Bytes)
    → All IsOther ls
    → after_lines (ls ++ ms) location ≡ after_lines ms location
after_lines-others [] ms location h = refl
after_lines-others (l ∷ ls) ms location h =
    ap (after_lines (ls ++ ms)) (header_line-other l location h.0)
    ∙ after_lines-others ls ms location h.1

header_line-location :
    (target location : Bytes)
    → IsTarget target
    → length target ≤ 2047
    → header_line (location_line target) location ≡ target
unfolding header_line
header_line-location [] location h le = absurd (omega (arith, h.some_text))
header_line-location (c ∷ t) location h le =
    let blank : (c == b' ' || c == 9) ≡ false = ground (arith, h.printing.0) in
    rw blank (take_all 2047 (c ∷ t) le)

parse_response_parts :
    (raw head tail : Bytes)
    → (length raw == 0) ≡ false
    → cut_text (crlf ++ crlf) (cstr raw) ≡ some (head, tail)
    → parse_response raw
      ≡ some (record {
        status = status_of (cstr raw);
        location = header_lines (length head + 1) (length head) (cstr raw) [];
        body = drop (length head + 4) raw;
      })
unfolding parse_response
parse_response_parts raw head tail filled cut = rw (filled, parse_response, cut) refl

response-eq :
    {n m : ℕ} {a b s t : Bytes}
    → n ≡ m
    → a ≡ b
    → s ≡ t
    → ◌≡◌ {A = Option Response}
        (some (record { status = n; location = a; body = s }))
        (some (record { status = m; location = b; body = t }))
response-eq p q r = λ i. some (record { status = p i; location = q i; body = r i })

-- The fields of the answer.
parse_response-lines :
    (l : Bytes) (ls : List Bytes) (s : Bytes)
    → All IsLine (l ∷ ls)
    → parse_response (header_text (l ∷ ls) s)
      ≡ some (record {
        status = status_of (header_text (l ∷ ls) (cstr s));
        location = after_lines (l ∷ ls) [];
        body = s;
      })
parse_response-lines l ls s h =
    let raw = header_text (l ∷ ls) s in
    let filled : (length raw == 0) ≡ false =
      ground (arith, length-append l (crlf ++ header_text ls s)) in
    let text = cstr-header (l ∷ ls) s h in
    parse_response_parts raw (head_of l ls) (cstr s) filled
      (ap (cut_text (crlf ++ crlf)) text ∙ cut_text-head l ls (cstr s) h)
    ∙ response-eq (ap status_of text)
        (ap (λ t. header_lines (length (head_of l ls) + 1) (length (head_of l ls)) t []) text
          ∙ header_lines-after l ls (cstr s) [] (length (head_of l ls) + 1) h (omega arith))
        (ap (drop (length (head_of l ls) + 4)) (body_of_header l ls s)
          ∙ drop-append (head_of l ls) (crlf ++ (crlf ++ s)) 4)

module _ (n : ℕ) (lt : n < 2 ^ 31) (reason : Bytes)
    (fine : All (λ c. (c ≢ 13) × (c ≢ 0)) reason) where
  status_line-IsLine : IsLine (status_line n reason)
  status_line-IsLine = record {
    some_text = omega arith;
    one_line = All-append _ (codes "HTTP/1.1 ") (decimal n ++ b' ' ∷ reason) (omega arith) (
        All-append _ (decimal n) (b' ' ∷ reason)
          (All-map IsDigit _ (decimal n) (λ c h. (λ e. omega (arith, e), λ e. omega (arith, e)))
            (decimal_digits n))
          (omega arith, fine));
  }

  status_line-IsOther : IsOther (status_line n reason)
  unfolding behind_any_case
  status_line-IsOther = record { line = status_line-IsLine; other = refl }

  module _ (before later : List Bytes) (target body : Bytes) (others : All IsOther before)
      (others' : All IsOther later) (is_target : IsTarget target)
      (short : length target ≤ 2047) where
    location_line-IsLine : IsLine (location_line target)
    location_line-IsLine = record {
      some_text = omega arith;
      one_line = All-append _ (codes "Location: ") target (omega arith) (
          All-map _ _ target (λ c h. (λ e. omega (arith, e), λ e. omega (arith, e)))
            is_target.printing);
    }

    all_lines : All IsLine (status_line n reason ∷ before ++ location_line target ∷ later)
    all_lines = (
      status_line-IsLine,
      All-append IsLine before (location_line target ∷ later)
          (All-map IsOther IsLine before (λ l h. h.line) others)
          (location_line-IsLine, All-map IsOther IsLine later (λ l h. h.line) others'),
    )

    status_read : (s : Bytes) → status_of (status_line n reason ++ s) ≡ n
    status_read s =
        ap (λ t. status_of (codes "HTTP/1.1 " ++ t)) (append_assoc (decimal n) (b' ' ∷ reason) s)
        ∙ status_of-code n (reason ++ s) lt

    location_read :
        after_lines (status_line n reason ∷ before ++ location_line target ∷ later) [] ≡ target
    location_read =
        ap (after_lines (before ++ location_line target ∷ later))
          (header_line-other (status_line n reason) [] status_line-IsOther)
        ∙ (after_lines-others before (location_line target ∷ later) [] others
            ∙ (ap (after_lines later) (header_line-location target [] is_target short)
                ∙ (ap (λ ls. after_lines ls target) (sym (append-nil later))
                    ∙ after_lines-others later [] target others')))

    -- Of an answer with the status line of HTTP/1.1 and a status below 2 ^ 31, a Location header
    -- somewhere among other header lines, a blank line and any body, http_get_once reads the
    -- status, the target of the header without the blank in front of it, and the whole body, where
    -- no line is empty or has a carriage return or a NUL, none of the others is a Location header,
    -- and the target has 1 to 2047 characters, all printable and none a blank.
    pub parse_response-location :
        parse_response
          (header_text (status_line n reason ∷ before ++ location_line target ∷ later) body)
        ≡ some (record { status = n; location = target; body = body })
    parse_response-location =
        parse_response-lines (status_line n reason) (before ++ location_line target ∷ later) body
          all_lines
        ∙ response-eq
            (status_read (crlf ++ header_text (before ++ location_line target ∷ later) (cstr body)))
            location_read refl
