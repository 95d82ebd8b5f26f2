-- ===== src/Examples/TextRuns.antt =====
-- c/common.c at concrete texts.
use tracep.Base.{[], arith, none, refl, some, ◌≡◌}
use tracep.Common.{Pool, quote_byte, quoted}
use tracep.Common.Quoting.{quoted_bytes, shell_word, shell_word-quoted, word_start}
use tracep.Text.{codes}

quoted_run : quoted (codes "it's") ≡ codes "'it'\\''s'"
unfolding quoted
quoted_run = refl

tilde_run :
    (quoted (codes "~root") ≡ codes "~root") × (shell_word word_start (codes "~root") ≡ none)
unfolding quoted shell_word
tilde_run = (refl, refl)

shell_word-quoted_example : shell_word word_start (quoted (codes "it's")) ≡ some (codes "it's")
unfolding quoted_bytes quote_byte
shell_word-quoted_example = shell_word-quoted (codes "it's") (omega arith) (omega arith)

abbrev first_pool : Pool
first_pool = record { slots = λ i. []; slot = 15 }
