-- ===== src/Ca/Flags/Gathered.antt =====
-- The flags of c/ca.c may stand on either side of the positional arguments.
use mathlib.Core.Option
use tracep.Base.{
  All, Bool, List, Option, [], ap, arith, false, none, refl, some, sym, true, ◌++◌, ◌∙◌, ◌∷◌, ◌≡◌,
}
use tracep.Ca.Flags.{
  Flags, ca_options, defaults, int_value, is_flag, parse_args, parse_bool, set_port, set_timeout,
}
use tracep.Ca.Flags.Items.{
  IsItem, Item, added, after, all_flag, apart, flags_of, given, insecure_flag, joined,
  parse_args-setting, plain_of, port_flag, rendered, root_flag, setting, timeout_flag, version_flag,
  word,
}
use tracep.Memory.{Bytes}

-- A flag and a positional argument commute.
Option-map_comm {ℓ} :
    {A : Type ℓ} (o : Option A) (g h : A → Flags) (k : Flags → Flags)
    → ((n : A) → g n ≡ k (h n))
    → Option.map g o ≡ Option.map k (Option.map h o)
Option-map_comm none g h k e = refl
Option-map_comm (some n) g h k e = ap some (e n)

abbrev is_word : Item → Bool
is_word (word a) = true
is_word _ = false

setting-added :
    (i : Item) (f : Flags) (a : Bytes)
    → is_word i ≡ false
    → setting i (added f a) ≡ Option.map (λ g. added g a) (setting i f)
unfolding setting set_port set_timeout
setting-added (word b) f a h = cc
setting-added (apart two port_flag v) f a h =
    Option-map_comm (int_value v) _ (λ n. record f { port = n }) (λ g. added g a)
      (λ n. ground arith)
setting-added (apart two timeout_flag v) f a h =
    Option-map_comm (int_value v) _ (λ n. record f { timeout = n }) (λ g. added g a)
      (λ n. ground arith)
setting-added (joined two port_flag v) f a h =
    Option-map_comm (int_value v) _ (λ n. record f { port = n }) (λ g. added g a)
      (λ n. ground arith)
setting-added (joined two timeout_flag v) f a h =
    Option-map_comm (int_value v) _ (λ n. record f { timeout = n }) (λ g. added g a)
      (λ n. ground arith)
setting-added (given two root_flag v) f a h =
    Option-map_comm (parse_bool (some v)) _ (λ b. record f { fetch_root = b }) (λ g. added g a)
      (λ n. ground arith)
setting-added (given two insecure_flag v) f a h =
    Option-map_comm (parse_bool (some v)) _ (λ b. record f { insecure = b }) (λ g. added g a)
      (λ n. ground arith)
setting-added (given two all_flag v) f a h =
    Option-map_comm (parse_bool (some v)) _ (λ b. record f { all = b }) (λ g. added g a)
      (λ n. ground arith)
setting-added (given two version_flag v) f a h =
    Option-map_comm (parse_bool (some v)) _ (λ b. record f { show_ver = b }) (λ g. added g a)
      (λ n. ground arith)
setting-added _ f a h = ground arith

after-added :
    (o : Option Flags) (a : Bytes) (s t : List Bytes)
    → ((g : Flags) → parse_args false (added g a) s ≡ parse_args false g t)
    → after (Option.map (λ g. added g a) o) s ≡ after o t
unfolding after
after-added none a s t e = refl
after-added (some g) a s t e = e g

-- A positional argument in front of flags might as well stand behind them.
parse_args-push :
    (items : List Item) (f : Flags) (a : Bytes) (s : List Bytes)
    → All IsItem items
    → is_flag a ≡ false
    → parse_args false (added f a) (flags_of items ++ s)
      ≡ parse_args false f (flags_of items ++ a ∷ s)
unfolding after setting
parse_args-push [] f a s h k = sym (parse_args-setting (word a) f s k)
parse_args-push (word b ∷ items) f a s h k = parse_args-push items f a s h.1 k
parse_args-push (i ∷ items) f a s h k =
    parse_args-setting i (added f a) (flags_of items ++ s) h.0
    ∙ (ap (λ o. after o (flags_of items ++ s)) (setting-added i f a refl)
        ∙ (after-added (setting i f) a (flags_of items ++ s) (flags_of items ++ a ∷ s)
              (λ g. parse_args-push items g a s h.1 k)
            ∙ sym (parse_args-setting i f (flags_of items ++ a ∷ s) h.0)))

after-congr :
    (o : Option Flags) (s t : List Bytes)
    → ((g : Flags) → parse_args false g s ≡ parse_args false g t)
    → after o s ≡ after o t
unfolding after
after-congr none s t e = refl
after-congr (some g) s t e = e g

parse_args-gathered :
    (items : List Item) (f : Flags)
    → All IsItem items
    → parse_args false f (rendered items) ≡ parse_args false f (flags_of items ++ plain_of items)
unfolding after setting
parse_args-gathered [] f h = refl
parse_args-gathered (word a ∷ items) f h =
    parse_args-setting (word a) f (rendered items) h.0
    ∙ (parse_args-gathered items (added f a) h.1
        ∙ parse_args-push items f a (plain_of items) h.1 h.0)
parse_args-gathered (i ∷ items) f h =
    parse_args-setting i f (rendered items) h.0
    ∙ (after-congr (setting i f) (rendered items) (flags_of items ++ plain_of items)
          (λ g. parse_args-gathered items g h.1)
        ∙ sym (parse_args-setting i f (flags_of items ++ plain_of items) h.0))

-- The flags of ca, each in any of its forms, may stand in front of, between or behind the
-- positional arguments: what ca_main makes of the arguments is what it makes of them with all flags
-- in front, in their order.
pub ca_options-gathered :
    (items : List Item)
    → All IsItem items
    → ca_options (rendered items) ≡ ca_options (flags_of items ++ plain_of items)
unfolding ca_options
ca_options-gathered items h = rw (parse_args-gathered items defaults h, ca_options) refl
