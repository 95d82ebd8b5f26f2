-- ===== src/Net/Messages.antt =====
-- process_nl_msgs of c/net.c: the walk over the netlink messages of a buffer, and what it does with a
-- conntrack event. `len` is what is left of the data, an int, kept as its bit pattern; a difference of
-- ints that overflows wraps around. The length of a message is unsigned and is cast to an int in the
-- tests. The loop has no bound of its own, so it gets rounds. nfgenmsg takes 4 bytes behind the header
-- of 16.
pub mod Walk
pub mod Huge
pub mod Whole
use tracep.Base.{
  Bool, List, false, if◌then◌else◌, leb, length, ltb, none, not, some, suc, true, zero, ℕ, ◌%◌,
  ◌&&◌, ◌+◌, ◌-◌, ◌/◌, ◌==◌, ◌^◌, ◌||◌,
}
use tracep.Exec.Netlink.{nlmsg_align}
use tracep.Memory.{Bytes, Outcome, le32, ok, spin, ◌>>=◌}
use tracep.Net.Attrs.{ConnTuple, le16, parse_tuple}
use tracep.Net.Chains.{db_delete}
use tracep.Net.Events.{NetState, World, conn_keyed, handle_destroy, handle_new, handle_update}
use tracep.Net.Line.{NetOptions, tuple_key}

-- MSG_CT_NEW, MSG_CT_DELETE, NLM_F_CREATE_
abbrev pub msg_ct_new : ℕ
msg_ct_new = 256

abbrev pub msg_ct_delete : ℕ
msg_ct_delete = 258

-- `flags & 0x400`
abbrev pub is_create : ℕ → Bool
is_create flags = flags / 0x400 % 2 == 1

-- `(int)n < 0` of an unsigned
abbrev pub is_huge : ℕ → Bool
is_huge n = not (ltb n (2 ^ 31))

-- `(int)mlen > len`, and `(int)aligned >= len`
abbrev pub is_longer : ℕ → ℕ → Bool
is_longer mlen len = not (is_huge mlen) && ltb len mlen

abbrev pub is_last : ℕ → ℕ → Bool
is_last step len = not (is_huge step) && leb len step

-- a - b of two ints
abbrev pub minus32 : ℕ → ℕ → ℕ
minus32 a b = (a + 2 ^ 32 - b) % 2 ^ 32

-- `len -= (int)aligned`
abbrev pub left_of : ℕ → ℕ → ℕ
left_of len step = minus32 len step

module _ {S : Type 0} (on_event : Bool → Bool → Bytes → ℕ → ℕ → S → Outcome S) where
  -- A message of `mlen` bytes at `off`; `data_len` is an int.
  unfoldable pub on_message : Bytes → ℕ → ℕ → S → Outcome S
  on_message d off mlen s =
      let data_len = minus32 mlen 16 in
      le16 d (off + 4) >>= λ t. elim (t == msg_ct_new || t == msg_ct_delete) [
        | false ↦ ok s
        | true ↦ elim (is_huge data_len || ltb data_len 4) [
          | true ↦ ok s
          | false ↦ le16 d (off + 6) >>= λ flags.
              on_event (t == msg_ct_new) (is_create flags) d (off + 20) (data_len - 4) s
        ]
      ]

  unfoldable pub walk : ℕ → Bytes → ℕ → ℕ → S → Outcome S
  walk zero d off len s = spin
  walk (suc rounds) d off len s = elim (is_huge len || ltb len 16) [
    | true ↦ ok s
    | false ↦ le32 d off >>= λ mlen. elim (ltb mlen 16 || is_longer mlen len) [
      | true ↦ ok s
      | false ↦ on_message d off mlen s >>= λ s'. elim (is_last (nlmsg_align mlen) len) [
        | true ↦ ok s'
        | false ↦ walk rounds d (off + nlmsg_align mlen) (left_of len (nlmsg_align mlen)) s'
      ]
    ]
  ]

module _ (inet_ntop : Bytes → Bytes) (time_text : ℕ → Bytes) (watch : List ℕ) (o : NetOptions)
    (w : World) where
  -- `skip`
  unfoldable pub is_unwanted : ConnTuple → Bool
  is_unwanted t =
      let is4 = length t.src_ip == 4 in
      o.ipv4_only && not is4 || o.ipv6_only && is4 || not (t.proto == 6) && not (t.proto == 17)

  -- the four cases of a connection that is wanted
  unfoldable pub on_conn : Bool → Bool → ConnTuple → Bytes → ℕ → ℕ → NetState → Outcome NetState
  on_conn is_new created t d at plen s =
      let key = tuple_key inet_ntop t in
      if is_new && created
      then handle_new inet_ntop time_text watch o w key t d at plen s
      else if is_new && o.show_update
      then handle_update inet_ntop time_text watch o w key t d at plen s
      else if not is_new && o.show_close
      then ok (handle_destroy inet_ntop time_text watch o w key t s)
      else if not is_new
      then ok (record s { conns = db_delete conn_keyed s.conns key })
      else ok s

  unfoldable pub on_event : Bool → Bool → Bytes → ℕ → ℕ → NetState → Outcome NetState
  on_event is_new created d at plen s = parse_tuple d at plen >>= elim [
    | none ↦ ok s
    | some t ↦ if is_unwanted t then ok s else on_conn is_new created t d at plen s
  ]

  unfoldable pub process_nl_msgs : ℕ → Bytes → NetState → Outcome NetState
  unfolding walk
  process_nl_msgs rounds d s = walk on_event rounds d 0 (length d) s
