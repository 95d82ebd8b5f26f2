-- ===== src/Examples/NetRuns.antt =====
-- c/net.c on Linux at concrete inputs: a connection from 10.0.0.2 to 10.0.0.1, whose socket is in
-- /proc/net/tcp.
use mathlib.Core.Path.{ap₂}
use tracep.Base.{
  All, List, [], ap, arith, false, if◌then◌else◌, inl, inr, length, length-take, map, none, refl,
  replicate, some, suc, sym, take, take_all, true, ℕ, ◌%◌, ◌++◌, ◌+◌, ◌-◌, ◌/◌, ◌==◌, ◌↔◌, ◌∙◌, ◌∷◌,
  ◌≡◌, ◌≢◌, ◌≤◌,
}
use tracep.Memory.{Bytes, Outcome, Returns, fault, le32, ok, spin}
use tracep.Net.Attrs.{ConnTuple, aligned, le16, parse_tcp_state, parse_tuple}
use tracep.Net.Attrs.Tuple.{IsAddress}
use tracep.Net.Chains.{db_delete, db_get, db_put}
use tracep.Net.Chains.Maps.{
  Command, delete_one, get_one, map_answers, put_one, table_answers, table_answers-eq-map_answers,
}
use tracep.Net.Events.{
  ConnEntry, NetState, Owner, World, begun, conn_keyed, find_pid_and_dir, handle_destroy,
  handle_new, in_state, is_left_out, is_skipped, owner_of, show_event, state_of,
}
use tracep.Net.Events.Timeline.{handle_destroy-handle_new}
use tracep.Net.Line.{NetOptions, closed, fresh_conn, peer_text, print_event, tuple_key}
use tracep.Net.Line.Keys.{Prints, tuple_key-ne}
use tracep.Net.Messages.{
  is_unwanted, msg_ct_delete, msg_ct_new, on_conn, on_event, on_message, process_nl_msgs,
}
use tracep.Net.Messages.Huge.{HugeEnds, process_nl_msgs_huge}
use tracep.Net.Messages.Walk.{lengths}
use tracep.Net.Messages.Whole.{IsConsistent, process_nl_msgs-IsConsistent}
use tracep.Net.Owner.{
  find_inode_with_dir, is_between, is_local_end, matched, outbound, parse_hex_ipv4,
  read_proc_net_file,
}
use tracep.Net.Owner.Digits.{Word, hex_word, parse_hex_ipv4-hex_word}
use tracep.Net.Owner.Search.{Locates, entries_for, find_inode_with_dir-Locates}
use tracep.Net.Reverse.{NameStep, answered, async_reverse_lookup, sought, starts_for}
use tracep.Net.Reverse.Once.{is_asked, starts_for-is_asked}
use tracep.Net.Watch.{climb, descends, is_descendant, is_watched, pid_in}
use tracep.Net.Watch.Ancestors.{HasWatched, is_descendant-HasWatched}
use tracep.Text.{codes, decimal, same_text}
use tracep.Text.Hex.{begins_with_hex, digit_value, hex_digits, read_hex, skip_prefix}
use tracep.Text.Hex.Upper.{hex_digit_upper}

-- a netlink attribute, with its padding
abbrev attr : ℕ → Bytes → Bytes
attr t body =
    (length body + 4) % 256 ∷ (length body + 4) / 256 ∷ t % 256 ∷ t / 256 ∷ body
    ++ replicate (aligned (length body) - length body) 0

abbrev tuple_attr : Bytes
tuple_attr = attr 0x8001 (
    attr 0x8001 (attr 1 (10 ∷ 0 ∷ 0 ∷ 2 ∷ []) ++ attr 2 (10 ∷ 0 ∷ 0 ∷ 1 ∷ []))
    ++ attr 0x8002 (attr 1 (6 ∷ []) ++ (attr 2 (4 ∷ 210 ∷ []) ++ attr 3 (0 ∷ 80 ∷ []))))

abbrev state_attr : Bytes
state_attr = attr 0x8004 (attr 0x8001 (attr 1 (1 ∷ [])))

-- a netlink message with an nfgenmsg and the attributes
abbrev nl_message : ℕ → ℕ → Bytes → Bytes
nl_message t flags attrs =
    (length attrs + 20) % 256
      ∷ (length attrs + 20) / 256
      ∷ 0
      ∷ 0
      ∷ t % 256
      ∷ t / 256
      ∷ flags % 256
      ∷ flags / 256
      ∷ replicate 12 0
    ++ attrs

abbrev new_message : Bytes
new_message = nl_message msg_ct_new 0x400 (tuple_attr ++ state_attr)

abbrev end_message : Bytes
end_message = nl_message msg_ct_delete 0 tuple_attr

abbrev conn : ConnTuple
conn = record {
  src_ip = 10 ∷ 0 ∷ 0 ∷ 2 ∷ [];
  dst_ip = 10 ∷ 0 ∷ 0 ∷ 1 ∷ [];
  src_port = 1234;
  dst_port = 80;
  proto = 6;
}

parse_tuple_run : parse_tuple (tuple_attr ++ state_attr) 0 52 ≡ ok (some conn)
unfolding parse_tuple
parse_tuple_run = refl

parse_tcp_state_run : parse_tcp_state (tuple_attr ++ state_attr) 0 68 ≡ ok 1
unfolding parse_tcp_state
parse_tcp_state_run = refl

abbrev proc_line : Bytes
proc_line =
    codes
      "   0: 0200000A:04D2 0100000A:0050 01 00000000:00000000 00:00000000 00000000  1000  0 4242 1\n"

abbrev proc_file : Bytes
proc_file = codes "  sl  local_address rem_address   st\n" ++ proc_line

abbrev world : World
world = record {
  files = record { tcp = some proc_file; tcp6 = none; udp = none; udp6 = none };
  owner = λ i. (77, codes "curl");
  local_ips = [];
  stat = λ p. if p == 77 then some (codes "77 (curl) S 40 77") else none;
  user = λ p. codes "root";
  now = 5000000000;
}

find_inode_with_dir_run : find_inode_with_dir world.files conn ≡ (4242, outbound)
unfolding find_inode_with_dir read_proc_net_file hex_digits begins_with_hex digit_value read_hex
    skip_prefix matched is_between is_local_end same_text
find_inode_with_dir_run = refl

find_inode_with_dir-Locates_example :
    Locates conn (entries_for world.files 6) (find_inode_with_dir world.files conn)
find_inode_with_dir-Locates_example = find_inode_with_dir-Locates world.files conn

parse_hex_ipv4-hex_word_example :
    parse_hex_ipv4 (hex_word 127 0 0 1 []) ≡ some (127 ∷ 0 ∷ 0 ∷ 1 ∷ [])
parse_hex_ipv4-hex_word_example =
    parse_hex_ipv4-hex_word 127 0 0 1 (omega arith) (omega arith) (omega arith) (omega arith)

abbrev loopback6 : List Word
loopback6 = (0, 0, 0, 0) ∷ (0, 0, 0, 0) ∷ (0, 0, 0, 0) ∷ (0, 0, 0, 1) ∷ []

hex_digits_run : hex_word 127 0 0 1 [] ≡ codes "0100007F"
unfolding hex_digit_upper
hex_digits_run = refl

is_descendant-HasWatched_example :
    (is_descendant (40 ∷ []) world.stat 77 ≡ true) ↔ HasWatched (40 ∷ []) world.stat 256 77
is_descendant-HasWatched_example = is_descendant-HasWatched (40 ∷ []) world.stat 77

is_watched_run : is_watched (40 ∷ []) world.stat 77 ≡ true
unfolding is_watched descends climb pid_in
is_watched_run = refl

abbrev conn_ops : List (Command ConnEntry)
conn_ops =
    put_one (codes "a") (in_state 1)
    ∷ put_one (codes "b") (in_state 2)
    ∷ get_one (codes "a")
    ∷ delete_one (codes "a")
    ∷ get_one (codes "a")
    ∷ get_one (codes "b")
    ∷ []

table_answers-eq-map_answers_example :
    table_answers conn_keyed (λ i. []) conn_ops ≡ map_answers conn_keyed (λ k. none) conn_ops
table_answers-eq-map_answers_example =
    table_answers-eq-map_answers conn_keyed conn_ops
      ((omega arith, λ e. refl), ((omega arith, λ e. refl), (tt, (tt, (tt, (tt, tt))))))

abbrev name_steps : List NameStep
name_steps =
    sought (codes "10.0.0.1")
    ∷ sought (codes "10.0.0.2")
    ∷ answered (codes "10.0.0.1") (codes "gate.")
    ∷ sought (codes "10.0.0.1")
    ∷ []

starts_for-is_asked_example :
    starts_for (codes "10.0.0.1") (λ i. []) name_steps
    ≡ (if is_asked (codes "10.0.0.1") name_steps then 1 else 0)
starts_for-is_asked_example = starts_for-is_asked (codes "10.0.0.1") name_steps (omega arith)

abbrev dots : Bytes → Bytes
unfolding decimal
dots (a ∷ b ∷ c ∷ d ∷ []) =
    decimal a ++ (b'.' ∷ decimal b ++ (b'.' ∷ decimal c ++ (b'.' ∷ decimal d)))
dots ip = codes "::"

abbrev seconds : ℕ → Bytes
seconds n = codes "2.000s"

abbrev flags : NetOptions
flags = record {
  show_close = true;
  show_update = false;
  show_user = true;
  show_reverse = true;
  ipv4_only = false;
  ipv6_only = false;
  outbound_only = false;
  color = false;
}

abbrev start : NetState
start = record { conns = λ i. []; names = λ i. []; started = []; printed = [] }

process_nl_msgs-IsConsistent_example :
    Returns IsConsistent
      (process_nl_msgs dots seconds [] flags world (length new_message / 16 + 1) new_message start)
unfolding lengths le32
process_nl_msgs-IsConsistent_example =
    process_nl_msgs-IsConsistent dots seconds [] flags world new_message start (omega arith)
      (omega arith) (λ i. tt)

-- a message whose length is 0xc0000000, and one whose length is 0xfffffffe
abbrev huge_message : ℕ → ℕ → Bytes
huge_message low high = low ∷ high ∷ high ∷ (if high == 0 then 0xc0 else 255) ∷ replicate 12 0

process_nl_msgs_huge_example :
    HugeEnds dots seconds [] flags world (huge_message 0 0) start 0xc0000000
unfolding le32
process_nl_msgs_huge_example =
    process_nl_msgs_huge dots seconds [] flags world (huge_message 0 0) start 0xc0000000
      (omega arith) (omega arith) refl (omega arith) (omega arith)

abbrev later : World
later = record world { now = 7000000000 }

abbrev curl_owner : Owner
curl_owner = find_pid_and_dir dots seconds [] flags world conn

abbrev first_key : Bytes
first_key = codes "10.0.0.2:1234|10.0.0.1:80|6"

abbrev after_new : NetState
after_new = show_event dots seconds [] flags world conn curl_owner fresh_conn [] (record start {
  conns = db_put conn_keyed start.conns first_key (begun world conn curl_owner 1);
})

tuple_key_run : tuple_key dots conn ≡ first_key
unfolding tuple_key
tuple_key_run = refl

handle_destroy-handle_new_example :
    handle_destroy dots seconds [] flags later first_key conn after_new
    ≡ show_event dots seconds [] flags later conn curl_owner closed
        (take 31 (seconds (later.now - world.now)))
        (record after_new { conns = db_delete conn_keyed after_new.conns first_key })
unfolding find_pid_and_dir find_inode_with_dir read_proc_net_file hex_digits begins_with_hex
    digit_value read_hex skip_prefix matched is_between is_local_end same_text is_skipped
    is_left_out handle_new state_of parse_tcp_state
handle_destroy-handle_new_example =
    handle_destroy-handle_new dots seconds [] flags world later first_key (omega arith) conn
      (tuple_attr ++ state_attr) 0 68 start after_new after_new refl refl refl refl

-- one text for each address, with no bar, which is 124
abbrev shift_text : Bytes → Bytes
shift_text s = map (λ c. c + 125) (take 45 s)

shift_plain : (s : Bytes) → All (λ c. c ≢ b'|') (map (λ c. c + 125) s)
shift_plain [] = tt
shift_plain (c ∷ s) = (λ e. omega (arith, e), shift_plain s)

shift_length : (s : Bytes) → length (map (λ c. c + 125) s) ≡ length s
shift_length [] = refl
shift_length (c ∷ s) = ap suc (shift_length s)

shift_injective : (a b : Bytes) → map (λ c. c + 125) a ≡ map (λ c. c + 125) b → a ≡ b
shift_injective [] [] e = refl
shift_injective [] (y ∷ b) e = cc
shift_injective (x ∷ a) [] e = cc
shift_injective (x ∷ a) (y ∷ b) e =
    let head : x + 125 ≡ y + 125 = cc in
    let rest : map (λ c. c + 125) a ≡ map (λ c. c + 125) b = cc in
    let same : x ≡ y = omega (arith, head) in ap₂ ◌∷◌ same (shift_injective a b rest)

IsAddress-short : (a : Bytes) → IsAddress a → length a ≤ 45
IsAddress-short a (inl e) = omega (arith, e)
IsAddress-short a (inr e) = omega (arith, e)

shift_text-Prints : Prints shift_text
shift_text-Prints = record {
  plain = λ ip. shift_plain (take 45 ip);
  short = λ ip. omega (arith, shift_length (take 45 ip), length-take 45 ip);
  injective = λ a b ha hb e.
      sym (take_all 45 a (IsAddress-short a ha))
      ∙ (shift_injective (take 45 a) (take 45 b) e ∙ take_all 45 b (IsAddress-short b hb));
}

abbrev other_conn : ConnTuple
other_conn = record conn { src_port = 1235 }

conn-ne-other_conn : conn ≢ other_conn
conn-ne-other_conn e = omega (arith, ap (λ t. t.src_port) e)

tuple_key-ne_example : tuple_key shift_text conn ≢ tuple_key shift_text other_conn
tuple_key-ne_example =
    tuple_key-ne shift_text shift_text-Prints conn other_conn
      (record {
        src = inl refl;
        dst = inl refl;
        src_port = omega arith;
        dst_port = omega arith;
        proto = omega arith;
      })
      (record {
        src = inl refl;
        dst = inl refl;
        src_port = omega arith;
        dst_port = omega arith;
        proto = omega arith;
      })
      conn-ne-other_conn

-- the two messages, one behind the other
two_messages : Outcome NetState
two_messages =
    process_nl_msgs dots seconds [] flags world (length (new_message ++ end_message))
      (new_message ++ end_message) start

printed_of : Outcome NetState → Bytes
printed_of (ok s) = s.printed
printed_of fault = []
printed_of spin = []

two_lines_run :
    printed_of two_messages
    ≡ codes "   77 curl         <root> TCP  10.0.0.2:1234            "
      ++ ((0xe2 ∷ 0x86 ∷ 0x92 ∷ codes " 10.0.0.1:80             \n")
          ++ (codes "   77 curl         <root> TCP  10.0.0.2:1234            "
              ++ (0xc3 ∷ 0x97 ∷ codes " 10.0.0.1:80              2.000s\n")))
unfolding two_messages printed_of process_nl_msgs on_message le16 le32 on_event parse_tuple
    is_unwanted on_conn tuple_key handle_new handle_destroy show_event state_of find_pid_and_dir
    find_inode_with_dir read_proc_net_file hex_digits begins_with_hex digit_value read_hex
    skip_prefix matched is_between is_local_end same_text is_skipped is_left_out parse_tcp_state
    db_get db_put db_delete print_event async_reverse_lookup peer_text owner_of
two_lines_run = refl
