-- ===== src/Net/Lsof/Scan.antt =====
-- c/net.c on macOS: the lines of lsof -F that net_scan reads, net_hash, net_seen_check_insert and
-- net_emit. The user of a process is a parameter; the child process is a system call.
use Prim.Native.Nat.{bit_xor}
use tracep.Base.{
  Bool, List, Option, [], false, if◌then◌else◌, length, ltb, none, some, suc, take, true, zero, ℕ,
  ◌%◌, ◌&&◌, ◌*◌, ◌++◌, ◌+◌, ◌==◌, ◌^◌, ◌||◌, ◌∷◌,
}
use tracep.Common.{clr_text}
use tracep.Exec.Line.{pid_text}
use tracep.Memory.{Bytes, cstr}
use tracep.Net.Line.{pad_left, pad_right}
use tracep.Net.Lsof.{atoi, join_host_port, split_conn, split_host_port}
use tracep.Text.{codes, same_text}
use tracep.Text.Hex.{lines_from, strtoull}

-- what is told of a connection
pub record Flow : Type 0 where
  pub pid : ℕ
  pub proto : Bytes
  pub src : Bytes
  pub sport : ℕ
  pub dst : Bytes
  pub dport : ℕ

-- one step of FNV-64, and one for each character
abbrev pub fnv_step : ℕ → ℕ → ℕ
fnv_step h c = bit_xor h c * 1099511628211 % 2 ^ 64

unfoldable pub fnv_text : ℕ → Bytes → ℕ
fnv_text h [] = h
fnv_text h (c ∷ s) = fnv_text (fnv_step h c) s

unfoldable pub net_hash : Flow → ℕ
unfolding fnv_text
net_hash f =
    let h = fnv_step (fnv_text 1469598103934665603 f.proto) f.pid in
    let h' = fnv_step (fnv_text h f.src) f.sport in fnv_step (fnv_text h' f.dst) f.dport % 2 ^ 32

unfoldable pub same_flow : Flow → Flow → Bool
unfolding same_text
same_flow e f =
    e.pid == f.pid
    && (e.sport == f.sport
        && (e.dport == f.dport
            && (same_text e.proto f.proto && (same_text e.src f.src && same_text e.dst f.dst))))

-- net_seen: a slot that is used keeps the hash beside the flow
abbrev pub Seen : Type 0
Seen = ℕ → Option (ℕ × Flow)

abbrev pub netseen_cap : ℕ
netseen_cap = 16384

-- the loop of net_seen_check_insert over the probes that are left
unfoldable pub seen_from : ℕ → ℕ → ℕ → Flow → Seen → Bool × Seen
unfolding same_flow
seen_from zero i h f t = (true, t)
seen_from (suc n) i h f t = elim (t (i % netseen_cap)) [
  | none ↦ (false, λ j. if j == i % netseen_cap then some (h, f) else t j)
  | some e ↦ elim (e.0 == h && same_flow e.1 f) [
    | true ↦ (true, t)
    | false ↦ seen_from n (i + 1) h f t
  ]
]

unfoldable pub net_seen_check_insert : ℕ → Flow → Seen → Bool × Seen
unfolding seen_from
net_seen_check_insert h f t = seen_from netseen_cap (h % netseen_cap) h f t

-- the state of net_scan between two lines
pub record Scan : Type 0 where
  pub cur_pid : ℕ
  pub cur_uid : ℕ
  pub cur_comm : Bytes
  pub cur_proto : Bytes
  pub seen : Seen
  pub printed : Bytes

module _ (color show_user : Bool) (user_of : ℕ → Bytes) where
  -- a command of at most 12 characters, or 11 of them and an ellipsis
  unfoldable pub trimmed_comm : Bytes → Bytes
  unfolding pad_right
  trimmed_comm comm =
      if ltb 12 (length comm)
      then take 11 comm ++ 0xe2 ∷ 0x80 ∷ 0xa6 ∷ []
      else pad_right 12 (if length comm == 0 then codes "?" else comm)

  unfoldable pub emit_user : ℕ → Bytes
  unfolding clr_text same_text
  emit_user uid =
      if show_user
      then clr_text color
          (if same_text (user_of uid) (codes "root") then codes "91" else codes "92")
          (take 79 (codes " <" ++ user_of uid ++ codes ">"))
      else []

  unfoldable pub net_emit : Flow → Bytes → ℕ → Bytes
  unfolding clr_text trimmed_comm emit_user join_host_port pad_left pad_right pid_text
  net_emit f comm uid =
      pad_left 7 (pid_text f.pid)
      ++ (b' ' ∷ clr_text color (codes "96") (trimmed_comm comm)
          ++ (emit_user uid
              ++ (b' ' ∷ clr_text color (codes "2") (pad_right 4 f.proto)
                  ++ (b' '
                        ∷ clr_text color (codes "32")
                            (take 95 (pad_right 30 (join_host_port f.src f.sport)))
                      ++ (b' '
                            ∷ (if length f.dst == 0 && f.dport == 0
                                then clr_text color (codes "2") (0xe2 ∷ 0x80 ∷ 0xa2 ∷ [])
                                else clr_text color (codes "36") (0xe2 ∷ 0x86 ∷ 0x92 ∷ []))
                          ++ (b' '
                                ∷ clr_text color (codes "33")
                                    (take 95 (pad_right 30 (join_host_port f.dst f.dport)))
                              ++ codes "\n"))))))

  unfoldable pub flow_of : Scan → Bytes → Flow
  unfolding split_conn split_host_port
  flow_of s body =
      let (src, dst) = split_conn body in
      let (sip, sport) = split_host_port src in
      let (dip, dport) = split_host_port dst in
      record {
        pid = s.cur_pid;
        proto = s.cur_proto;
        src = sip;
        sport = sport;
        dst = dip;
        dport = dport;
      }

  -- the case 'n'
  unfoldable pub scan_name : Bool → Bytes → Scan → Scan
  unfolding flow_of net_hash net_seen_check_insert net_emit
  scan_name seed_only [] s = s
  scan_name seed_only (c ∷ body) s =
      let f = flow_of s (c ∷ body) in
      let (already, seen) = net_seen_check_insert (net_hash f) f s.seen in
      if c == b'/' || length s.cur_proto == 0 || f.sport == 0 && f.dport == 0
      then s
      else if already || seed_only
      then record s { seen = seen }
      else record s { seen = seen; printed = s.printed ++ net_emit f s.cur_comm s.cur_uid }

  -- the switch over the first character
  unfoldable pub scan_field : Bool → ℕ → Bytes → Scan → Scan
  unfolding scan_name atoi strtoull
  scan_field seed_only c arg s =
      if c == b'p'
      then record s { cur_pid = atoi arg; cur_proto = []; cur_uid = 0 }
      else if c == b'c'
      then record s { cur_comm = take 63 arg }
      else if c == b'u'
      then record s { cur_uid = strtoull arg % 2 ^ 32 }
      else if c == b'f'
      then record s { cur_proto = [] }
      else if c == b'P'
      then record s { cur_proto = take 7 arg }
      else if c == b'n'
      then scan_name seed_only arg s
      else s

  -- a line, without its end
  unfoldable pub scan_line : Bool → Bytes → Scan → Scan
  unfolding scan_field
  scan_line seed_only [] s = s
  scan_line seed_only (c ∷ arg) s = if length arg == 0 then s else scan_field seed_only c arg s

  -- `while (L > 0 && (line[L - 1] == '\n' || line[L - 1] == '\r'))`
  unfoldable pub without_end : Bytes → Bytes
  without_end [] = []
  without_end (c ∷ s) = elim (without_end s) [
    | [] ↦ if c == 10 || c == 13 then [] else c ∷ []
    | d ∷ r ↦ c ∷ d ∷ r
  ]

  -- the loop of net_scan over the lines of lsof, of at most 4095 characters
  unfoldable pub scan_lines : Bool → List Bytes → Scan → Scan
  unfolding scan_line without_end cstr
  scan_lines seed_only [] s = s
  scan_lines seed_only (line ∷ lines) s =
      scan_lines seed_only lines (scan_line seed_only (without_end (cstr line)) s)

  -- net_scan on the output of lsof; what it knows of the process is fresh each time
  unfoldable pub net_scan : Bool → Bytes → Seen → Bytes → Scan
  unfolding scan_lines lines_from
  net_scan seed_only output seen printed =
      scan_lines seed_only (lines_from 4095 4095 [] output) (record {
        cur_pid = 0;
        cur_uid = 0;
        cur_comm = codes "?";
        cur_proto = [];
        seen = seen;
        printed = printed;
      })
