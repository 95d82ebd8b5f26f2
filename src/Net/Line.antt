-- ===== src/Net/Line.antt =====
-- The texts and the line of c/net.c on Linux: tcp_state_name, ip_str, tuple_key, proto_str, dir_arrow
-- and print_event. inet_ntop is a parameter, of the 4 or 16 bytes of an address. The user of a process
-- comes from system calls, and the host from async_reverse_lookup.
pub mod Keys
use Prim.Native.Char.{code}
use tracep.Base.{
  Bool, List, [], get_elem?, if◌then◌else◌, length, none, not, replicate, some, take, ℕ, ◌&&◌, ◌++◌,
  ◌-◌, ◌==◌, ◌||◌, ◌∷◌,
}
use tracep.Common.{clr_text}
use tracep.Memory.{Bytes}
use tracep.Net.Attrs.{ConnTuple}
use tracep.Net.Owner.{Direction, inbound, outbound, unknown}
use tracep.Net.Watch.{is_above}
use tracep.Text.{codes, decimal, same_text}

-- `%5d` and `%-12s`: spaces in front of a text, or behind it, up to a width
unfoldable pub pad_left : ℕ → Bytes → Bytes
pad_left width s = replicate (width - length s) b' ' ++ s

unfoldable pub pad_right : ℕ → Bytes → Bytes
pad_right width s = s ++ replicate (width - length s) b' '

abbrev pub tcp_state_names : List Bytes
tcp_state_names =
    codes "NONE"
    ∷ codes "SYN_SENT"
    ∷ codes "SYN_RECV"
    ∷ codes "ESTABLISHED"
    ∷ codes "FIN_WAIT"
    ∷ codes "CLOSE_WAIT"
    ∷ codes "LAST_ACK"
    ∷ codes "TIME_WAIT"
    ∷ codes "CLOSE"
    ∷ codes "LISTEN"
    ∷ codes "MAX"
    ∷ codes "IGNORE"
    ∷ []

unfoldable pub tcp_state_name : ℕ → Bytes
unfolding decimal
tcp_state_name s = elim (get_elem? tcp_state_names s) [
  | some name ↦ name
  | none ↦ take 15 (codes "STATE" ++ decimal s)
]

unfoldable pub proto_str : ℕ → Bytes
unfolding decimal
proto_str proto =
    if proto == 6
    then codes "TCP"
    else if proto == 17
    then codes "UDP"
    else if proto == 1
    then codes "ICMP"
    else take 15 (codes "IP" ++ decimal proto)

-- the UTF-8 of an arrow
unfoldable pub dir_arrow : Direction → Bytes
dir_arrow outbound = 0xe2 ∷ 0x86 ∷ 0x92 ∷ []
dir_arrow inbound = 0xe2 ∷ 0x86 ∷ 0x90 ∷ []
dir_arrow unknown = 0xe2 ∷ 0x86 ∷ 0x94 ∷ []

-- the `event` of print_event
pub data EventKind : Type 0 where
  fresh_conn : EventKind
  updated : EventKind
  closed : EventKind

-- the flags
pub record NetOptions : Type 0 where
  pub show_close : Bool
  pub show_update : Bool
  pub show_user : Bool
  pub show_reverse : Bool
  pub ipv4_only : Bool
  pub ipv6_only : Bool
  pub outbound_only : Bool
  pub color : Bool

module _ (inet_ntop : Bytes → Bytes) where
  unfoldable pub ip_str : Bytes → Bytes
  ip_str ip = if length ip == 4 || length ip == 16 then inet_ntop ip else codes "?"

  -- `%s:%d` of an address and a port
  unfoldable pub end_text : Bytes → ℕ → Bytes
  unfolding ip_str decimal
  end_text ip port = ip_str ip ++ b':' ∷ decimal port

  unfoldable pub tuple_key : ConnTuple → Bytes
  unfolding end_text decimal
  tuple_key t = take 159 (
      end_text t.src_ip t.src_port
      ++ (b'|' ∷ end_text t.dst_ip t.dst_port ++ (b'|' ∷ decimal t.proto)))

  -- the address that -r looks up
  unfoldable pub peer_text : ConnTuple → Direction → Bytes
  unfolding ip_str
  peer_text t inbound = ip_str t.src_ip
  peer_text t outbound = ip_str t.dst_ip
  peer_text t unknown = ip_str t.dst_ip

  module _ (o : NetOptions) where
    unfoldable pub mark : EventKind → Direction → Bytes
    unfolding clr_text dir_arrow
    mark closed dir = clr_text o.color (codes "31") (0xc3 ∷ 0x97 ∷ [])
    mark updated dir = clr_text o.color (codes "35") (0xe2 ∷ 0x87 ∷ 0x92 ∷ [])
    mark fresh_conn dir = clr_text o.color (codes "36") (dir_arrow dir)

    unfoldable pub pid_column : ℕ → Bytes
    unfolding clr_text pad_left decimal
    pid_column pid =
        if is_above 0 pid
        then clr_text o.color (codes "33") (take 15 (pad_left 5 (decimal pid)))
        else clr_text o.color (codes "2") (codes "    ?")

    unfoldable pub comm_column : Bytes → Bytes
    unfolding clr_text pad_right
    comm_column comm =
        clr_text o.color (if length comm == 0 then codes "2" else codes "96")
          (take 63 (pad_right 12 (if length comm == 0 then codes "?" else comm)))

    unfoldable pub user_column : Bytes → ℕ → Bytes
    unfolding clr_text same_text
    user_column user pid =
        if o.show_user && is_above 0 pid
        then clr_text o.color (if same_text user (codes "root") then codes "91" else codes "92")
            (take 279 (codes " <" ++ user ++ codes ">"))
        else []

    -- an address of 24 columns
    unfoldable pub end_column : Bytes → Bytes → ℕ → Bytes
    unfolding clr_text pad_right end_text
    end_column code ip port =
        clr_text o.color code (take 79 (pad_right 24 (take 63 (end_text ip port))))

    unfoldable pub host_column : Bytes → Bytes
    unfolding clr_text
    host_column host =
        if o.show_reverse && not (length host == 0)
        then clr_text o.color (codes "2") (take 299 (codes " [" ++ host ++ codes "]"))
        else []

    unfoldable pub extra_column : Bytes → Bytes
    unfolding clr_text
    extra_column extra =
        if length extra == 0 then [] else b' ' ∷ clr_text o.color (codes "36") extra

    -- print_event, with the host that the lookup gives
    unfoldable pub print_event :
        ConnTuple → ℕ → Bytes → Bytes → Direction → EventKind → Bytes → Bytes → Bytes
    unfolding mark pid_column comm_column user_column end_column host_column extra_column proto_str
        clr_text pad_right
    print_event t pid comm user dir event extra host =
        pid_column pid
        ++ (b' ' ∷ comm_column comm
            ++ (user_column user pid
                ++ (b' ' ∷ clr_text o.color (codes "2") (take 15 (pad_right 4 (proto_str t.proto)))
                    ++ (b' ' ∷ end_column (codes "32") t.src_ip t.src_port
                        ++ (b' ' ∷ mark event dir
                            ++ (b' ' ∷ end_column (codes "33") t.dst_ip t.dst_port
                                ++ (host_column host ++ (extra_column extra ++ codes "\n"))))))))
