-- ===== src/Examples/TlsRuns.antt =====
-- c/tls.c and c/tracep.c at concrete inputs.
use tracep.Base.{
  Option, [], arith, false, if◌then◌else◌, length, none, refl, replicate, some, ℕ, ◌&&◌, ◌==◌, ◌||◌,
  ◌∷◌, ◌≡◌, ◌≢◌,
}
use tracep.Dispatch.{main, net_main, run_sub, show_usage, unknown_command}
use tracep.Memory.{Bytes}
use tracep.Net.Owner.Digits.{hex_word}
use tracep.Text.{codes}
use tracep.Text.Hex.{begins_with_hex, cut_at, digit_value, hex_digits, read_hex, skip_prefix}
use tracep.Tls.Address.{hex_end, ipv4_of, pair_bytes, port_of}
use tracep.Tls.Address.Reversed.{hex_end-hex_word, hex_port}
use tracep.Tls.Events.{
  Dir, Sockets, TlsEvent, TlsState, conn_key, conn_mark, read_dir, remote_host, run_events,
  show_tls, write_dir,
}
use tracep.Tls.Events.Once.{has_room, show_tls-run_events}
use tracep.Tls.Names.{SniSlots, get_sni, max_sni, set_sni}
use tracep.Tls.Names.Kept.{HasRoom, get_sni-set_sni}

main_run :
    main (codes "./tracep" ∷ codes "net" ∷ codes "-t" ∷ [])
    ≡ run_sub net_main (codes "tracep net" ∷ codes "-t" ∷ [])
unfolding main
main_run = refl

main_unknown : main (codes "./tracep" ∷ codes "ps" ∷ []) ≡ unknown_command (codes "ps")
unfolding main
main_unknown = refl

main_alone : main (codes "./tracep" ∷ []) ≡ show_usage 2
unfolding main
main_alone = refl

hex_end-hex_word_example : hex_end (hex_word 10 0 0 2 (b':' ∷ hex_port 443)) false ≡ (
    if 2 == 127 || 2 == 0 && (0 == 0 && (0 == 0 && 10 == 0))
    then none
    else some (2 ∷ 0 ∷ 0 ∷ 10 ∷ [], 443))
hex_end-hex_word_example =
    hex_end-hex_word 10 0 0 2 (omega arith) (omega arith) (omega arith) (omega arith) 443
      (omega arith) (omega arith)

-- 127.0.0.1 is not seen as loopback.
loopback_run : hex_end (codes "0100007F:01BB") false ≡ some (1 ∷ 0 ∷ 0 ∷ 127 ∷ [], 443)
unfolding hex_end cut_at port_of pair_bytes ipv4_of hex_digits begins_with_hex digit_value read_hex
    skip_prefix
loopback_run = refl

abbrev no_names : SniSlots
no_names = replicate 1024 none

length-no_names : length no_names ≡ max_sni
length-no_names = refl

get_sni-set_sni_example :
    (get_sni 7 (set_sni 7 (codes "a.org") no_names) ≡ codes "a.org")
    × ((q : ℕ)
        → q ≢ 7
        → HasRoom 7 no_names
        → get_sni q (set_sni 7 (codes "a.org") no_names) ≡ get_sni q no_names)
get_sni-set_sni_example = get_sni-set_sni 7 (codes "a.org") no_names length-no_names

abbrev ntop : Bytes → Bytes
ntop ip = codes "9.9.9.9"

abbrev nameless : Bytes → Option Bytes
nameless ip = none

abbrev sockets : Sockets
sockets = record { tcp6 = none; tcp = none }

abbrev event : Dir → Bytes → TlsEvent
event dir sni = record {
  comm = codes "curl";
  pid = 7;
  time = codes "12:00:00.000";
  probe_name = codes "tls_write_SSL_write";
  dir = dir;
  sni = sni;
}

abbrev tls_start : TlsState
tls_start = record { names = []; seen = λ i. none; counter = 0; printed = [] }

show_tls-run_events_example :
    let s' =
      run_events ntop nameless false [] []
        (show_tls ntop nameless false [] sockets (event write_dir []) tls_start) in
    (show_tls ntop nameless false [] sockets (event read_dir []) s').printed ≡ s'.printed
unfolding run_events show_tls conn_mark has_room remote_host conn_key
show_tls-run_events_example =
    show_tls-run_events ntop nameless false [] sockets sockets (event write_dir [])
      (event read_dir []) [] tls_start refl refl
