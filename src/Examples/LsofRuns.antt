-- ===== src/Examples/LsofRuns.antt =====
-- c/net.c on macOS at concrete inputs.
use tracep.Base.{[], ap, arith, false, length, none, refl, ◌++◌, ◌∷◌, ◌≡◌}
use tracep.Memory.{Bytes}
use tracep.Net.Lsof.{join_host_port, split_host_port}
use tracep.Net.Lsof.Ends.{split_host_port-join_host_port}
use tracep.Net.Lsof.Scan.{net_scan}
use tracep.Text.{codes}

abbrev ip : Bytes
ip = codes "::1"

split_host_port-join_host_port_example : split_host_port (join_host_port ip 443) ≡ (ip, 443)
split_host_port-join_host_port_example =
    split_host_port-join_host_port ip
      (record {
        filled = omega arith;
        short = omega arith;
        no_star = λ e. omega (arith, ap length e);
        plain = omega arith;
      })
      443 (omega arith)

abbrev lsof_output : Bytes
lsof_output =
    codes "p77\ncfirefox\nu501\nf12\nPTCP\nn10.0.0.2:5000->10.0.0.1:443\nf13\nPUDP\nn*:*\n"

abbrev scan_once : Bytes
scan_once = (net_scan false false (λ u. codes "me") false lsof_output (λ i. none) []).printed

scan_run :
    scan_once
    ≡ codes "     77 firefox      TCP  10.0.0.2:5000                  "
      ++ (0xe2 ∷ 0x86 ∷ 0x92 ∷ codes " 10.0.0.1:443                  \n")
unfolding net_scan
scan_run = refl
