-- ===== src/Lib.antt =====
-- tracep: the C port of a tracer for Linux and macOS with five subcommands: `ca` finds the TLS
-- certificates of a host, `dns`, `net`, `exec` and `tls` watch what the processes of the machine do.
-- c/tracep.c picks the subcommand, c/common.c colours and quotes what all of them print, and each
-- subcommand is one file that keeps its state in static variables and runs one loop over events.
-- This library models the parts that decide what a report says, and that read bytes from outside.
--
-- The parts and where they stand:
--   Base, Memory, Int, Text: what the models share. A buffer is the list of its bytes, and each load
--     has one of three outcomes: `ok`, `fault` for an access outside the buffer or through NULL, and `spin`
--     for a loop that has used its rounds. Text holds decimal numbers and strtol.
--   Common: c/common.c: want_color, the pools of buffers, clr and shquote. Common/Rotation is about
--     the pools, Common/Quoting about shquote.
--   Dns.Name: read_name of c/dns.c, the domain names of the wire format with their pointers.
--   Dns.Message: parse_dns, add_answer, qtype_str and rcode_str of c/dns.c, over read_name.
--   Dns.Packet: parse_packet of c/dns.c, which takes the Ethernet, IP and UDP headers off a frame and
--     hands the rest to parse_dns.
--   Dns.Attribution: the rest of the loop of dns_main: proc_lookup and its cache, the queries in flight
--     by id, the filters of emit. It takes the packets of Dns.Packet.
--   Dns.Json: json_escape of c/dns.c, and a reader of JSON strings to hold it against.
--   PidTable: piddb_find, piddb_get and piddb_delete of c/exec.c, and their twins macdb_find,
--     macdb_get and macdb_delete, generic in what an entry holds.
--   Exec.Files, Exec.Ancestry: what c/exec.c reads of a process in /proc on Linux (readCmdline,
--     readEnviron, readComm, readFirstArg, statPPID), and pidDepth, the depth below a watched process.
--   Exec.Line: the lines of c/exec.c: indentStr, sigName, printExec, buildExecedLine, and the line of
--     an exit. Colour codes and quotes are those of Common.
--   Exec.Events: handleExec and handleExit, over PidTable, Exec.Ancestry and Exec.Line. Exec.Netlink:
--     dispatchNlMsg, which finds the events in a buffer and calls the handlers.
--   Exec.Procargs, Exec.Mac: c/exec.c on macOS: pidArgvEnv, macPidDepth, macEmitExec, macEmitExit,
--     seedMacDB and scanMacDB, over PidTable and the lines of Exec.Line.
--   Net.Attrs, Net.Messages: parse_nla, parse_tuple, parse_tcp_state and process_nl_msgs of c/net.c on
--     Linux: netlink attributes, and the walk over the messages of a buffer. Net.Messages puts all of
--     the following together.
--   Net.Chains: str_hash, db_get, db_put and db_delete of c/net.c, for any entry that has a key.
--     Net.Chains.Maps holds them against a map. Net.Reverse: the cache of host names over it.
--   Net.Owner, Net.Watch: the socket tables of /proc/net (parse_hex_ipv4, parse_hex_ipv6,
--     read_proc_net_file, find_inode_with_dir), and which processes are watched (stat_ppid,
--     is_descendant, is_watched).
--   Net.Line, Net.Events: tuple_key and print_event, and the handlers handle_new, handle_update and
--     handle_destroy, over Net.Chains.
--   Net.Lsof: c/net.c on macOS from the output of lsof on: split_conn, split_host_port, join_host_port,
--     net_hash, net_seen_check_insert, net_emit and net_scan. The user of a process is a parameter.
--   Tls.Names, Tls.Address, Tls.Events: c/tls.c from a parsed trace event on: the server names of the
--     pids, the remote address from /proc/net, the table of seen connections and the lines.
--   Ca.Flags, Ca.Url, Ca.Response, Ca.Fetch: c/ca.c: match_flag, parse_bool and the flag loop of ca_main;
--     url_split; what http_get_once reads of an answer; http_get_once and fetch_der_cert with the
--     redirects. Ca.Chain, Ca.Main: the certificates, and ca_main as a whole over the others.
--   Dispatch: main of c/tracep.c, which picks the subcommand and its arguments.
--   Examples: runs on concrete packets, texts and tables.
--
-- Conventions: unsigned integers are natural numbers below their width, with wrap-around written
-- out where the code can reach it; a signed sum or difference that overflows wraps around too, as
-- the compilers have it (left_of and minus32 of Net.Messages, av_places of Exec.Procargs). A C
-- string is the bytes in front of its NUL. The result of malloc is taken not to be NULL, but where
-- the size comes from a negative int (Exec.Procargs). A `return -1` or `return false` is `none`.
--
-- Loops: the questions, answers, labels and probes are counted by the code itself, and so are the
-- ten redirects of Ca.Fetch. The other loops are not, and get rounds: read_name gets one more than
-- the message has bytes, since a longer run comes twice to the same offset; the strings of a TXT
-- record get one more than the record has bytes, since each round moves on; the loop of
-- piddb_delete gets one round for each slot, since it stops at a free one; dispatchNlMsg gets one
-- for each 16 bytes and one more, since no message is shorter; pidDepth gets more than a rank of
-- the pid that is smaller for its parent, as an age is, and so does macPidDepth; parse_nla gets
-- one for each 4 bytes and one more, and process_nl_msgs one for each 16; the header lines of an
-- HTTP answer get one more than the header has characters. is_descendant of c/net.c counts the
-- places of its array.
--
-- inet_ntop is a parameter: a function from a family and the bytes of an address to its text, or
-- none, and in c/net.c and c/tls.c from the bytes to the text. Only Net.Line.Keys supposes something
-- of it. Parameters are also the texts of seconds and of the time of day, which the sources compute
-- through doubles and localtime_r, what getnameinfo says of an address, and what the system shows of a
-- process at the time of an event (Exec.Line.Process, Net.Events.World, Tls.Events.Sockets). Threads:
-- the workers of dns_worker end at any time, as steps of their own (Net.Reverse).
--
-- Not modelled: sockets, BPF, netlink and the other system calls, how the DNS reports are printed, the
-- flag loops of dns, exec, net and tls, the search for the owner of a port (a function of the model),
-- the macOS backends but for c/exec.c and the lines of c/net.c, the probes of c/tls.c and its regular
-- expressions. The sockets and OpenSSL calls of c/ca.c are parameters: the record
-- Ca.Chain.X509 and functions of Ca.Fetch and Ca.Main. internal/ and main.go are an implementation of
-- the same tracer in Go.
pub mod Base
pub mod Memory
pub mod Int
pub mod Text
pub mod Common
pub mod PidTable
pub mod Exec
pub mod Dns
pub mod Net
pub mod Tls
pub mod Ca
pub mod Dispatch
pub mod Examples
