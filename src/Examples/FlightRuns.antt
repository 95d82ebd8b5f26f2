-- ===== src/Examples/FlightRuns.antt =====
-- The queries in flight of c/dns.c: a query of id 7, and two responses to it.
use tracep.Base.{Option, [], arith, none, refl, some, ℕ, ◌∷◌, ◌≡◌}
use tracep.Dns.Attribution.{
  Arrival, CacheEnt, Filters, Tracker, emit, handle_packet, handle_packets, look_up, note_query,
  note_response, pending_of, proc_lookup, report_of, shown,
}
use tracep.Dns.Attribution.Cache.{proc_lookup-look_up}
use tracep.Dns.Attribution.Flight.{handle_packets-response}
use tracep.Dns.Json.{double_quote, json_byte, json_escape, json_onto}
use tracep.Dns.Json.Reading.{in_text, json_bytes, json_text, json_text-json_escape}
use tracep.Dns.Message.{qtype_str}
use tracep.Memory.{Bytes, cstr, print_s}
use tracep.Text.{codes}

abbrev nobody : ℕ → ℕ × Bytes
nobody port = (0, codes "?")

abbrev curl : ℕ → ℕ × Bytes
curl port = (31, codes "curl")

abbrev no_cache : ℕ → Option CacheEnt
no_cache port = none

proc_lookup-look_up_example :
    proc_lookup nobody (look_up curl no_cache 4000 5).0 4000 9 ≡ look_up curl no_cache 4000 5
proc_lookup-look_up_example = proc_lookup-look_up curl nobody no_cache 4000 5 9 (omega arith)

abbrev arrival : ℕ → ℕ → ℕ → ℕ → Arrival
arrival flags src dst now = record {
  packet = record {
    src = src;
    dst = dst;
    msg = record { id = 7; flags = flags; qtype = 1; question = codes "a.b"; answers = [] };
  };
  owner = curl;
  looked = now;
  now = now;
}

abbrev calm : Tracker
calm = record { cache = no_cache; pending = λ i. none; reports = [] }

abbrev no_filters : Filters
no_filters = record { names = []; pids = []; types = []; domain_text = [] }

abbrev query : Arrival
query = arrival 256 4000 53 10

abbrev response : Arrival
response = arrival 0x8180 53 4000 30

reports_run :
    (handle_packets no_filters calm (query ∷ response ∷ response ∷ [])).reports
    ≡ record {
      query = codes "a.b";
      qtype = codes "A";
      pid = 31;
      name = codes "curl";
      response = response.packet.msg;
      latency = 20;
    }
      ∷ []
unfolding handle_packets handle_packet note_response note_query shown report_of pending_of print_s
    proc_lookup look_up qtype_str
reports_run = refl

handle_packets-response_example :
    ((handle_packet no_filters
        (handle_packets no_filters (handle_packet no_filters calm query) [])
        response).reports
      ≡ emit no_filters
          (handle_packets no_filters (handle_packet no_filters calm query) []).reports
          (report_of
            (pending_of query
              (proc_lookup curl no_cache 4000 10).1
              (proc_lookup curl no_cache 4000 10).2)
            response))
    × (handle_packet no_filters
          (handle_packets no_filters
            (handle_packet no_filters
              (handle_packets no_filters (handle_packet no_filters calm query) [])
              response)
            [])
          response
        ≡ handle_packets no_filters
            (handle_packet no_filters
              (handle_packets no_filters (handle_packet no_filters calm query) [])
              response)
            [])
handle_packets-response_example =
    handle_packets-response no_filters calm query response response [] [] (refl, refl) (refl, refl)
      (refl, refl) refl refl tt tt

-- a letter, a quote and a newline
abbrev awkward : Bytes
awkward = b'a' ∷ double_quote ∷ b'\n' ∷ []

json_escape_run : json_escape 600 awkward ≡ b'a' ∷ b'\\' ∷ double_quote ∷ codes "\\u000a"
unfolding json_escape json_onto cstr json_byte
json_escape_run = refl

json_text-json_escape_example : json_text in_text (json_escape 600 awkward) ≡ some awkward
unfolding json_bytes cstr json_byte
json_text-json_escape_example = json_text-json_escape 600 awkward (omega arith)
