-- ===== src/Tests/Remote.antt =====
-- A server with one file, reached by the three remote connectors.
use file_pubsub.Base.{
  ℕ, zero, suc, refl, Bool, true, false, some, List, [], ◌∷◌, string_eq, ◌≡◌, map, ok,
}
use file_pubsub.Base.Int.{pos}
use file_pubsub.Base.Text.{has_slash}
use file_pubsub.Config.{Source}
use file_pubsub.Source.{validate_name}
use file_pubsub.Source.Listing.{parse_scp_list}
use file_pubsub.Source.Listing.Numerals.{lacks}
use file_pubsub.Source.Listing.Read.{StatLine, print_lines, info_of, parse_scp_list-print_lines}
use file_pubsub.Store.Atomic.{file}
use file_pubsub.Source.Download.{Copy, Server, Session, closed, download_and_close}
use file_pubsub.Source.Download.Closed.{ClosedSpec, download_and_close_lem}
use file_pubsub.Source.Download.Whole.{DownloadSpec}
use file_pubsub.Source.Sessions.{
  sftp, Request, list, fetch, remove, serve_all, close_connector, IsShut, fetch_by,
}
use file_pubsub.Source.Sessions.Fetches.{FetchSpec, fetch_by_lem}
use file_pubsub.Source.Sessions.Idle.{close_connector-serve_all}

abbrev content : Copy
content = record { bytes = 7 ∷ 8 ∷ []; broken = false }

-- The fourth call fails.
abbrev fourth : ℕ → Bool
fourth (suc (suc (suc zero))) = true
fourth n = false

abbrev server : (ℕ → Bool) → Server
server fault = record {
  fault = fault;
  canceled = λ n. false;
  entries = λ n. [];
  output = λ n. "";
  size = λ n name. some (pos 2);
  copy = λ n name. content;
}

abbrev source : Source
source = record {
  kind = "sftp";
  host = "host";
  port = pos 0;
  directory = "/out";
  original_file_handling = "delete";
  stability_interval = pos 0;
  exclude_patterns = [];
  auth = record { username = "u"; password = "p"; key_file = "" };
  completion = record { mode = ""; suffix = "" };
  fallback_poll_interval = pos 0;
}

abbrev fresh : Session
fresh = record {
  calls = 0;
  dir = ("other", file (1 ∷ [])) ∷ [];
  link = record { connected = false; subsystem = false; connections = 0 };
  dialed = [];
  response = closed false;
  closes = 0;
  removed = [];
}

abbrev requests : List Request
requests = list ∷ fetch "a.csv" ∷ remove "a.csv" ∷ []

fetch_by_lem_example :
    let r = fetch_by (server (λ n. false)) source true sftp "a.csv" fresh in
    FetchSpec (server (λ n. false)) source true sftp "a.csv" fresh.dir r.0 r.1.dir
fetch_by_lem_example = fetch_by_lem (server (λ n. false)) source true sftp "a.csv" fresh

close_connector-serve_all_example :
    IsShut
      (close_connector
        (server fourth)
        source
        true
        sftp
        (serve_all (server fourth) source true sftp requests fresh)).1
close_connector-serve_all_example =
    close_connector-serve_all (server fourth) source true sftp requests fresh ((refl, refl), refl)

download_and_close_lem_example :
    let r = download_and_close (server fourth) "a.csv" content (pos 2) fresh in
    ClosedSpec (server fourth) "a.csv" content (pos 2) 0 r.0 r.1.response r.1.closes
    × DownloadSpec (server fourth) "a.csv" content (pos 2) fresh.dir r.0 r.1.dir
download_and_close_lem_example =
    download_and_close_lem (server fourth) "a.csv" content (pos 2) fresh

abbrev lines : List StatLine
lines =
    record { size = 2; mtime = 1700000000; name = "a b.csv" }
    ∷ record { size = 0; mtime = 0; name = "c.csv" }
    ∷ []

parse_scp_list-print_lines_example : parse_scp_list (print_lines lines) ≡ ok (map info_of lines)
unfolding lacks validate_name has_slash
parse_scp_list-print_lines_example =
    parse_scp_list-print_lines lines ((refl, refl, refl, refl), ((refl, refl, refl, refl), tt))
