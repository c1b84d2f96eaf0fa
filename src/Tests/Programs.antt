-- ===== src/Tests/Programs.antt =====
-- Runs of src/core/main.cpp without arguments.
use fin_core_streaming_syste.Prelude.{ℕ, ◌+◌, [], ◌∷◌, codes, ok}
use fin_core_streaming_syste.Prelude.Int.{pos}
use fin_core_streaming_syste.Cli.Metrics.{ProcessSnapshot}
use fin_core_streaming_syste.Cli.Wiring.{Machine}
use fin_core_streaming_syste.Program.Interactive.{Start, main_interactive}
use fin_core_streaming_syste.Program.Interactive.Codes.{Ended, main_interactive-Ended}
use fin_core_streaming_syste.Tests.Databases as Databases
use fin_core_streaming_syste.Tests.Servers as Servers
use fin_core_streaming_syste.Tests.Sources.{web, printing}

abbrev snapshot : ProcessSnapshot
snapshot = record {
  user_cpu_us = pos 0;
  system_cpu_us = pos 0;
  current_rss_kb = pos 0;
  peak_rss_kb = pos 0;
  minor_faults = pos 0;
  major_faults = pos 0;
  voluntary_context_switches = pos 0;
  involuntary_context_switches = pos 0;
}

abbrev machine : Machine
machine = record {
  State = ℕ;
  steady_now = λ n. (pos n, n + 1);
  system_now = λ n. (pos n, n + 1);
  read_process_snapshot = λ n. (ok snapshot, n);
  sleep_ms = λ ms n. n + ms;
}

abbrev start : Start printing web Servers.server machine Databases.server
start = record { web = 5; redis = []; database = Databases.empty_db; machine = 0 }

main_interactive-Ended_example : Ended printing web Servers.server machine Databases.server start (
    main_interactive printing web Servers.server machine Databases.server start
      (codes "fetch AAPL" ∷ codes "exit" ∷ []))
main_interactive-Ended_example =
    main_interactive-Ended printing web Servers.server machine Databases.server start
      (codes "fetch AAPL" ∷ codes "exit" ∷ [])
