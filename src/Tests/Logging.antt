-- ===== src/Tests/Logging.antt =====
-- The theorems about the log at short runs.
use virtual_blackboard.Prelude.{
  ◌≡◌, ◌-◌, refl, true, List, [], ◌∷◌, length, take, ℕ, false, Outcome, ok, exited, Returns, arith,
}
use virtual_blackboard.Net.Strings.{codes, strlen}
use virtual_blackboard.Server.Logging.{
  Log, Event, logs, turns, run, happen, log_message, write_mq, logger_round, read_mq, transfer,
  line_of, line,
}
use virtual_blackboard.Client.Print.{decimal}
use virtual_blackboard.Server.Logging.Order.{logged, rounds, lines, burst, run-lines, run-burst}

-- An error and a debug message, of which the logger has read the first.
abbrev two_calls : List Event
two_calls = logs 1 (codes "full") 7 ∷ logs 3 (codes "ok") 8 ∷ turns [] ∷ []

run-lines_example :
    Returns
      (λ l.
        (l.file ≡ lines true (take (rounds two_calls) (logged two_calls)))
        × (length l.queue ≡ length (logged two_calls) - rounds two_calls))
      (run 16384 true two_calls (record { queue = []; file = [] }))
run-lines_example = run-lines 16384 true two_calls (omega arith) refl

run-burst_example :
    run 510 true (burst 3 2 (codes "hi") 7) (record { queue = []; file = [] }) ≡ exited
run-burst_example =
    run-burst 510 true 3 2 (codes "hi") 7 (record { queue = []; file = [] }) (omega arith)
      (omega arith) (omega arith)

-- In debug mode, and without it.
two_turns : List Event
two_turns = logs 3 (codes "ok") 8 ∷ logs 1 (codes "full") 17 ∷ turns [] ∷ turns [] ∷ []

file_of : Outcome Log → List ℕ
file_of (ok l) = l.file
file_of other = []

two_turns_debug :
    file_of (run 16384 true two_turns (record { queue = []; file = [] }))
    ≡ codes "[DEBUG] 8 ok \n[ERROR] 17 full \n"
unfolding file_of two_turns run happen log_message write_mq logger_round read_mq transfer line_of
    line decimal strlen
two_turns_debug = refl

two_turns_quiet :
    file_of (run 16384 false two_turns (record { queue = []; file = [] }))
    ≡ codes "[ERROR] 17 full \n"
unfolding file_of two_turns run happen log_message write_mq logger_round read_mq transfer line_of
    line decimal strlen
two_turns_quiet = refl
