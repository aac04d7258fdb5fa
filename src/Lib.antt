-- ===== src/Lib.antt =====
-- Process Deck: a supervisor of local processes with a terminal client.
--
-- A YAML file names processes, their commands and what they depend on (internal/config). The
-- supervisor (internal/supervisor) launches them in dependency order through a runner for each
-- (internal/process), waits for their ends, restarts them after a backoff, stops them in reverse
-- order, and keeps the last lines that each has written in a ring (internal/logbuf). It lives in a
-- process of its own behind a socket (internal/session), and passes every change on to the one client
-- that is attached as an event. The client is a terminal interface (internal/tui), which keeps the
-- lines of the selected process in a cache and asks for a batch of lines where an event does not fit,
-- or it only prints (cmd/procdeck).
--
-- Files:
--   Base         tests on numbers, lists, Go strings as lists of code points, results with an error
--   LogBuf       internal/logbuf/ring.go: `Ring`, `new`, `add`, `retained_items` (Items), `state`,
--                `items_since`; Inv has the well-formedness, Contents the view as a list, Since what
--                a reader with a cursor is given
--   Graph        internal/supervisor/graph.go: `validate_graph`, `startup_layers`,
--                `reverse_dependency_order`, `dependents_of`; Paths, Marking, Visit, Checks and Acyclic
--                carry the proof about the depth-first search, Valid, Layers and Order the theorems
--   Config       internal/config/config.go, and validate.go in Validate; Accepted has what an accepted
--                file satisfies; Load has load.go and env_files.go
--   EnvFile      internal/process/env_file.go: `parse_env_file` and all below it; Lines relates a
--                result to the lines, Trimming and Quoting carry the proof of RoundTrip
--   Runner       internal/process: `ParseSignal` and the records of runner.go; Command has
--                `buildCommand` and `buildEnv`, Group the stop of a process group with the calls of
--                process_darwin.go, Logs the capture of output (logs.go)
--   Supervisor   internal/supervisor: state.go, events.go and the state of supervisor.go; Resolve has
--                the options of a process, Sections what concerns one process, Commands the commands
--                of a client, Lifecycle `Run` and what a client reads; Inv is the invariant with its
--                proofs, Steps the interleaving of the sections, Steps/Shutdown the end,
--                StopOrder the processes that a stop takes along, Stopping what it
--                leaves
--   Session      internal/session/protocol.go; Client is client.go, Server server.go with the answers
--                to requests in Handle and the interleaving in Steps, Launch launch.go; Messages,
--                Delivery, Ordered and Reached carry the invariant of the server, Client/Reading
--                composes server and client
--   Tui          internal/tui/model.go: Update has `Update` and its handlers, Keys the keys, Scroll
--                the scrolling, Cache the log cache with Sync and Delivery about it, Layout the column
--                widths and the visible range, Escape the removal of escape sequences, Numbers the
--                arithmetic on uint32; their children have the bounds, the search and the selection
--   Main         cmd/procdeck/main.go: `run_headless` and the events that it prints, `print_dry_run`;
--                Run has the flow of `run`; Places is about the cursors of printed lines, Headless
--                about the loop, Run/Planned about a dry run
--
-- How the code is read: a critical section, the code between `Lock` and `Unlock` of `mu`, is one
-- function from a state to a state; the events that it sends are appended to the state. A goroutine
-- that waits is an entry of the state: `waiting` has the runs whose end `waitProcess` waits for,
-- `backing_off` the restarts whose timer runs. Steps has one constructor for each section, so a
-- sequence of steps is an interleaving of the goroutines. The clock is an argument of each section. The
-- mutex `opsMu` only excludes interleavings, and the steps do not rely on it. A launch and the sections
-- around it are one step. The server of a session is read in the same way: its Steps has the sections
-- of `attach` and `serve`, each message that a writer takes, and the steps of the supervisor below it.
-- `sent` is what a writer has written to its connection; the JSON between the two ends is taken to arrive
-- as it was sent. A `select` of the server of which two branches are ready takes either by an argument; a
-- client that was closed takes the close.
--
-- Bounds: a list is as long as it has to be; the revision of a ring and the generation of a process
-- wrap at 2 ^ 64, the scroll offsets are reduced by 2 ^ 32, and an `int` that only counts is a natural
-- number. The depth-first search of `validate_graph` and the loop of `startup_layers` have as fuel one
-- more than the number of processes, since each call marks a process and each round places one; the
-- theorems show that they never use it up. `stop_order` has two more than that number. The inner loop of
-- `scanLines` has the number of pending bytes, of which every round sends at least one; its limit is an
-- argument and 1024 * 1024 in `scan_lines`. The queue of an attachment has room for 1024 messages, and
-- where it is full a sender waits, which is a step that has no result. A wait for a process group ends
-- with its timer, after a number of ticks that `Os` has for it.
--
-- Arguments of the model are the code that is not in the repository: `time.ParseDuration`,
-- `strconv.Unquote`, the functions of `filepath`, the environment, the answers of the file system and of
-- the YAML decoder, the lines of a `bufio.Scanner` and what `ReadSlice` returns in turn, the answers of
-- `kill`, `flock`, `lstat` and `mkdir`, of a dial and of the launch of a supervisor (`Os`, the records
-- `Host`, `Paths`), what a runner answers to a launch and to a stop (`Launch`, `Stops`), the text of an
-- error (`Message`), and the widths and line breaks of the terminal library (`Measures`). `handle` has the
-- commands of the supervisor as an argument, since each takes several of its steps. A map of Go is an
-- association list, which the source sorts wherever the order of its keys can be seen.
--
-- Not modelled, as they only call the operating system or a library: the start of a process with its pipes
-- or terminal (`Start` of internal/process), the decoding of YAML, the pipes, sockets and deadlines of
-- internal/session (`launch`, `RunWorker`, `accept`), the drawing of the client, and the parsing of
-- flags.
pub mod Base
pub mod LogBuf
pub mod Graph
pub mod Config
pub mod EnvFile
pub mod Runner
pub mod Supervisor
pub mod Session
pub mod Tui
pub mod Main
