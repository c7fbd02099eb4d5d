-- ===== src/Lib.antt =====
-- Verification of the Atomyx core runtime (core/internal): the script engine's expression language,
-- the resolution of elements in UI trees, the waits for them and the scrolling to them, the launching
-- of apps, the runner of scripts, the groups and suites of scripts, the frames of the simulator's
-- helper, and the store of test runs.
--
-- core/internal/script/expression is modelled file by file under Expression:
--   tokenize.go, token.go  Expression/Utf16, Token, Tokenize (Chars, Scan). A cursor into the slice of
--                          UTF-16 code units is the suffix that begins there with its offset.
--   parse.go, ast.go       Expression/Ast, Parse (Levels, Methods). The parser's state is the list of
--                          tokens from the current one on; reading beyond it is the outcome `panic`.
--   eval.go, value.go      Expression/Value, Eval (Messages, Cast, Run).
--   jsnumber.go            Expression/FormatNumber, with strconv's Atoi and Itoa in Expression/Decimal.
--
-- core/internal/wire/tree_node.go is Wire; core/internal/orchestra works on these trees:
--   cursor.go              Orchestra/Cursor. The stack of `Walk` is a list, its top first.
--   pattern.go             Orchestra/Pattern (Scan). What it uses of the packages regexp and encoding/json is
--                          a parameter; what is assumed of them is RoundTrip.KeepsText.
--   filter.go              Orchestra/Filter.
--   selector.go, priority_broadening.go
--                          Orchestra/Selector (Compile). `sort.SliceStable` is insertion sort.
--   overlay_filter.go      Orchestra/Overlay.
--   obscurement.go         Orchestra/Obscurement. A result without an obscurer is `none`.
--   app_id.go              Orchestra/AppId.
--   bounds.go              Orchestra/Bounds, over a parameter for what float64 is used for.
--   orchestra.go           Orchestra/Launch: `LaunchApp` and its tracking of the apps launched. The
--                          driver is a parameter with a state of its own.
--   finder.go, polling_finder.go
--                          Orchestra/Finder and Orchestra/WaitFor, over a clock, a context and a driver
--                          whose state goes along. What is assumed of a clock is Bound.KeepsTime.
--   tree_signature.go      Orchestra/Signature. The bytes of a string are a parameter.
--   scroll_controller.go   Orchestra/Scroll. Its loops are bounded by its options, so they take no fuel.
--   wait.go                Orchestra/Wait: `WaitUntil` over a record of what it polls, and the waits for
--                          inputs (Requests, over what Input reads off a screen) and for a tree that
--                          rests (Stable), which specialize it. A wait that keeps variables has a state
--                          that holds them. How rounds add up to a deadline is Deadline, which the
--                          polling finder shares.
--
-- core/internal/runner is Runner. A handler of a command is a tree of actions (Host.Action): it ends with
-- a result or a panic, or has steps or preconditions run and goes on with what they give. All that is
-- outside the runner, the device, the clock, the context, the loader of flows and the handlers, is the
-- record Host over one state; the runner's own state is RunState, with the events emitted so far.
--   step_event.go, command.go, and script/types.go, script/schema.go
--                          Runner/Types, Runner/Host. A detail is a constructor for each message.
--   runner.go              Runner/Check (checks on the screen), Steps (`execute`, `runNestedSteps`), Gate
--                          (`runPreconditions`), Outcome, Loop (the loop of `Run`), Requires
--                          (`runRequiredFlows`), Run. The mutex of the required flows is left out: one
--                          run at a time.
--   run_flow_command.go    Runner/RunFlow.
-- Runner/Reasoning carries a property of nested steps over to preconditions and handlers; the events
-- (Trace), the end of runs (Terminate) and what is kept between runs (Once) are proved through it.
--
-- core/internal/scenario is Scenario, on the model of the runner:
--   scenario.go            Scenario/Types, Run. Each script gets a runner in a state of its own; what is
--                          outside is one state that goes along. The hooks collect their events.
--   suite.go               Scenario/SuiteTypes, Suite, which runs scripts and scenarios, and resets the tracking of
--                          launches (Orchestra/Launch) before each.
-- The parsers of script and scenario texts and the loaders of files are fields of the records of
-- dependencies.
--
-- core/internal/iossimdriver/ws_frame.go is IosSimDriver/WsFrame. Go's int is an integer of 64 bits that
-- wraps; a slice out of range is the outcome `panicked`.
--
-- core/internal/storage/runstore.go is RunStore. Each method holds the lock throughout, so it is one
-- step; a history is a list of calls (RunStore/History). What the clock reads is an argument.
--
-- The deadlines of the waits, the time left to them and the time they took are int64's: these sums and
-- differences wrap (Prelude/Integers, `wrap_int`). What is assumed of a clock keeps its readings in
-- range, and the results on waits are for deadlines in range. Durations that are only reported, and the
-- quiet time of a tree, are differences of integers.
--
-- A Go string is the list of its code points. float64 is a type parameter with the operations that the
-- code calls (Expression/Float); what is assumed of strconv.FormatFloat is
-- Expression.FormatNumber.Shape.FormatsScientific. Counters of type int are natural numbers.
--
-- Fuel: the lexer's loop has as much as there are code units, since each round reads one at least; the
-- parser's nested calls have as much as there are tokens, since each stands behind a parenthesis; the
-- loop of a binary level has as much as there are tokens left; the loop of `Walk` has as much as there
-- are nodes; the rounds of a wait have one more than there are intervals in its timeout. The fuel of a
-- scenario or a suite is that of the runs of its scripts. Steps nest
-- through handlers that the runner does not know, so that the depth of nesting takes fuel, which is
-- enough above the rank of the steps (Terminate). The results on the outcomes and on the traversal say
-- that none of this ever runs out.
--
-- Not modelled: the runner's log lines, artifacts and texts of details; the drivers, transports,
-- processes and servers around these parts, which are input and output, and the packages listed so in
-- the manifest.
pub mod Expression
pub mod IosSimDriver
pub mod Orchestra
pub mod Prelude
pub mod RunStore
pub mod Runner
pub mod Scenario
pub mod Wire
