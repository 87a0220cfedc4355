-- ===== src/Lib.antt =====
-- Verification library of the repository my-operator: a Kubernetes operator (JobOperator) and the
-- framework that measures service level indicators (SLIs) while the operator's tests run.
--
-- The parts and how they interact. A test session (test/e2e/harness) takes two snapshots of an
-- operator's metrics: a short-lived pod (test/e2e/curlmetrics) fetches the text, which
-- pkg/slo/fetch/promtext and pkg/slo/common/promkey turn into a map from canonical keys to numbers,
-- and the harness adds up the series of each metric. The engine (pkg/slo/engine) evaluates each SLI
-- definition (pkg/slo/spec) on the two snapshots, judges the values and hands the summary to the
-- writer (pkg/slo/summary). Sessions get tags (pkg/slo/tags) and a file name that is free. The
-- operator itself is internal/controller. pkg/kubeutil waits for the cluster and gets tokens.
--
-- The files.
--   Base, Text, GoMap, Float64: what the components share. Text is Go's package strings, sort.Strings,
--     bufio.Scanner and the verb %d, over code points; GoMap is a map as the list of its entries in
--     the order in which range visits them; Float64 is float64 as an interface.
--   PromKey: pkg/slo/common/promkey/promkey.go; a function for each function, and label_loop and its
--     steps for the loop of parseLabels.
--   PromText: pkg/slo/fetch/promtext/parse.go.
--   Spec: pkg/slo/spec/spec.go, and registry.go in Spec.Registry.
--   Summary: pkg/slo/summary/schema.go and schema_v4.go; Summary.Writer: writer.go, on a disk that
--     remembers what each system call left.
--   Engine: pkg/slo/engine/engine.go and engine_v4.go (Execute, ExecuteV4), on a world that the
--     fetcher, the writer and the clock act on; Engine.Eval: evalSLI, judge and compare.
--   Tags: pkg/slo/tags/tags_v4.go.
--   Controller: internal/controller/joboperator_controller.go and metrics.go (Reconcile), on the
--     objects of the cluster and the metric vectors, with the faults of each call; a step relation
--     in Controller.Converge.Reachable puts reconciles and what users do in any order.
--   Api: api/v1/joboperator_types.go and zz_generated.deepcopy.go, on the cells that pointers lead to.
--   Manager: cmd/main.go; the flags and the TLS options, which are slices (GoSlice) that may share an
--     array; Manager.Program: init and main, as commands on the history of their calls.
--   Kubeutil: pkg/kubeutil; Wait and Token run the polling loops on the events that they receive,
--     Wait.Loop and Token.Loop run them on a command runner, Install runs the installers on one, and
--     Exec is runner.go, whose default_runner is such a runner.
--   Curl, Curl.Pod: test/e2e/curlmetrics, on answers that may depend on every command before and on
--     the context with which each is handed to the runner.
--   Devutil: pkg/devutil/projectdir.go and anno.go, on directories as lists of names;
--     Devutil.Uncomment: patch.go; Devutil.Template: template.go, and test/e2e/e2eutil/apply.go;
--     Devutil.Kind: kind.go, and pkg/slo/fetch/inside_v4.go.
--   Harness: test/e2e/harness; Sanitize, Aggregate, Attach (v3 session), Session (v4 session),
--     Fetcher (its scrapes by a pod), Hooks (what Attach and AttachV4 do around each test), Presets;
--     Options is test/e2e/internal/env.
--   Engine.OnDisk, Harness.Session.OnDisk and Harness.Hooks.OnDisk put the engine, the v4 session
--     and its hooks on the disk of Summary.Writer, where the other modules take any writer.
--   Tests: runs on concrete inputs.
--
-- Bounds and fuel. The loop of parseLabels has the length of its text and one more round as fuel, and
-- each round consumes a character; running out is an error value that never shows. NextSummaryPath
-- has fuel too: one round more than there are files is enough. Times are nanoseconds since Go's zero
-- time; durations in the options are int64 with their wrap-around written out. A string is a list of
-- code points, so an input is taken to be valid UTF-8; the program only tests for ASCII.
--
-- Taken to be simpler. What the client of the controller reads is the object as it is, or an error,
-- not found included: a cache that answers with an older version is not modelled. A crash of the
-- disk leaves what the calls before it left: data that is lost because it was not synced is not
-- modelled. The command line is split into names and values before it is read.
--
-- Parameters. float64 arithmetic and parsing, encoding/json, path/filepath, time.ParseDuration,
-- strconv.Atoi, text/template, the verb %q, the deep copies of the metadata, controller-runtime, the
-- API server, kubectl, processes and the operating system; and what append adds to the capacity of a
-- new array.
--
-- Not modelled. The log lines and loggers, which change nothing else; the registration of the API
-- group with controller-runtime; the reserved constants of spec_v4.go and the manifest types, which
-- are data without operations; the e2e tests themselves; and the files of presets/, which are commented
-- out.
pub mod Base
pub mod Text
pub mod Float64
pub mod GoMap
pub mod GoSlice
pub mod PromKey
pub mod PromText
pub mod Spec
pub mod Summary
pub mod Api
pub mod Controller
pub mod Curl
pub mod Devutil
pub mod Engine
pub mod Kubeutil
pub mod Manager
pub mod Tags
pub mod Harness
pub mod Tests
