-- ===== src/Lib.antt =====
-- Gnomock starts docker containers for tests, waits until they are healthy, initializes them and
-- stops them. This library models its Go packages and proves what the parts promise to each other.
--
-- The parts. A caller, or the HTTP server (internal/gnomockd), gives a preset (preset.go) and options
-- (options.go). Start (gnomock.go) builds the configuration, connects to docker and asks the client
-- (docker.go) for a container (container.go) with named ports (ports.go). The client pulls the image,
-- creates and starts the container, waits for its ports, and starts a sidecar that stops it when the
-- tests end (internal/cleaner, internal/health). Start then forwards the logs, repeats the health
-- check and runs the initialization; on an error a deferred function stops the container.
-- parallel.go starts several presets together; internal/registry finds presets by name.
--
-- The files. Base: numbers, bytes, decimal text, maps, paths and replacement as the standard library
-- of Go has them (strings, strconv, path), and the grouping of a list by a key. Ports: ports.go.
-- Container: container.go. Errors: internal/errors/errors.go, errors.go and wrapped errors. Engine:
-- the calls that leave the program, and the actions that make them. Options: options.go. Docker:
-- docker.go, a child for each group of methods (Client, Conflict, Images, Network, Create, Start).
-- Internal: internal/health/health.go and internal/cleaner/cleaner.go. Session: gnomock.go (Image,
-- Wait, Stop, Create), with setupContainerCleanup of docker.go in Create. Parallel: parallel.go.
-- Registry: internal/registry/registry.go. Gnomockd: internal/gnomockd (gnomockd.go, start.go,
-- stop.go), with setupLogWriter of start.go in LogWriter. Presets: a child for each folder of preset/,
-- K3s for preset/k3s (mysql as on amd64); in Presets/Sql what the presets of SQL databases repeat, as
-- preset/postgres has it, and in Presets/Files how the presets of kafka and rabbitmq read files of
-- messages, as preset/kafka has it. Server: cmd/server. Cleaner: cmd/cleaner/main.go. Generator:
-- cmd/generator/main.go. Starts: gnomock.go and presets together. Tests: runs and witnesses.
-- Definitions keep the names of the source in snake case; DefaultPort of a container is
-- `default_port_of`.
--
-- How code is read. An action takes the list of all calls made so far, the last one first, and gives
-- a result and the longer list. The docker engine, the network, the clock and the environment are
-- the record `World`, whose answer to a call may depend on all earlier calls, so that every failure
-- and every change of the outside is covered. A `select` between a context and a ticker is a call
-- that the world answers. A Go function that returns a value and an error is an action that ends with
-- `ok`, `err`, `panic` or `stuck`; where both results matter (newContainer) they are a record. A
-- goroutine that starts or stops a sidecar runs at once or when its value is needed, as the world
-- chooses. The goroutines of Stop run in one order and those of Parallel.Go in any order that is given,
-- each to its end. Where goroutines meet on channels (the log writer
-- of the server, the cleaner) the program is a step relation: any goroutine that can go on may, in any
-- order, and what is proved holds in every state that is reached. A map is the list of its entries in
-- the order of an iteration; where two loops go over one map, each has an order of its own, the field
-- `ranges`, which the theorems suppose to meet every entry once. Texts are lists of bytes, and literals are ASCII. An int is an integer
-- whose range is a hypothesis where it matters.
--
-- Bounds. The four loops that wait (waitForContainerNetwork, wait, Ingest of splunk and initf of
-- elasticsearch) take fuel, one unit for each round; a loop without fuel is `stuck`, which is no result
-- of the program. As many units as the context allows rounds are enough, since each round looks at the
-- context. The recursion of StartCustom through sidecars has depth two, which is enough, since a
-- sidecar is started with automatic cleanup disabled. The count of documents of elasticsearch is kept
-- as the 64 bits of its `int`.
--
-- Parameters. nat.Port, url.Parse and the JSON coding are fields of `World` and `Codec`, without
-- assumptions. The clients that the presets use (HTTP, S3, databases, queues, kubernetes) and the files
-- that they read are a record `Client` for each preset, whose answers may depend on all earlier calls.
-- What a preset adds to its own lists while it initializes a container is `after_initf`, the preset
-- that a second start of the same value would see; a start does not pass it on.
--
-- Not modelled: log messages, the copying of log bytes, the routing of the server, the parsing of
-- flags, the handler of / of the cleaner, and what only tests use (internal/testutil,
-- internal/israce). Letters are changed in case on ASCII only. The text of a *NumError is shortened.
pub mod Base
pub mod Ports
pub mod Cleaner
pub mod Generator
pub mod Container
pub mod Errors
pub mod Engine
pub mod Options
pub mod Docker
pub mod Internal
pub mod Server
pub mod Session
pub mod Starts
pub mod Parallel
pub mod Registry
pub mod Gnomockd
pub mod Presets
mod Tests
