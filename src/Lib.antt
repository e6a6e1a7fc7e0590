-- ===== src/Lib.antt =====
-- statsd: a daemon that collects metrics over UDP and TCP, and sends aggregates to its backends at
-- each flush.
--
-- How the parts interact. A server (servers/udp.js, servers/tcp.js) hands packets to `handlePacket` of
-- stats.js, which checks each metric with lib/helpers.js and adds it to the tables `counters`,
-- `timers`, `timer_counters`, `gauges`, `gaugesTTL` and `sets` (lib/set.js). `flushMetrics` hands the
-- tables to lib/process_metrics.js and to the backends, and then clears them. The management console
-- (lib/mgmt_server.js, lib/mgmt_console.js) lists and deletes entries.
--
-- Which file models which part.
--   * Js: strings as lists of UTF-16 code units, plain objects as association lists in the order of
--     `for … in`, with the properties of `Object.prototype` that a read may find (`access`), and
--     numbers as an interface (`JsNumber`), since they are doubles: theorems hold for every
--     implementation of its operations, and name the laws that they use (`IsOrdered`). Js.Bytes is
--     the text as bytes: UTF-8 as it is written, ASCII as it is read.
--   * Helpers: lib/helpers.js (isNumber is `is_numeric`, writeConfig `write_config`).
--   * Set: lib/set.js.
--   * Stats: the variables of stats.js as a record, the settled configuration, and the invariant.
--   * Packet: `handlePacket` of stats.js; Packet.Key is `sanitizeKeyName` and the key with its tags,
--     Packet.Metric one round of the loop over the metrics of a line. An outcome is the new state, or
--     a fault: the `TypeError` that the handler throws, or a property of `Object.prototype` that it
--     would use as a number (JavaScript then makes a string of it; the model stops there);
--     Packet.Outcomes has the lemmas on outcomes.
--   * Flush: `clear_metrics` of stats.js, and the settings that the configuration callback settles;
--     Flush.Cycle is `flushMetrics`, Flush.Timeout `getFlushTimeout`, and
--     Flush.Schedule the timer that each flush sets for the next one.
--   * Aggregate: the abstract view of the tables, functions of keys with no order and no representation
--     (`View`), the events in a packet (`Event`), and what they do to the view; Aggregate.Packets
--     relates `handlePacket` to it, Aggregate.Flushes `flushMetrics`, Aggregate.Interval what comes
--     in between two flushes, and Aggregate.Lifetime all of it up to the exit.
--   * KeyFlush: the listener of `keyFlushInt` in stats.js.
--   * Startup: what the callback of the configuration in stats.js sets up.
--   * Daemon: the listeners and timers of stats.js as a step relation, and the states that it reaches
--     from the start.
--   * Loader: `loadBackend` and `startServer` of stats.js, lib/config.js, lib/process_mgmt.js, and where
--     servers/udp.js, servers/tcp.js and lib/mgmt_server.js listen.
--   * Logger: lib/logger.js.
--   * Console: backends/console.js.
--   * Repeater: backends/repeater.js, as the actions that it asks a socket or a pool for;
--     Repeater.Relay puts servers/tcp.js at the other end.
--   * Timers: `process_metrics` of lib/process_metrics.js; Timers.Sort is the sort of a timer's values,
--     Timers.Thresholds the loop over the percentiles, Timers.Histogram the bins, Timers.Filter
--     `filter_timer_metrics`. A rounded percentage is a natural number, as it is used
--     as an index; percentiles are taken to be finite.
--   * Mgmt: lib/mgmt_console.js; Mgmt.Commands is the split of a command line in lib/mgmt_server.js and
--     the commands of stats.js, Mgmt.Effects what they do to the tables.
--   * Tcp: servers/tcp.js.
--   * Graphite: backends/graphite.js; Graphite.Settings is `graphite_init`, Graphite.Wire the two formats,
--     Graphite.Lines the lines of a flush as they are written, Graphite.Post the payload and the state
--     of the backend, Graphite.Send where it is sent.
--   * Pipeline: packets, flushes and backends/graphite.js put together; Pipeline.Entries is what is sent of
--     a key.
--   * Proxy: proxy.js. The package `hashring` is a parameter, an interface with the laws on its servers
--     (Proxy.Ring); Proxy.Nodes is about the health checks, Proxy.Routing about the metrics that are
--     passed on, Proxy.Workers about the management commands, Proxy.Health about the status of the
--     processes after one, Proxy.Cluster about the master of a cluster, the processes that it forks and
--     the listeners that it attaches (again when the file changes), and Proxy.Service puts checks,
--     metrics, commands and changes of the file together.
--   * Examples: numbers that meet the interface, tests, and the theorems at concrete inputs.
--
-- Bounds. Every loop is a recursion on the list that it walks, so no fuel is needed. Times to live and
-- counts of keys are natural numbers.
--
-- Not modelled: sockets, pools, the file system and the terminal (what the program asks of them is a
-- value), the texts of dates and of `util.inspect` (arguments), and the pool of connections of the
-- package generic-pool (what `acquire` gives is an argument). When the file of the daemon changes, the interval of the flush, the
-- percentiles, the histogram and the wanted statistics of timers stay the same.
pub mod Pipeline
pub mod Logger
pub mod Console
pub mod Loader
pub mod Repeater
pub mod KeyFlush
pub mod Daemon
pub mod Startup
pub mod Base
pub mod Aggregate
pub mod Js
pub mod Examples
pub mod Flush
pub mod Graphite
pub mod Helpers
pub mod Mgmt
pub mod Packet
pub mod Proxy
pub mod Set
pub mod Stats
pub mod Tcp
pub mod Timers
