-- ===== src/Lib.antt =====
-- HCMonitor measures the response time of a service from mirrored traffic. A receiving core takes
-- packets from the card into its capture ring; a processing core takes them from there, finds the
-- TCP payload, tells requests from responses, and puts a record of each into a packet queue; the
-- monitor core takes the records in turn, keeps the last request of every connection in a hash
-- table, and turns each response that matches one into a sample of the response time.
--
-- Files:
--   Prelude: names and lemmas that all use; Prelude/Int: C integers.
--   Config: HCMonitor/config.h and HCMonitor/config.c (initConfig, getConfig).
--   Wire: the fields of the IPv4 and TCP headers, and how HCMonitor/main.c finds them.
--   Node: HCMonitor/rx_queue.h (struct node_data), and the key as rte_hash reads it.
--   Hash: rte_hash as a parameter with its documented laws; Hash/Model is one that meets them.
--   Floats: C floats as a parameter; Floats/Fixed is an instance for the tests.
--   Parse: HCMonitor/monitor.c (key_extract); Parse/Burst: burst_count;
--     Parse/Http: HCMonitor/http_parse.c (http_parse, https_parse).
--   Ring: the ring indices of struct ssd_queue and struct pr_queue.
--   Queue: packet_process of HCMonitor/monitor.c; Queue/Init: InitQueue of HCMonitor/rx_queue.c.
--   Monitor: response_time_process of HCMonitor/monitor.c, and the count of missed responses.
--   Monitor/Online: the split of the samples in cdf_acktime, and the clearing, HCMonitor/monitor.c.
--   Cores: the loops of l2fwd_main_loop, and l2fwd_simple_forward, in HCMonitor/main.c.
--   Args: the command line, l2fwd_parse_args of HCMonitor/main.c.
--   Split: pcap_analyse/split_pcap_bytime.c, which splits a capture by time; Split/Output: the files
--     that it writes.
--   Widths: pcap_analyse/burst_width.c, which groups a capture by network; Widths/Sort: its sort.
--   Ports: the port set-up of `main` in HCMonitor/main.c; Ports/Links: check_all_ports_link_status.
--   Cores/Roles: which loop of l2fwd_main_loop a core runs.
--   Timers: the loops of the statistics core and of the timer core; Timers/Stats: print_stats.
--   Figures: avg, goodputcnt and sketch_delay of HCMonitor/monitor.c; Figures/Report: what
--     cdf_acktime reports of the samples.
--   System: the rounds of all cores together.
--   Startup: `main` of HCMonitor/main.c up to the launch of the cores, with DPDK's answers given;
--     Startup/Flows: all cores together, from there on.
--   Database: HCMonitor/send_sql.c, and the calls of it in HCMonitor/monitor.c.
--   Setup: res_setup_hash of HCMonitor/monitor.c; Setup/Tick: lcore_online with the whole of
--     cdf_acktime; Setup/Session: the monitor core from there on; Setup/Reports: the same against
--     Monitor/Connection and Setup/Views, what is promised of each connection and of the reports.
--   Fixtures: what the tests run on.
--
-- How the state corresponds: a struct is a record with the same fields; an array behind a pointer is
-- a function from indices with its length beside it, and an access outside of it is the result
-- none. The globals of the monitor core are the record Monitor; PrQue, max_size and the counters
-- of the parsers are the record Capture; the capture rings and the buffers of the packet pool are
-- the record Shared. Unsigned arithmetic wraps explicitly; an int is an integer.
--
-- Bounds and fuel: the loops over a queue or over labels run on the number of items that they
-- handle, which is stated where it is used. A ring has at most 2 ^ 63 slots, so that its index sums
-- do not wrap. The walk over a capture runs on fuel: its offset goes up by 16 bytes at least, so
-- that one more than the size of the file is enough. The check of the links has its 91 rounds. The
-- loop over u is given 21 entries, of which it reads no more, since w has 20. Clock readings are
-- below 2 ^ 64.
--
-- Not modelled: the text of what is printed and of the queries to the database, plotting, what DPDK
-- does to a device, the capture to disk, which does not build because SSD_NUM is not defined, and
-- the scripts. The memory order between two cores is that of one step after the other. A round of a
-- core is one step, and so is the end of an interval and the logging of a line: what the program
-- does when a record or a packet comes in during one of these is not modelled.
pub mod Prelude
pub mod Floats
pub mod Config
pub mod Wire
pub mod Node
pub mod Hash
pub mod Parse
pub mod Ring
pub mod Queue
pub mod Monitor
pub mod Cores
pub mod Split
pub mod Startup
pub mod Database
pub mod Args
pub mod Widths
pub mod Ports
pub mod Timers
pub mod Figures
pub mod Setup
pub mod System
mod Fixtures
