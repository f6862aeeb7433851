-- ===== src/Lib.antt =====
-- LINSTOR Gateway: highly available iSCSI targets, NFS exports and NVMe-oF targets, made of LINSTOR
-- resources and of configuration files for drbd-reactor that LINSTOR distributes.
--
-- The parts, and the files that model them:
-- pkg/common: the volumes, states and service IPs that the targets share, the cluster private
-- volume and the wait for a condition (Common, with Common/Volume, Volumes, Status, Ip, Wait).
-- pkg/reactor: resource agents as command lines (Reactor/Agent), the promoter configuration and
-- its TOML tables (Reactor/Config), its files (Reactor/Files) and the calls that keep these in
-- LINSTOR (Reactor/Store).
-- pkg/linstorcontrol: the status of a resource (Linstorcontrol/Status) and EnsureResource
-- (Linstorcontrol/Ensure).
-- pkg/iscsi: names (Iscsi/Iqn), the configuration of a target (Iscsi/ResourceConfig), its promoter
-- configuration, written and read (Iscsi/Promoter), and the operations (Iscsi/Service).
-- pkg/nvmeof: the same for NVMe-oF (Nvmeof/Nqn, ResourceConfig, Promoter, Service).
-- pkg/nfs: the configuration of an export (Nfs/ResourceConfig), the text of its allowed addresses
-- (Nfs/Cidr), its promoter configuration, written (Nfs/Promoter) and read (Nfs/Parsing), and the
-- operations (Nfs/Service).
-- The operations of iscsi.go, nvmeof.go and nfs.go are the same but for their types: Target is the
-- interface that the kinds of target fill, and Target/Lookup, Service, Volumes and Listing have the
-- operations over it.
-- pkg/rest: what handlers write (Rest), and the handlers for each kind of target (Rest/Iscsi, Nvmeof,
-- Nfs), which call the operations. A handler gets the variables of its route as texts, and what the
-- JSON decoder makes of the body.
-- The table of routes is Rest/Routes; which handlers the requests reach is in Rest/Routes/Reached.
-- client: the client of the REST API (Restclient), its requests (Restclient/Requests) and its calls for
-- each kind of target (Restclient/Iscsi, Nvmeof, Nfs). Restclient/Served and Restclient/EndToEnd put
-- the client, the routes, the handlers and the operations together.
-- cmd: what the commands share (Cmd), the URL of the server (Cmd/BaseUrl), the tables (Cmd/Table) and
-- the commands (Cmd/Iscsi, Nvme, Nfs), which call the client.
-- pkg/healthcheck: the checks (Healthcheck), their messages (Healthcheck/Format) and their categories
-- (Healthcheck/Categories).
-- Base holds what all of them use: texts as lists of bytes, Go's `int`, `strconv`, `strings` and
-- `path/filepath` as far as they are used, and outcomes, where a run-time panic is one of its own.
-- A function of the source keeps its name: `StatusFromResources` is `status_from_resources`, the
-- method `Valid` of a configuration is `valid` beside its record.
--
-- The LINSTOR client is a parameter, the record `Client` of Linstor.antt: its calls take the state of
-- the world and return an outcome and the next state, and Linstor/Exec.antt strings them together.
-- What other packages do (the shell splitter, the TOML codec, hashes, UUIDs, and the texts of IP
-- addresses in package `net`) is the record `External`. What a theorem relies on of them is among its
-- hypotheses.
--
-- A map is an association list in the order in which a `range` loop visits it. An error is told by
-- its format string, without the values printed into it. `sort.Slice` is an insertion sort: the order
-- of equal elements, which Go leaves open, is that of the input. `Sscanf` is modelled for one line of
-- ASCII. A wait looks ten times, by its deadline of 30 seconds and its sleep of 3, before it fails.
--
-- The HTTP connection, the router of gorilla/mux, package net/url and the JSON codec are parameters of
-- the client and the routes: Restclient/Served, Restclient/EndToEnd and Rest/Routes/Router say what
-- of their documentation is relied on, for the table of routes, the methods and statuses that are used,
-- and paths with no part that is empty, `.` or `..`, which the router would answer with a redirect. The
-- address of a service IP is IPv4 if it is so in any notation; net.ParseCIDR keeps sixteen bytes for an
-- IPv6 literal that maps an IPv4 address. The machine that the health check looks at is the record `Host`.
--
-- Not modelled: the texts of the help and the declarations of flags in cmd, which package cobra reads,
-- the commands that call a library alone (version, docs, completion), logging, and the start of the
-- HTTP server.
pub mod Base
pub mod External
pub mod Linstor
pub mod Reactor
pub mod Rest
pub mod Restclient
pub mod Cmd
pub mod Healthcheck
pub mod Common
pub mod Linstorcontrol
pub mod Target
pub mod Iscsi
pub mod Nvmeof
pub mod Nfs
mod Tests
