-- ===== src/Lib.antt =====
-- kt-connect: ktctl joins a developer's machine to a Kubernetes cluster (connect) and redirects the
-- traffic of a service to it (exchange, mesh). This library models the parts in which the program
-- decides what it writes to the cluster, to the machine's hosts file and to its route table.
--
-- The parts and their files:
-- - Cidr: pkg/kt/service/cluster/cidr.go, the search for the address ranges of the cluster that the
--   route table gets, from the addresses of services and pods, without the API server's address.
--   Cidr/Options goes on to the ranges that the options include and exclude. An address is a list of
--   32 cells, 0, 1 or the mark that ends the network part. The IPv4 texts are read and printed byte
--   by byte.
-- - Collection: pkg/kt/util/collection.go and String2Map of pkg/kt/util/strings.go. A Go map is an
--   association list, `none` is the nil map; a missing key reads as the empty text.
-- - Cluster: the objects of the API server with the fields that are used, the marks of
--   pkg/kt/util/const.go, and the server itself, which is a parameter (`Api`): requests, the clock, a
--   pause and the JSON codec. What is relied on are named hypotheses: `IsStore` and `IsPodStore` (an
--   object that an update returns is found as it was accepted), `IsReadBack` (the codec reads what
--   it wrote), `IsWritable` and `IsPodWritable` (updates are accepted), and
--   the like of deployments in Exchange/Scale. A pause is any change of the
--   world, so that others act while the program sleeps; between two pauses the clock stands still.
--   Cluster/Example is a server of one object of each kind, at which the hypotheses hold.
-- - General: pkg/kt/command/general/lock.go (LockService, UnlockService), resource.go (services and
--   deployments by name, target ports, UpdateServiceSelector and its watch) and, of teardown.go,
--   RecoverOriginalService and recoverService. LockService calls itself at most eleven times: its first
--   argument, 11 at the call from outside (lock_service_first), counts the looks that are left.
--   General/LockWait is how often it looks.
--   General/Race takes the requests of any number of lock clients apart: a step is one request, an
--   edit by others, or the passing of time, and the server refuses an update of a stale service.
--   General/Workspace and General/LaneSession are the rest of teardown.go, in a run that no further
--   signal interrupts.
-- - Session: the store of a run (pkg/kt/command/options/store.go), the options that are read, and the
--   machine the program runs on, which is a parameter: key files, timers, hosts file, routes.
-- - Shadow: pkg/kt/service/cluster/shadow_pod.go, helper.go, extra_pod.go, configmap.go and the waits
--   of pod.go. A wait counts the looks that are left: a sixth of the seconds of the wait and one, or
--   eleven. The port mappings are of pkg/kt/util/network.go.
-- - Connect: pkg/kt/command/connect/common.go (name, labels and environment of the shadow, hosts of
--   the services), the workload selector of pkg/kt/service/cluster/lane.go, and the order of the name
--   servers of pkg/kt/service/dns/dnsserver.go.
-- - Birdseye: pkg/kt/command/birdseye/sorter.go, the sort of a table.
-- - Refs: the reference counts of pkg/kt/service/cluster/pod.go, deployment.go and global.go, and
--   ScaleTo. A count is a 64-bit number.
-- - Recover: pkg/kt/command/recover.go and pkg/kt/command/recover/common.go, and Exchange:
--   pkg/kt/command/exchange/scale.go and selector.go. They meet in the annotation kt-config of the shadow.
-- - Clean: pkg/kt/command/clean/common.go, the analysis of the resources of dead sessions and their
--   removal, as lists of names. Clean/Check/Age is the age of a heart beat.
-- - Mesh: pkg/kt/command/mesh, with the router pod and the services of an automatic mesh in
--   Mesh/Auto.
-- - Hosts: pkg/kt/service/dns/hosts.go, over the lines of the file. The match of its regular
--   expression is a field of the options.
-- - Router: cmd/router/main.go and pkg/router. The two files, the JSON codec, the route template and
--   the signal are a parameter (`Files`) with the laws `IsDisk`.
-- - Common and Strings: shared helpers, and the functions of Go's library that are used (Split, Index,
--   Itoa, Atoi), with their laws.
--
-- A Go string is the list of its bytes. A call returns a value, an error or a panic: `Outcome` where
-- it acts on nothing, and `Reply` with the world behind it where it does (Common/Exec); the second
-- tells a missing object from other errors. Loops are recursions on
-- lists, or on the looks, passes or digits that are left, which the code counts too; there is no fuel.
--
-- Not modelled: command lines and options, logs, SSH tunnels, port forwards, the tun device, the DNS
-- servers, the shadow and navigator programs, the ephemeral containers and the watches but that of
-- UpdateServiceSelector: they are input and output, or calls of third-party libraries. The order of a
-- map's iteration is that of its list.
pub mod Common
pub mod Strings
pub mod Collection
pub mod Cidr
pub mod Cluster
pub mod General
pub mod Refs
pub mod Hosts
pub mod Router
pub mod Recover
pub mod Exchange
pub mod Clean
pub mod Mesh
pub mod Session
pub mod Shadow
pub mod Birdseye
pub mod Connect
