-- ===== src/Lib.antt =====
-- A Kubernetes node that runs each pod as a process of a macOS host.
--
-- Parts. A process client (pkg/client) starts, watches and stops the processes. The provider
-- (pkg/provider) implements the pod methods that the virtual kubelet calls: it collects the
-- credentials of a pod, asks the client, and turns what the client knows of a process into the
-- status of a pod. It records events (pkg/event) and hands on registry credentials
-- (pkg/resource). The command (cmd/virtual-kubelet) makes the client and the provider and
-- configures the node. Metrics (pkg/metrics) summarize the pods. The rest (internal) are disk
-- images, network addresses, volumes, the data of virtual machines and containers, and SSH
-- sessions.
--
-- Files. Base holds the shared helpers: Base/Tests (decisions), Base/Equality (the interface of
-- types with decidable equality), Base/Lists, Base/Integers, Base/Dict (maps as association
-- lists) and Base/Outcome (errors and results). Api has the Kubernetes objects that the code
-- reads. Client models pkg/client: Client/Calls is the system, whose replies are a parameter and
-- whose calls are a trace; Client/Process is the state and the goroutine that waits for a
-- process; Client/Create is CreatePod, Client/Delete DeletePod, Client/Query the other methods.
-- What is proved of CreatePod is in Client/Create/Cleanup, Client/Create/Success and
-- Client/Create/Willing, of DeletePod in Client/Delete/Effect, of the views in
-- Client/Query/Views; Client/Invariant states soundness and Client/Reach closes it under the
-- steps of the client. Client/Overlap takes CreatePod and DeletePod apart where they use the map,
-- and lets calls overlap: Client/Overlap/Sequential finds the calls one after the other among
-- these, Client/Overlap/Serial is about calls of which no two are about one pod, and
-- Client/Overlap/Lost and Client/Overlap/Stale about two that are; Client/Overlap/Progress brings
-- all calls to their end. Client/Contract is what a runtime client promises, a map from keys to
-- pods, and Client/Contract/Refinement compares the process client to it. Client/User is
-- NewProcessClient with user_lookup_darwin.go. Event/Context is the object reference in a
-- context, and Event/Log the recorder that only logs. Event, Registry and Provider model the
-- other parts: Provider/Api is the API server, a parameter; Provider/Status is
-- getPodStatusFromProcess, Provider/PodCredentials and Provider/PullSecrets are the files
-- pod_credentials.go and image_pull_credentials.go, Provider/Pods is the rest of macos_exec.go
-- over any runtime client, Provider/Pods/Recorded adds the recorder of events to it, and
-- Provider/Pods/Runtime puts the process client in its place. Provider/Node is vk_node.go, with
-- the address from Net (internal/netutil/ifaces.go) and the CPU label from Label
-- (internal/utils/apple_cpu.go). Startup is cmd/virtual-kubelet: Startup/Options has the options
-- of the node, with what they amount to in Startup/Options/Served; Startup/Provider makes the
-- process client and the provider, Startup/Port reads the port, Startup/Settings has the
-- variables and the flags, Startup/Started is NewNode as run calls it, Startup/Run is the end of
-- run, Startup/Main is main, and Startup/Tracing is tracer.go. Metrics is pkg/metrics/metrics.go:
-- its goroutines end one after another in any order; Metrics/Tasks and Metrics/Goroutines keep
-- account of them, Metrics/Collector is the collector, and Metrics/Returned says what is
-- returned. Data models internal/data: Data/Machines is the map of virtual machines with its
-- counter, which Data/Machines/Counter runs by atomic steps; Data/Containers is the map of
-- containers; the Refinement modules compare both to plain maps. Disk models internal/disk:
-- Disk/Decompress is the loop that leaves out blocks of zeros, over Disk/Sparse, Disk/Digest the
-- check of digests, and Disk/Images the compression and decompression of files, which
-- Disk/Images/RoundTrip puts together. Volumes is internal/volumes/mounts.go; Volumes/Planned
-- says of the pod alone which mounts there are. Net/Mac, Net/Arp and Net/Capture are the rest of
-- internal/netutil, with the functions on text in Net/Octets and Net/Words. Resources has the
-- small files of internal/utils and the plain types of pkg/resource, and Streams is internal/io.
-- Ssh models internal/ssh, internal/node and internal/utils/cmd.go: Ssh/Dial is DialContext and
-- its goroutine, Ssh/Keepalive the keep-alive loop, Ssh/Quote and Ssh/Command the text of a
-- command, Ssh/Terminal the streams and the terminal, and Ssh/Session the session as the calls
-- that it makes. Ssh/Shell is no code of the program: it describes how a shell reads quoted
-- words, and Ssh/Command/Reading compares the text of a command to it. Tests holds inputs, runs
-- and instances of the theorems.
--
-- Conventions. A method is a function from its arguments and a state to its result and the next
-- state; an error is a value. A pointer to a process state is an index into the states allocated
-- so far, so that the goroutine of a process and the map share it. The trace of Client lists the
-- newest call first, those of Disk and Ssh list them in their order. The zero time is 0. A Go int
-- is an integer without bound, but for the conversion to int32 in the status, which wraps around,
-- and those in Resources and Startup/Port. A loop over a channel or a command is a function of
-- the list of what its rounds receive. Recursion is structural, but for the blocks of one read in
-- Disk/Decompress, which take the number of the bytes as fuel; that is enough, since each block
-- has at least one byte.
--
-- Not modelled. Overlapping method calls of the metrics provider, which holds a lock. Logging but
-- for the recorder of events, and tracing beyond the choice of the sampler. The flags of klog and
-- the broadcaster of events. Mocks and the set-up of tests.
pub mod Base
pub mod Api
pub mod Client
pub mod Event
pub mod Registry
pub mod Provider
pub mod Data
pub mod Disk
pub mod Net
pub mod Label
pub mod Volumes
pub mod Ssh
pub mod Metrics
pub mod Startup
pub mod Resources
pub mod Streams
mod Tests
