-- ===== src/Lib.antt =====
-- A verification library for zstack-ovn-kubernetes, the network plugin that connects Kubernetes
-- pods to OVN. The controllers of pkg/ovn watch Kubernetes objects and write rows of the OVN
-- northbound database through pkg/ovndb; they take pod addresses from pkg/allocator and write what
-- they chose into pod annotations with pkg/util.
--
-- Allocator/Bitmap models pkg/allocator/bitmap.go: the byte slice and its size and count;
-- `set_bit`, `clear_bit`, `is_set`, `find_first_clear` and `available` are Set, Clear, IsSet,
-- FindFirstClear and Available. Allocator/Subnet models pkg/allocator/subnet_allocator.go and
-- errors.go with a function per method under the method's name. Every exported method holds the
-- mutex from start to end, so each is one step. A method's result is a value, an error, a panic
-- (indexing the nil result of To4, or a negative length for make), or `running` for a range loop
-- that has used up its rounds. The number of rounds is a parameter of NewSubnetAllocator's model,
-- and the theorems on its results hold for all of them; Allocator/Subnet/Returns says how many are
-- enough for a range of IPv4 addresses. `exclude_ips` is keyed by the shortest form of an address,
-- which identifies IP.String().
--
-- Net models what the program uses of Go's package net (ParseIP, ParseCIDR, To4, To16, Equal, Mask,
-- Contains) on addresses as lists of bytes, and pkg/util/net.go in Net/Util. Base holds lists,
-- texts, tests and maps that the parts share; a text is a list of byte codes.
--
-- Config models pkg/config/config.go: the configuration as nested records, `apply_env_overrides`
-- (ApplyEnvOverrides) over a function for os.Getenv, `problems` and `validate` (Validate: the list
-- of errors, and the text made of it), `load_config` (LoadConfig) over parameters for reading a
-- file and for yaml.Unmarshal, the deployment modes in Config/External and validateDBAddressFormat
-- in Config/Address. Config/Cni models pkg/config/cni.go over a parameter for json.Unmarshal,
-- Config/CniFile the file that it writes. Durations are numbers of nanoseconds.
--
-- Ovndb models the parts of pkg/ovndb that write rows. libovsdb's client is a parameter: Transact
-- models transact.go over its transactions, with a number of polls for the context's deadline, and
-- Acl models acl.go over its rows, with the operations that the controllers do not use in
-- Acl/Update. The laws of a client (`Commits`, `Table`) say that a transaction is atomic, that an
-- insert adds its row, that a delete by UUID takes that row out, and that the cache shows the rows;
-- Ovndb/Examples has a client in memory that satisfies them. A step gives the new state and a
-- result, so that what was written before an error stays written.
--
-- Ovn/Policy models pkg/ovn/policy_controller.go: Match has the match texts, names and priorities,
-- Policy itself Reconcile and the functions below it, Desired the ACLs that a policy asks for. The
-- two copies of a function for the two directions are one function with the direction as an
-- argument. What the Kubernetes API answers is a parameter.
--
-- Ovndb/LoadBalancer, Ovndb/LogicalSwitch and Ovndb/LogicalSwitchPort model the operations of
-- load_balancer.go, logical_switch.go and logical_switch_port.go under the methods' names, over a
-- client of their table (Ovndb/Table: Get, List, WhereCache, Create, Update, Delete and Mutate). A
-- Go map that may be nil is an option; a map is an association list, looped over in its order.
-- Ovndb/LoadBalancer/Rows says what the operations leave in the table, keyed by name as the
-- program's calls of Get assume; between the Get and the Update of one operation no other client
-- writes. Ovndb/Vip models the texts of virtual addresses, Ovndb/PortName the names of ports.
--
-- Ovn/Service models pkg/ovn/service_controller.go: Service itself the endpoints, backends, node
-- addresses and the tracking map, Ports a service and its ports, Ensure the functions that ensure a
-- load balancer, Reconcile the rest up to `reconcile` (Reconcile). The state is the database and
-- the map serviceLBs. TargetPort.IntValue() is a number that is not negative, and so are all ports.
--
-- Ovndb/Zstack models pkg/ovndb/zstack.go: the markers of a switch, and in Zstack/Guarded the
-- operations of ZStackCompatibility, over a client of the table of switches.
--
-- Annotation models pkg/util/annotation.go: the annotations of a pod are a map from texts to texts,
-- with the operations in Annotation/Operations and Validate in Annotation/Validate. Json models
-- what it uses of encoding/json: values, the text that Marshal writes (MarshalIndent in
-- Json/Indent), and the parser of Unmarshal, whose rounds are bounded by the length of the text.
--
-- Ovn/Pod models the rest of pkg/ovn/pod_controller.go: Pod itself the state (podAllocations, the
-- allocators by subnet, the database and the API), allocateIP and the ports, Pod/Reconcile
-- `configure_pod_network`, `handle_deletion` and `reconcile_pod` (Reconcile), Pod/Direct the
-- functions for other callers; Ovn/Finalizers has the functions on finalizers. Each run of
-- Reconcile is one step; Pod/Booked and Pod/Addresses have the invariant of the recorded addresses.
--
-- Ovn/Subnets models pkg/ovn/subnet_controller.go with the types of api/v1/subnet_types.go, and
-- findSubnetForPod of pkg/ovn/pod_controller.go: Subnets itself the subnet, the choice,
-- ensureIPAllocator, mapsEqual and updateCondition, Subnets/Switch the logical switch,
-- Subnets/Status what is written to the status, and Subnets/Reconcile the functions up to
-- `reconcile_subnet_request` (Reconcile). The object in memory, which the code changes in place, is
-- part of a run's result.
--
-- Not modelled: the connection to the databases; the node agent, the CNI server and plugin, DPDK,
-- logging, metrics and events, which mostly call the operating system or other services.
pub mod Base
pub mod Net
pub mod Allocator
pub mod Annotation
pub mod Config
pub mod Json
pub mod Ovn
pub mod Ovndb
