-- ===== src/Lib.antt =====
-- lbmanager: a manager of load balancers, of layer 4 (LVS, through keepalived) and of layer 7
-- (nginx). Each node reads the load balancers from etcd, checks them, grants them virtual
-- addresses if it is the leader, renders their configuration files and reloads the service.
--
-- The parts, and the files that model them:
-- - pkg/kvstore/kvstore.go, all access to etcd: Kvstore. The package libkv is another project's,
--   so its operations are the fields of `LibKv`; Kvstore/Start waits for the store to answer.
--   Kvstore/Laws states what is relied on, and Kvstore/Memory is a store in memory that meets it.
-- - pkg/ipam, the addresses: Ipam/Address is ip/cidr.go, Ipam/Types is types/types.go (its JSON
--   methods in Ipam/Types/Json), Ipam/Backend and Ipam/Etcd are backend/store.go and
--   backend/etcd/backend.go, Ipam/Allocator is backend/allocator (allocator.go, and config.go in
--   Ipam/Allocator/Config), Ipam/State is ipam.go. Ipam/Allocator/Network is about the range of a
--   configured network. The allocator works on any `Store`; Ipam/Allocator/Laws is the table of
--   holders that it relies on, and Ipam/Allocator/Registry adds what ipam.go relies on: the
--   search for a name's address and its release. Ipam/Etcd/Table and Ipam/Etcd/Names are about
--   the store in etcd as such a table and registry, Ipam/Etcd/Release about its ReleaseByID
--   between two calls of Exist, Ipam/Etcd/Recover about its Recover, and Ipam/Etcd/Race about two
--   nodes that reserve at once; Ipam/State/Require and its siblings are
--   about RequireIP and ReleaseIP (Ipam/State/Requested with an address asked for, over
--   Ipam/Allocator/Requested), Ipam/State/Runs about sequences of them, and Ipam/State/Start
--   about Init.
-- - pkg/lbm, the load balancers: Lbm/Common, Lbm/Lvs and Lbm/Nginx are types.go and lvsconf.go,
--   Lbm/Handlers the handlers of lbm.go (`handler_event` is handlerEvent), Lbm/Service is lvs.go
--   and Lbm/Nginx/Service nginx.go, both over Render in Lbm/Render. `Lbm.Handlers.Impl` is the
--   interface ILB, which `lvs_service` and `nginx_service` fill. Lbm/Service/Vip puts allocVIP
--   and ipam.go together; Lbm/Service/Config goes on to ConfigService and its file, and
--   Lbm/Service/Delete to DeleteService. Lbm/Service/Sweep and Lbm/Service/Files put handlerDelete
--   over DeleteService, for the addresses and for the files, and Lbm/Service/Recover puts Recover
--   before it; Lbm/Service/Stranded is about a node that handles a listing before and after it
--   comes to lead. Lbm/Start has the constructors and Init, and Lbm/Start/Apart is about the keys
--   that load balancers and addresses stand under. Lbm/Watch is the watching loop of lbm.go as a
--   step relation, with the queue of changes between etcd and the handler; Lbm/Roles is its Run
--   and Change, which hear of the elections of leader/leader.go over a channel. Lbm/Template is
--   tmpl.go: each template is the function that gives its text, and Lbm/Template/Nesting reads the
--   braces of such a text in their order.
-- - pkg/keepalived/keepalived.go: Keepalived, with the runs of its loop in Keepalived/Steps.
-- - pkg/leader/etcdlock.go, the lock of the leader's election: Leader, with the laws of AtomicPut
--   in Leader/Laws; leader.go: Leader/Run, whose callbacks are in Lbm/Roles.
-- - main.go, the start of all this: Main.
-- - pkg/stats/lvs.go: Stats, the reading of the kernel's table of services, and Stats/Server, the
--   loop that serves it.
-- - pkg/conf/conf.go: Conf, with GetLAddrGroupName in Conf/Group. pkg/utils/utils.go: Utils, over the
--   operating system as `Utils.Host`.
-- - Net is what the program uses of Go's package net, on the bytes of an address; Ipv4 has the
--   facts on IPv4 addresses as numbers. Base has lists, texts, maps and results.
--
-- Go and the model: a function that returns an error is a `Result`, one that also reads or writes
-- the world is an action, which gives the world back beside an error too. A value that a method
-- changes through its receiver comes back as a result. The map Elem of LBBase holds places in a
-- list of objects, so a service that writes to a load balancer writes to the one in Elem. Go maps
-- are association lists, whose order stands for the order that Go leaves open. Texts are ASCII.
--
-- Fuel: the loop of Get (Ipam.Allocator.search), WaitForStart and getCps run on fuel, one round
-- to a unit. For Get without a gateway one round for each address of the range is enough;
-- WaitForStart tells whether it has returned, and getCps whether it has panicked, since the
-- program itself loops without end.
--
-- Arguments of the model, since their code is not the program's: libkv, the operating system,
-- encoding/json, path.Join, reflect.DeepEqual, os.Hostname, net/http and the election of client-go.
-- Lbm/Render takes the template as an argument, since it is the same for both services.
--
-- Not modelled: how goroutines are started and how long they sleep, the flags of main.go,
-- Route.String and prettyPrint of ipam's types, the recorder of events, and log lines. Lbm/Watch
-- follows one call of watch, while Elem is not touched by another call's Recover, and Lbm/Roles
-- counts the watches that Run starts, not how they end. The client of etcd makes a key canonical;
-- the laws of Kvstore/Laws are about texts of keys that are canonical as they stand, so nothing is
-- known of names with empty elements of a path, or the elements `.` and `..`.
mod Base
mod Net
pub mod Ipv4
pub mod Utils
pub mod Conf
pub mod Kvstore
pub mod Ipam
pub mod Lbm
pub mod Keepalived
pub mod Stats
pub mod Leader
pub mod Main
mod Tests
