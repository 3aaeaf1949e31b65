-- ===== src/Lib.antt =====
-- A model of the core of origin, a distributed actor framework in Go, with proofs about it.
--
-- A node of origin runs services. A service calls another by rpc (rpc/), hears of events (event/),
-- runs functions in the background (concurrent/), and talks over connections (network/). Nodes find
-- one another by discovery (cluster/). These parts stand on the containers of util/.
--
-- Prelude holds what the parts share: lists, Go maps as association lists (Prelude.Maps), and
-- Outcome, which says how a piece of code ends: with a result, a run-time panic, or a loop whose
-- fuel was too small (Prelude.Endings).
--
-- Heap is Go's container/heap (up, down, Push, Pop, Remove, Fix) over a heap.Interface: a record of
-- operations, and the laws `IsLawful` which a client proves. Its clients are the timers of rpc/ and of
-- util/timer/.
--
-- Rpc.TimerHeap is rpc/rpctimer.go: CallTimerHeap with Len, Less, Swap, Push (`append`), Pop
-- (`remove_last`), Cancel, AddTimer, PopTimeout and PopFirst. The proofs state each operation on
-- `Deadlines`, the map from calls to fire times for which a heap stands.
-- Rpc.CallSet is rpc/callset.go: AddPending, RemovePending, FindPending, checkRpcCallTimeout,
-- cleanPending, generateSeq. What the code sends to a handler or to a call's channel is a list of
-- deliveries. checkRpcCallTimeout has the code's own bound on its rounds; cleanPending's fuel is
-- the number of timers and one, since a round takes out one timer.
-- Rpc.Client is rpc/client.go on one CallSet: rawGo, asyncCall, processRpcResponse, CancelRpc, and
-- Close of rpc/rclient.go. A call's channel has room for one answer, so that DoError may wait for
-- ever. A delivery is noted when it is sent, whether or not a service's queue takes it. Rpc.Server is processRpcRequest of rpc/lserver.go, and WriteResponse of
-- rpc/server.go, whose messages the client reads. Codecs, compressor and connection are arguments.
--
-- Concurrent is concurrent/dispatch.go, worker.go and concurrent.go: one step of the relation `Step`
-- is an AsyncDoByQueue, a turn of dispatch.run (processTask, processQueueEvent, processTimer), or
-- the end of a worker's task (endCallFun). A blocked send is a step that is not taken yet.
-- Concurrent.QueueId is how AsyncDoByQueue reduces a queue id. Close is not modelled.
--
-- Event is event/event.go: EventHandler and EventProcessor in a `World` from identities to objects,
-- with RegEventReceiverFunc, UnRegEventReceiverFun, Destroy, EventHandler, castEvent. The event
-- pool is not modelled.
--
-- Network.MsgParser is network/tcp_msg.go: Read and Write of messages behind their length. The byte
-- pool is an argument of Write; Network.BytesPool is util/bytespool/bytespool.go, which fills it,
-- where sync.Pool is an argument in turn.
--
-- Queue.Deque is util/queue/deque.go, with Rotate, Insert and Remove in Queue.Deque.Middle; Queue.Mask
-- is the arithmetic of `i & (len - 1)`. The buffers have at most 2^61 elements, so that no index
-- overflows. Queue.Ring is util/queue/queue.go, the same ring with other operations, and
-- Queue.Bounded util/queue/squeue.go.
--
-- MessageQueue.MemoryQueue is sysservice/messagequeueservice/MemoryQueue.go (Push, FindData), and
-- MessageQueue.BiSearch the binary search of util/algorithms/BiSearch.go, by which FindData finds
-- its start; the fuel of its loop is the length of the slice and one, and each round makes the range
-- shorter.
--
-- Rank is the comparison of entries in sysservice/rankservice (RankFunc.go, RankData.go).
--
-- Cluster.Nodes is cluster/cluster.go with two functions of cluster/parsecfg.go: the nodes, which of
-- them offers which service, templates, and the selection of clients; delServiceNode,
-- serviceDiscoverySetNodeInfo, DelNode, DiscardNode, HasService, GetNodeIdByService,
-- CanDiscoveryService. Cluster.Origin is cluster/origindiscovery.go on top of it: the master's list
-- of nodes with its requests, and in Cluster.Origin.Client what a node makes of a master's messages.
-- Both call the cluster of their node as the code does. Configuration, etcd, and the client's own
-- calls of masters are left out. Cluster.NodeTtl is cluster/nodettl.go, the nodes in the order of
-- their last refresh, by which the master finds nodes that are silent.
--
-- PubSub is util/pattern/pubsub/pubsub.go: Subscribe, UnSubscribe, UnSubscribeKey and Publish.
--
-- Service is the tree of modules of service/module.go: AddModule, ReleaseModule, NewModuleId, and
-- Release of service/service.go. The fuel of release_module bounds the depth of the tree.
--
-- Timers is util/timer/heap.go and timer.go: SetupTimer, tick and tickRoutine on the heap of timers,
-- Timer.Do and Ticker.Do. tickRoutine's fuel is the number of timers and one.
-- Smath is util/smath/smath.go at the types int64 and uint64.
--
-- Not modelled: the node's life cycle, sockets, codecs, log, databases, and the locks,
-- whose critical sections are single steps.
pub mod Prelude
pub mod Heap
pub mod Rpc
pub mod Event
pub mod Network
pub mod Concurrent
pub mod Queue
pub mod MessageQueue
pub mod Rank
pub mod Cluster
pub mod Smath
pub mod Service
pub mod Timers
pub mod PubSub
