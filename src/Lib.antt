-- ===== src/Lib.antt =====
-- gooos: a model of the kernel and its theorems. The kernel is one Go program (src/*.go) that runs
-- without an operating system: its in-memory file system, its queues between threads, the file
-- descriptors and pipes of its processes, its page frames and page tables and its network stack are
-- modelled here, and of the programs that run on it the text editor and the shell's command lines.
-- Paths are from the repository's root.
--
-- How the parts interact. A process calls the kernel on descriptors (src/fd.go); a descriptor stands
-- for a file, an end of a pipe (src/pipe.go), a socket or the console. Calls on files travel as
-- requests through a blocking queue (src/kthread_queue.go) to one thread, `fsTask` of src/fs.go, which
-- alone touches the table of files. Segments of TCP are parsed and built by src/tcp_segment.go; a
-- connection keeps byte rings and sequence numbers (src/tcp.go), descriptors of what is in flight
-- (src/tcp_retx.go), an estimate of the round trip (src/tcp_rtt.go) and a congestion window
-- (src/tcp_cc.go). Both TCP and UDP (src/udp.go) travel in IPv4 packets (src/ipv4.go) in Ethernet
-- frames (src/ethernet.go) to hardware addresses that ARP (src/arp.go) finds. The page frames
-- that all of it is built on come from src/vm.go.
--
-- Files and what they model.
--   Common, Common/*     shared names: Boolean tests, lists and arrays over native numbers, words of
--                        8 to 64 bits with their wrap written out, rings read as lists
--   Fs                   the entry table of src/fs.go and its operations (`fsCreate` is `create`, and
--                        so on); Fs/Task is `fsTask`; Fs/Store is the abstract store that the table
--                        implements, Fs/Lookup, Fs/Edits and Fs/Refine relate the two
--   Sync/Queue           `fsReqQueue` and `udpDgramQueue` of src/kthread_queue.go, which have one code:
--                        a round of a loop under its lock is one step; Sync/Queue/Fifo reads the
--                        ring as a list, Sync/Queue/Wakeup is about interleavings of steps
--   Sync/Keyboard        the ring between the keyboard interrupt and its reader (src/keyboard_irq.go)
--   Fd, Fd/Pipes         the slot table of a process (`procAllocFD`, `procClose`, `procDup2`,
--                        `procCloseAll`, `sysPipeHandler`, the loop of `elfSpawn` that hands slots
--                        down) and the counts of a pipe's ends; Fd/Counts, Fd/Refcounts, Fd/Alloc,
--                        Fd/SysPipe and Fd/Process hold the lemmas on those counts; Fd/Transfer is
--                        `Read` and `Write` of a pipe
--   Vm/Frames            the page frame allocator of src/vm.go; Vm/Frames/Ledger keeps the books of
--                        who holds which frame
--   Vm/Tables            the walk, mapping and unmapping of src/vm.go and the tables of a process of
--                        src/proc_pml4.go, on the memory of the frame allocator; Vm/Tables/Tree says
--                        what makes the tables a tree, Creation, Growth, Leaf and Path are lemmas on
--                        one write to it, Way, Mapping and Process are about the operations
--   Net/Checksum         the one's complement sum of `tcpChecksum`
--   Net/ByteOrder        byte order and the printing and parsing of addresses of src/netutil.go, with
--                        `utoa` of src/main.go
--   Net/Bytes            words and hardware addresses in packets
--   Net/Ip               src/ethernet.go, src/ipv4.go and `ethernetDispatch` of src/net.go
--   Net/Arp              src/arp.go: packets, and in Net/Arp/Cache and Learning the cache
--   Net/Udp              src/udp.go: datagrams, and in Net/Udp/Bindings the bound ports
--   Tcp/Segment          src/tcp_segment.go
--   Tcp/Seq, Tcp/RingBuf the sequence comparison and the byte rings of src/tcp.go
--   Tcp/Retx             the retransmission queue of src/tcp_retx.go
--   Tcp/Rtt              src/tcp_rtt.go
--   Tcp/Congestion       src/tcp_cc.go
--   Tcp/Connection       `TCB` of src/tcp.go with src/tcp_flow.go; Tcp/Connection/Handlers is one
--                        function for each `tcpHandle...` and `tcpDispatchToTCB` (`dispatch`),
--                        Tcp/Connection/Timers the firings of src/tcp_retx.go and src/tcp_flow.go,
--                        `tcpClose` and one slot of `tcpEchoPass`; Frame, Arrows, Transitions, Taken,
--                        Stream, Flow, Expiry and Retry below it hold what is proved of them
--   Tcp/Table            `tcbTable` and `tcpListeners` with their searches and queues
--   Tcp/Entry            `tcpHandle`, `tcpTryPassiveOpen` and `tcpActiveConnect` on both tables
--   Editor               the text editor of user/cmd/edit: Editor/Buffer is buffer.go, with Place, Edits,
--                        Backward, Forward, Moves, Files and Text on its lines as a text with a cursor in it;
--                        Editor/Commands is `execute` of main.go and Editor/Keys is input.go with the
--                        loop of `main`
--   Shell                the command lines of the shell, user/cmd/sh/parse.go: Shell/Tokens, Stages,
--                        Pipelines and RoundTrip write a pipeline as a line and parse it again
--   Stack                what a host does with a frame, on the state of ARP, UDP and TCP
-- A module named Examples holds runs at concrete inputs and the theorems applied to them.
--
-- Conventions. A number of the source is a natural number; an unsigned word of w bits is reduced by
-- `% 2 ^ w` where the source can wrap. A Go array is a function from its indices, or a list where its
-- length matters. `nil` and the value -1 are `none`. Code that holds a lock from its first line to
-- its last is one step, and so is a handler of TCP that releases it to send, since one thread runs
-- them all. `tcpActiveConnect` runs in system calls, on any processor, and releases the lock between
-- its choice of a port and `tcbAlloc`: what others do to the tables there is an argument. The set-up
-- of the slot that it has claimed is one step. What `ipv4Send` answers, the tick counter and the
-- address of this host are arguments; what is sent is the list of the bytes handed to `ipv4Send`. The
-- answers of `gooos.Write` are the numbers of bytes that it took; its negative error numbers are left
-- out, and so the `total` of `saveFile` does not count them.
--
-- Bounds and fuel. The walk over TCP options has 40 turns, since a header holds at most 40 bytes of
-- options and each turn takes one or more; the fold of the checksum has 3 turns, enough for a sum of
-- 32 bits; the loop of `retxAckTo` has as many turns as descriptors are held, since each takes one
-- off; that of `utoa` has 20, the size of its buffer; the loop of the editor has as many turns as keys
-- are typed, since each command takes one at least. All other loops are structural recursion.
--
-- Not modelled. Boot code, drivers and interrupt controllers are reads and writes of hardware. The
-- scheduler switches stacks in assembly; what is modelled of it is that a queue parks a thread and
-- wakes it. Of the page tables, the flush of the TLB and the handler of page faults, which prints and
-- halts, are left out. Of the editor, the screen and the messages in its last line are left out; the
-- rest of the shell, the other user programs and ICMP are not modelled, nor are the counters of
-- `netStats` that do not tell of the delivery of a datagram. Of TCP, the printing of states
-- (`tcpStateName`, `tcpDiag`) and the threads that sleep between two passes of a scanner are
-- left out.
pub mod Common
pub mod Fd
pub mod Fs
pub mod Sync
pub mod Tcp
pub mod Stack
pub mod Vm
pub mod Net
pub mod Editor
pub mod Shell
