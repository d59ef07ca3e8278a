-- ===== src/Lib.antt =====
-- Dastard, a data acquisition program for arrays of microcalorimeters: a source delivers blocks of
-- raw samples for each channel; each channel's DataStreamProcessor appends its block to a stream,
-- unwraps the phase, searches for triggers and cuts records; a TriggerBroker passes the triggers
-- on to the channels that are connected; records are published and written.
--
-- Stream models DataSegment, DataStream, AppendSegment and TrimKeepingN of data_source.go. Unwrap
-- models PhaseUnwrapper of phase_unwrap.go. Trigger models triggering.go: the records in Trigger
-- and Trigger/Records, the three scans in Trigger/Edge, Trigger/Level and Trigger/Auto, and
-- TriggerData and TriggerDataSecondary in Trigger/Primary. Multi models edge_multi_trigger.go: the
-- search in Multi/Search, the choice of records in Multi/Records, and the state from one block to
-- the next in Multi/Compute. Broker models group_trigger.go: the connections in Broker, the
-- trigger counters in Broker/Counter, their messages in Broker/Messages, and Distribute in
-- Broker/Distribute. Decimate models the dropping mode of DecimateData of process_data.go, and
-- Configure ConfigurePulseLengths and ConfigureTrigger; ChangeTriggerState and ChangeGroupTrigger
-- of data_source.go are in Configure/Change and Broker/Change. Lifecycle models Start, CoreLoop
-- and Stop of data_source.go, and RowCol its row-column codes.
--
-- Packets models packets/packets.go: the words and ByteSwap in Packets/Words, parseTLV in
-- Packets/Parse, ReadPacket in Packets/Read, NewPacket and NewData in Packets/Make, and Bytes and
-- the queries on a packet in Packets/Print. Resonator models the ResonatorGroup of resonator.go,
-- which queues the packets of a group of channels: fillMissingPackets in Resonator/Fill, demuxData
-- in Resonator/Demux, and NewResonatorGroup in Resonator/Create; frame timing, trimming and
-- counting are in Resonator itself, distributePackets is in Resonator/Distribute, a tick of
-- readerMainLoop in Resonator/Reader, samplePackets, extractExternalTriggers and distributeData in
-- Resonator/Source, and the check of the groups in Sample with their channels in Resonator/Keys.
-- Mix models mix.go. Publish models DataPublisher of publish_data.go, with its files in
-- Publish/Files; the records of a file, whole or in part, and whether it has its header stand for
-- its content. Control models writing_state.go, Control/Start writeControlStart and
-- Control/Request WriteControl of data_source.go, and Control/Events its logs of data drops and
-- external triggers. Lancero models lancero_source.go: the channel order of a card there and in
-- Lancero/Order, FindFrameBits of internal/lancero/lancero.go in Lancero/Frames, a tick of
-- launchLanceroReader in Lancero/Reader, the external triggers in Lancero/External,
-- distributeData, mix requests and SetCoupling in Lancero/Block, and PrepareChannels in
-- Lancero/Channels. A message of the reader is the argument of distributeData. Files models the
-- writers of records: the writer of internal/asyncbufio in Files/AsyncFile, whose users, goroutine
-- and buffer take steps in any order, internal/ljh in Files/Ljh and internal/off in Files/Off.
-- Base has the shared helpers. A Go name such as edgeTriggerComputeAppend is
-- edge_trigger_compute_append here. Modules called Runs hold tests and applications of the
-- theorems.
--
-- State is a record, and an operation returns the new one. Samples and other uint16 values are
-- natural numbers with their wrap-around written out (Base/Words). FrameIndex, times and durations
-- are unbounded integers, for counts that stay far below 2^63; where the source cuts a value to
-- int16 or int32 the model does so too. An Outcome is the value of a Go function that can panic:
-- `fault` is the panic, and `stuck` says that a loop of the model ran out of fuel. The scans get
-- one unit of fuel for each sample and one more; the counter's loop gets the distance from the end
-- of its step to the frame, and two more. Maps are lists of their keys or lists indexed by the
-- channel; the order in which Go visits a map is the order of the list. sort.Sort is modelled by
-- an insertion sort. Packets and Resonator have a Result of their own, which tells errors from
-- panics. The loop of parseTLV gets one unit of fuel for each byte of the header and one more, and
-- each item takes at least eight bytes. Bytes and texts are lists of numbers below 256. A reader
-- is the list of the bytes to come.
--
-- Floating-point code is a parameter, the record FloatOps of Floats: the sample period, the auto
-- delay in samples, the least-squares kink fit, the frames of a duration, and the rounding of
-- times; the record RateOps of Packets, the rates of time stamps; the record MixOps of Mix; and
-- the record BlockOps of Lancero/Block, the time of a block's samples and the frames in a gap;
-- and, in Resonator/Source, the test that a rate is not zero and the time of some samples. The
-- disk is a parameter of Publish and Control: which files can be created, written, flushed and
-- closed, what the queues of the files take of headers and records, and the answer of
-- makeDirectory. strings.ToUpper and the file names of fmt.Sprintf are parameters of Control.
--
-- Not modelled: input from hardware and the network (the sampling and starting of cards in
-- lancero_source.go, the sockets and goroutines of resonator.go, roach.go, the driver in
-- internal/lancero), simulated sources, the RPC server, the messages to the ports, the texts of
-- file headers, the database, and the commands, which are input and output or glue; map.go; and in
-- process_data.go the averaging of DecimateData and the analysis of records, in floating point.
pub mod Base
pub mod Floats
pub mod Stream
pub mod Unwrap
pub mod Trigger
pub mod Multi
pub mod Broker
pub mod Decimate
pub mod Configure
pub mod Lifecycle
pub mod RowCol
pub mod Control
pub mod Files
pub mod Lancero
pub mod Mix
pub mod Packets
pub mod Publish
pub mod Resonator
