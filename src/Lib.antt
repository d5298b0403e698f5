-- ===== src/Lib.antt =====
-- CaenDAQ: data acquisition from CAEN digitizers.
--
-- A reader thread for each board takes raw buffers from its digitizer. Every buffer goes to one
-- queue that all boards share, which a writer thread empties into the part files of the run, and,
-- if decoding is on, to a decoder of its own, which fills spectra and a buffer of hits.
--
-- The files, with the code that they model:
--   Board, Event      include/caendaq/BoardInfo.hpp, include/caendaq/DecodedEvent.hpp
--   Decoder           src/AggregateDecoder.cpp, include/caendaq/AggregateDecoder.hpp
--     Frames          what the decoder calls of vendor/rureader, as an interface with laws
--     Clock           ChannelClock, unwrap, setTime, timeStampPs
--     State           BoardDec, the counters, registerBoard
--     Wave            unpackWave
--     Events          the bodies of the event loops of decodePHA and decodePSD
--     Couples         decodePHA and decodePSD around them
--     Walk            decode
--   Queue             include/caendaq/BlockQueue.hpp, one function for each critical section
--     Schedule        every interleaving of producers and consumers, as a step relation
--     Closing         a closed queue
--   Header            include/caendaq/DataFileHeader.hpp
--   Writer            src/RawFileWriter.cpp, on an explicit list of files; Fresh: the search for a name
--   Histogram         src/HistogramStore.cpp
--   HitTap            include/caendaq/HitTap.hpp
--   DecodeStage       src/DecodeStage.cpp
--   Digitizer         include/caendaq/IDigitizer.hpp, as a record of operations on a driver's state
--   CaenDigitizer     src/CaenDigitizer.cpp, on the vendor's driver as a parameter
--     Config          applyRegisterDump, applyConfig, configure
--     Operations      start, arm, sendSWTrigger, reconnect, read, registers, stop, close
--     Links           linkMutex
--     Lifetime        any sequence of calls; Ownership and Driven hold its lemmas
--     Recovery        the readout after a link was lost
--     Success         a board whose driver does its part
--   MockDigitizer     src/MockDigitizer.cpp
--   BoardRunner       src/BoardRunner.cpp: the reader's loop and dispatch
--     Lifecycle       prepare, start, arm, startReader, stop, drain; Responds: what they rely on
--   Daq               src/Daq.cpp
--     WriterLoop      writerLoop
--     Master          masterIndex and the roles
--     Session         prepare, start, stop, alignClockChain, teardownWriter, each in one piece
--     Boards          addBoard, boardInfo, writeRegister
--     Running         a run and its stop: readers, writer, operator and stop as steps
--     Access          the accesses to a board by its index, sampleStats
--     Devices         makeDigitizer
--     Statistics      setGraphite, setStatsInterval, stats; Whole: start and stop with the collector
--   Cli               apps/caendaq_cli.cpp: the arguments; Begin: main up to the run; Finish: its end
--   ClockSync         src/ClockSync.cpp
--   Stats             src/StatsCollector.cpp: the metric prefix, the clamp of the interval
--     Rates           the differences in loop, formatGraphite
--     Collector       the constructor, start, stop, setGraphite, setInterval
--     Ticks           loop, cut where another thread can come between
--   Graphite          src/GraphiteClient.cpp, on the system's socket calls as a parameter
--   Base              words, signed integers, lists and results that the components share
--   Tests             runs at concrete inputs, and the theorems applied to them
--
-- A `std::uint32_t` or `std::uint64_t` is a number with its wrap written out (u32, u64); a buffer
-- is the list of its bytes or words, and a read outside it is an error value. The code's map from
-- boards to decoders is an association list. The decoder's buffer `wave_` is a list, and an event
-- carries its samples.
--
-- Six loops run on fuel. `decode` gets one round for each word of the buffer and one to stop,
-- which is enough because every round moves on by at least one word. `decimal` gets one round
-- more than the number, which has fewer digits. The search for a free file name has the bound of
-- the source, 99999 names, which is enough below 99999 files. The wait for Board Ready gets one round more than its timeout in ms,
-- since each round waits at least 1 ms.
--
-- `GraphiteClient::send` gets one round for each byte, since a call of the system that goes well
-- takes at least one. The waiting loop of the command line gets two rounds for each second.
--
-- Other projects' code and what the system answers are parameters: the format tables of a board
-- (`FrameLib`, with `FrameLaws` for the size field and the event size), the answers of the file
-- system and the clock (`Io`), and the two bins that HistogramStore computes in floating point
-- (`Floats`). The conversion of a buffer to words is that of a little-endian machine. The boards
-- of a clock chain are callbacks on a state that they change. The vendor's driver is a record of
-- its calls (`Driver`), which set an error code on an error only; the JSON of a register dump comes
-- parsed. The sockets are a record (`Sockets`), of which `Carries` says that a send takes a front
-- part of what it is given; `Obeys` is a driver that does its part. A rate is the
-- parameter `per_second` of a difference. Logging is left out.
--
-- All boards of a run share one queue: it is lent to a board for a call, and taken back. The clock
-- of the last reads, the answers to the last writes and the opening of the file are in `Env`.
--
-- The threads of a run meet in the shared queue. Schedule has the interleavings of any threads
-- on a queue; Running has those of a whole run, where a reader that finds the queue full waits
-- with its buffer and goes on later, while the writer takes blocks, and of its stop, in which
-- the boards are stopped one after the other while the other readers and the writer go on. There
-- a stopped board is read any number of times. BoardRunner has the same dispatch in one piece,
-- and Session the stop in one piece: the schedule in which no other thread comes in between. The
-- decode threads are not part of these steps, since each has a queue of its own. The calls that
-- change the statistics' settings are steps beside those of their thread; setInterval is one
-- step, and a shared pointer to a client is its place in a list.
--
-- Not modelled: the output of the command line; the settings of the sockets'
-- options and the Windows variants of the socket calls; vendor, the copies of other projects' code;
-- the Python bindings and the log, which convert and print.
pub mod Base
pub mod Board
pub mod Event
pub mod Decoder
pub mod Queue
pub mod Header
pub mod Writer
pub mod Histogram
pub mod HitTap
pub mod Daq
pub mod Cli
pub mod ClockSync
pub mod DecodeStage
pub mod Digitizer
pub mod CaenDigitizer
pub mod MockDigitizer
pub mod BoardRunner
pub mod Stats
pub mod Graphite
pub mod Tests
