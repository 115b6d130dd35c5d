-- ===== src/Lib.antt =====
-- A model of spokes-receive-pack, the server's side of `git push`: it announces the references,
-- reads the commands and the pack of a client, hands the pack to `git index-pack`, checks that what
-- the commands point to is connected, and reports on each command.
--
-- The program's parts, and the files that model them:
--   * internal/pktline/pktline.go: Pktline.antt. A Pktline is the buffer of the source with its three
--     slices; Read works on an Input, a Pktline beside the reader. Proofs: Pktline/Reads.antt (what a
--     line leaves in the Pktline) and Pktline/Progress.antt; Pktline/Slices.antt has the buffer.
--   * internal/pktline/capabilities.go: Pktline/Caps.antt, the map as an association list;
--     Pktline/Caps/Accessors.antt has the accessors for single capabilities and
--     Pktline/Caps/Names.antt Names. Proofs: Pktline/Caps/Parsing.antt, Pktline/Caps/RoundTrip.antt
--     and Pktline/Caps/Names.antt.
--   * internal/config/git.go: Config.antt. Proofs: Config/Listing.antt (GetConfig), Config/Lookup.antt
--     (Get, GetAll) and Config/Sizes.antt (ParseSigned).
--   * internal/objectformat/git.go: ObjectFormat.antt.
--   * internal/sockstat/sockstat.go: Sockstat.antt, and Sockstat/Values.antt.
--   * internal/spokes/spokes.go, in Spokes: Packet.antt (writePacketLine, writePacketf), Command.antt
--     (the type command), HiddenRefs.antt (isHiddenRef), RefLine.antt (the pattern
--     validReferenceName), Limits.antt (the settings), ReadCommands.antt (readCommands and
--     dumpPushOptions), Unpack.antt (the arguments and the output of index-pack), Connectivity.antt
--     (performCheckConnectivity and the loop over the commands), Report.antt (writeReport, report),
--     Discovery.antt (performReferenceDiscoveryIsolatedPipes), Discovery/Shared.antt
--     (performReferenceDiscovery), NetworkRepo.antt (networkRepoPath), Supported.antt (the line of
--     capabilities, supportedCapabilities), Execute.antt (readPack, execute), Programs.antt (the runs
--     of git that isFastForward, performCheckConnectivity, performCheckConnectivityOnObject and
--     readPack make, with getAlternateObjectDirsEnv) and Entry.antt (Exec).
--     Each has its proofs in files below it that are named for what they show;
--     ReadCommands/Sent.antt has the lines that a client sends. Execute/Delivers.antt composes them,
--     by the stages in Execute/Greets.antt, Execute/Packs.antt and Execute/Stages.antt, and Execute/Ends.antt the ends of
--     the parts, which Packet, Report and Discovery have in files of that name.
--   * internal/governor, in Governor: Messages.antt (the messages of governor.go, and readSockstat),
--     Schedule.antt (schedule and Start), Conn.antt (Conn, SetError, SetReceivePackSize, Finish) and
--     Procstats.antt (procstats_linux.go). Start is a loop over rounds, in which the governor, a
--     function from rounds to what it does, answers, is silent or hangs up; a nil Conn is none. The
--     Line is the socket, with what was sent and how long Start slept.
--   * internal/integration/parse.go: Client.antt, the client of the integration tests (readPktline,
--     readAdv, parseSideband1, readResult). Its proofs put it behind what the server writes.
--   * internal/integration/chdir.go: Client/Chdir.antt.
--   * spokes-receive-pack.go, internal/receivepack/receivepack.go, internal/integration/util.go and
--     the wrappers under cmd: Main.antt.
--   * Base has the lists, texts, 64-bit integers and the monad Exec of the model, in which a function
--     maps a state to a Result and a state; what was changed before an error stays changed. Go has
--     what the source uses of the packages strings, strconv, path/filepath, encoding/json, io and of
--     writers.
--   * Tests has the runs on concrete inputs.
--
-- Text is a list of bytes; Go's int is ℤ with the wrap-around of 64 bits. A reader is the bytes that
-- come and the error behind them; a writer takes all bytes or has a room that runs out.
--
-- The loops of readCommands, dumpPushOptions and GetConfig run on fuel, the length of what is still to
-- be read, and one more for the loops over packets; a Result is `spent` if the fuel runs out. Each
-- round takes bytes off the input, so it does not. The loop of report has the length of the report as
-- fuel, and each round sends at least a byte. The loop of Start runs as long as the governor asks to
-- wait, so its fuel is the number of rounds that are followed, and the theorems ask for more of them
-- than there are waits.
--
-- The functions in the one pipe of performReferenceDiscovery run at the same time. Each is cut where
-- it reads wroteCapabilities, sets it, and writes to the output, and a run is a list of numbers, which
-- says whose turn it is; a list too short for all of them to end gives `spent`. Four turns for each
-- line that git sends are enough for a function (Discovery/Shared/Ends.antt). What they write together
-- in every order is in Chunks.antt, Shuffled.antt, Interleaves.antt and Outputs.antt beside it.
--
-- The world around the program is Spokes/Outside.antt: the runs of git, the file system, the text of
-- an error and Go's order over a map are values of a record, and what they do is a hypothesis where
-- a theorem needs it. Spokes/Programs.antt makes such a record from the runs of git with their
-- arguments, environment and input, for a repository and its quarantine, and Exec uses that. So are
-- what the governor answers (Daemon), the files of /proc (Proc), the files that networkRepoPath asks
-- for (Files), the text of a string in JSON, the processes that main and the wrappers start, and the
-- error that the pipe library picks of those of a pipe's stages.
--
-- Not modelled: the signals that cancel a run; the statistics of the process on other systems than
-- Linux; the failpoints; the lines that the packages write with log (that a push waits for the
-- governor, that the output of index-pack is too slow); the errors of making the pipes to index-pack;
-- the text of WaitError; and, of the tests, all but the client of parse.go and chdir. The goroutines
-- on the outputs of index-pack run in one order.
mod Base
pub mod Go
pub mod Pktline
pub mod Config
pub mod ObjectFormat
pub mod Sockstat
pub mod Spokes
pub mod Governor
pub mod Client
pub mod Main
mod Tests
