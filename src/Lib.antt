-- ===== src/Lib.antt =====
-- core-runner: a Go process that hands HTTP requests and jobs to worker processes over pipes.
--
-- Parts, by file of the repository.
-- - binary.go: the messages HTTPRequest, HTTPResponse, File, JobRequest and JobResponse and their
--   byte format. Binary.Messages has the types, Binary.Wire the format by itself, as the list of the
--   pieces that a value is written in, Binary.Write the Write methods over any io.Writer, and
--   Binary.Parse the Parse methods over the bytes that are left in a buffer.
-- - worker.go, readMsg and writeMsg: Worker.Pipe. The output of a process is the list of the bytes
--   that it writes before it closes its output.
-- - worker.go, Worker: Worker.Process (Start, Stop, Wait, Kill, Restart, send) and
--   Worker.Process.TimedSend (timedSend). Worker.Process.Exchange, Http.Worker.Exchange and
--   Jobs.Exchange follow a message and its answer over the pipes. What the operating system
--   answers is an argument, and the signals and waits that it carries out are recorded.
-- - worker.go, Pool: Worker.Pool (Start and Stop) and Worker.Pool.Queue, in which the callers of
--   Send, the goroutines in jobLoop and a Stop are steps in any order.
-- - util.go, NewUUID4: Uuid.
-- - jobs/jobs.go: Jobs. A call of a job by name; the worker pool is an argument.
-- - http/static.go: Http.Static. A handler is the list of what it does to its response
--   (Http.Response); the answers of os.Stat are an argument.
-- - http/worker.go: Http.Worker. A request is what the handler reads of an *http.Request, the worker
--   pool is an argument; requests are handled one after another.
-- - http/websocket/pool.go: Websocket.Pool. Subscriptions to topics; a connection is its address.
--   Websocket.Pool.View is the quotient of the pools by which connections are in which topic.
-- - http/websocket/connection.go, websocket.go: Websocket.Connection. The goroutines read and write
--   of a connection and the callers of Send and Close are steps in any order.
-- - redis/client.go: Redis. The commands over any writer, and readResponse over the bytes that the
--   server still sends; how many of them one Read copies is an argument. Redis.Client is the
--   connection: ReadResponse with its loop over pongs, PSubscribe, Publish, Close, Reconnect, and
--   the rounds of livelinessLoop and its attempts to connect again; Redis.Topics and
--   Redis.Subscriptions follow a Reconnect. In Redis.Liveliness its
--   goroutines and the callers of Close and Reconnect are steps in any order.
-- - cmd/server/main.go: Server. The handlers of websocket messages and ends, the round of the redis
--   listener, the redis address, RunJob and mustExist; Server.Startup is main from the flags to
--   ListenAndServe, with what the system answers as an argument, and with an error of Listen in
--   startRPC, which runs beside it, at any of three stages of main; Server.Messages and Server.Listener
--   put the websocket events, the listener and the redis client together, Server.Chain the static
--   handler and the worker handler.
--
-- Values. A string or []byte is a list of byte values; numbers are natural numbers, and a field of
-- type uint64 is below 2^64 where a theorem says so. A map is an association list in the order of
-- one iteration. A function returns a value, an error or a panic (Common.Go).
--
-- Bounds and fuel. Lengths that make may allocate are at most 2^48, as in the Go runtime on 64-bit
-- systems. The chunk loops of readMsg and writeMsg take as fuel the number of bytes that are left:
-- each round moves at least one. readResponse takes as fuel one more than the bytes that are left:
-- every nested call first takes a line. ReadResponse may read as many pongs as there are bytes. A Read
-- copies what is asked for as far as it is in the reader's buffer, which holds 4096 bytes.
--
-- Not modelled: two goroutines that read from one redis connection at a time; the parsing of the
-- flags and net/rpc; logging; the mutex of a worker (the calls of one worker are a sequence); the
-- goroutine that copies a worker's error output to the log; data races on fields that no mutex
-- guards, but for the order of whole steps; and the PHP code of the workers.
pub mod Common
pub mod Binary
pub mod Worker
pub mod Jobs
pub mod Http
pub mod Websocket
pub mod Redis
pub mod Uuid
pub mod Server
pub mod Tests
