-- ===== src/Worker.antt =====
-- worker.go: a worker process behind its pipes, and the pool of workers behind one queue.
pub mod Pipe
pub mod Process
pub mod Pool
