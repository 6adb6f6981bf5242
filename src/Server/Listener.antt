-- ===== src/Server/Listener.antt =====
-- From the bytes that redis sends to the websocket connections.
use core_runner.Common.{List, [], Bytes}
use core_runner.Common.Maps.{nat_eq, bytes_eq}
use core_runner.Common.Sink.{buffer_write}
use core_runner.Redis.{write_command}

-- The bytes of a list of strings in the format that redis has for both directions.
abbrev pub sent : List Bytes → Bytes
sent strings = (write_command buffer_write strings []).0
