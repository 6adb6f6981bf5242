-- ===== src/Binary/Messages.antt =====
-- The message types of binary.go. A map is the list of its entries in the order in which one
-- iteration visits them; a nil map, which Go reads as empty, is the empty list.
use core_runner.Common.{ℕ, Bytes}
use core_runner.Common.Maps.{Map}

pub record File : Type 0 where
  pub filename : Bytes
  pub tmp_path : Bytes
  pub size : ℕ

pub record HttpRequest : Type 0 where
  pub method : Bytes
  pub url : Bytes
  pub headers : Map Bytes Bytes
  pub body : Bytes
  pub files : Map Bytes File
  pub form : Map Bytes Bytes

pub record HttpResponse : Type 0 where
  pub status_code : ℕ
  pub headers : Map Bytes Bytes
  pub body : Bytes

pub record JobRequest : Type 0 where
  pub name : Bytes
  pub payload : Bytes
  pub timeout : ℕ

pub record JobResponse : Type 0 where
  pub payload : Bytes
