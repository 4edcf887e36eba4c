-- ===== src/Multiplexer/Progress.antt =====
-- That a waiting event is handled, whatever happens meanwhile.
use pointer_force.Prelude.{string_eq, int_eq, nat_eq}
use pointer_force.Common.{Config}
use pointer_force.Json.{Json}
use pointer_force.EventQueue.{EventQueue}
