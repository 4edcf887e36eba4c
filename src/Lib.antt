-- ===== src/Lib.antt =====
-- PointerForce: a model of the daemon that runs shell commands on the keys of chosen input devices,
-- of its control server and of the editor of its configuration, with what makes them correct.
--
-- The parts and how they interact. `main` (src/main.cpp) loads the configuration (src/config.cpp),
-- passes the single-instance guard and goes into the background (src/daemon.cpp), opens the
-- devices that match (src/devicemanager.cpp, src/device.cpp) and starts a reader thread for each.
-- A reader pushes key events into the queue (src/eventqueue.cpp). The multiplexer
-- (src/multiplexer.cpp) pops them, tells the observers, looks the key up in the mapper
-- (src/mapper.cpp) and hands the command to the shell (src/executor.cpp). The control server
-- (src/control.cpp) answers JSON lines: it lists and edits the mapper's table, reloads the
-- configuration and streams events as an observer. The bridge (frontend/main.cpp) edits the
-- configuration file through the store (frontend/services/ConfigStore.cc), which the daemon loads
-- at the next reload.
--
-- The files:
--   * Prelude: Boolean tests, lists, integers, and `Outcome`, a call that may throw;
--     Assoc: std::map and std::unordered_map as association lists, without an order of their own
--     except for the observers' ids, which the listing of the multiplexer keeps rising.
--   * Common (include/common.hpp): the records DeviceMatch, DeviceConfig, Config, InputEvent.
--   * Keys (name_table, code_table, Mapper::name_to_code, Mapper::code_to_name) and Mapper (init,
--     lookup, add_binding, remove_binding, all_bindings) of src/mapper.cpp; the mapper's child
--     Abstract: its interface as a specification without maps.
--   * Json: jsoncpp as an interface; Config (src/config.cpp): load, validate.
--   * ConfigStore (frontend/services/ConfigStore.cc): validateDevice, validate, read; its child
--     Disk: write. Editor (frontend/main.cpp): the four handlers under /api/config that edit.
--   * Bridge (frontend/main.cpp): the handlers that pass a command on; its children Warning: the
--     path that the daemon reports, with daemonPathWarning of the store, and GET /api/config;
--     Events: one stream of events.
--   * EventQueue (src/eventqueue.cpp): push, pop, shutdown, and sequences of calls.
--   * Multiplexer (src/multiplexer.cpp, src/executor.cpp): add_observer, remove_observer, notify,
--     handle_event, reload_if_asked, round and run. The multiplexer's state is `Shared`; what the
--     other threads and the signal handlers do between two rounds are `Outside` steps.
--   * System: the daemon's threads as a step relation on `State`, which is `Shared` and the event
--     streams that are open, and what is reached from the start of the loop; its children
--     Started: from the arguments of `main` on, Applied: a new file and a reload after it.
--   * EventLoop (src/event.cpp): read_next of the older loop of one device.
--   * Device (src/device.cpp): open, grab, ungrab, close, moves, name, vendor_product, matches;
--     DeviceManager (src/devicemanager.cpp): probing, open_all, start, stop, get_info, reader.
--   * Control (src/control.cpp): the replies, each command and handle_line; its children Client:
--     the loop that reads a connection, Serve: a whole connection, Listening: start, stop and
--     accept_loop.
--   * Pfctl (src/pfctl.cpp): the requests of the command line; its children Printing: the texts,
--     Program: main. Socket: the loop that writes a string, as src/control.cpp, src/pfctl.cpp and
--     frontend/services/ControlClient.cc have it.
--   * ControlClient (frontend/services/ControlClient.cc): send, resolveSocketPath, streamEvents;
--     its child Connection: the descriptor of a connection.
--   * Daemon (src/daemon.cpp): pid file, guard, daemonize; Main (src/main.cpp): the command line,
--     the start and the end.
--   * Tests: small inputs, and each theorem at one of them.
--
-- What is a parameter: the constants of linux/input-event-codes.h (`input_code`), the JSON library
-- (`Json`, with the laws `IsTotalOnKinds`, `IsBuilding` and `IsReadable`, its documented
-- behaviour), and the answers of the system: files, sockets, forks, kill, libevdev, the devices'
-- directory.
--
-- Bounds and fuel. Numbers are unbounded: key codes and counts of entries are far below 2 ^ 31.
-- The loop that reads a connection takes fuel: one round more than there are bytes and reads is
-- enough, and so is one more than there are bytes for the loop that cuts an event stream. The
-- multiplexer's loop runs over the list of what happens before each round. All else is structural
-- recursion.
--
-- Not modelled: messages on the standard error and in the log, the help text of the daemon and its
-- crash handler; std::sort is insertion sort by the order of strings. A time-out of a socket is
-- among its answers. An operation of the queue and of the mapper holds its lock for its whole
-- length, and so do the addition, the removal and the copying of observers, so that threads are
-- sequences of operations; the accesses to g_config, which has no lock, are taken one after the
-- other too. A round of the loop is one step, up to its copy of the observers; the calls of these,
-- which come without the lock, are steps of their own in System and may be delayed for good there,
-- as a write to a client may be, while `run` of Multiplexer takes each to return. That a write may
-- raise SIGPIPE is left out. A pid file that opens is taken to be written. One edit of the
-- configuration file is made at a time: two at once would share the temporary file. A text that is
-- nested past the parser's limit makes it throw in the daemon's load and in handle_line
-- (`gives_up`); elsewhere it counts as one that does not parse. Of the older loop, run does not
-- compile and is left out. A call that throws carries no state. Of the repository, the web pages
-- and the web framework that frontend/main.cpp registers its handlers with are left out.
pub mod Prelude
pub mod Assoc
pub mod Common
pub mod Keys
pub mod Mapper
pub mod Json
pub mod Config
pub mod ConfigStore
pub mod EventQueue
pub mod Multiplexer
pub mod System
pub mod EventLoop
pub mod Device
pub mod DeviceManager
pub mod Control
pub mod Daemon
pub mod Main
pub mod Editor
pub mod Pfctl
pub mod Socket
pub mod ControlClient
pub mod Bridge
mod Tests
