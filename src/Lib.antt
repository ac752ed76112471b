-- ===== src/Lib.antt =====
-- Verification of knot-virtualthing: a virtual KNoT thing that reads the registers of a Modbus slave
-- and publishes them to the KNoT cloud.
--
-- The program is a set of callbacks around one state machine. ell's main loop calls src/device.c when
-- a connection comes up or goes down, when the cloud sends a message, when a timer ends or when a
-- sensor is polled. Each callback gives at most one event to src/sm.c, and the machine answers by
-- calling the functions of src/device.h. These keep the thing in memory, its credentials and its
-- configuration in settings files (src/storage.c, src/properties.c), the timers of its sensors
-- (src/event.c, src/poll.c), and speak to the cloud library.
--
-- Files:
--   Prelude    shared names, Boolean tests, the integers of C, texts
--   Bits       bitwise `&` and `|` of words, byte by byte
--   Protocol   the types of the KNoT protocol library that the program uses
--   Sm         src/sm.c, src/sm.h, src/sm-pvt.h: get_next_*, enter_*, sm_input_event, sm_start.
--              The machine works on any device: the record `Device` has one field for each function
--              of src/device.h that the machine calls. Sm/Timer, Sm/Diagram, Sm/Traces, Sm/Quiet,
--              Sm/Frame and Sm/BringUp are its properties.
--   Event      src/event.c: Event/Compare the comparison and check of values, Event/Sensors the timers
--   Poll       src/poll.c; Poll/Timers its timers
--   Modbus     src/iface-modbus.c: Modbus/Endian the orders of bytes, Modbus/Read the reading of a
--              value; Modbus/Endian/Wire says what a slave of each order sends. Modbus/Connect is the
--              connection: iface_modbus_start, attempt_connect, on_disconnected, iface_modbus_stop, with
--              the calls of libmodbus and ell as a log; Modbus/Connect/Held says what is live in it
--   Thing      struct knot_thing of src/device.c and its setters; Thing/Calls the calls of the cloud
--              library and of ell's timers as a log
--   Storage    src/storage.c; Storage/Library is the interface to ell's settings and the system,
--              Storage/Held the open descriptors, Storage/Foreach the walks over groups
--   Properties src/properties.c: the credentials, the update of a data item, the loading of the
--              single parts of a file (Properties/Load, Properties/Limits) and of the three files
--              (Properties/Create, with the well-formed things in Properties/Create/WellFormed);
--              Properties/Closed follows the descriptors through all operations
--   Device     src/device.c: Device/World the functions of src/device.h on the whole state,
--              Device/Handlers the callbacks, Device/Session a list of callbacks in any order; its
--              record of functions `device` instantiates `Device` of the machine. Device/Reply,
--              Device/Sound, Device/Armed, Device/Safe, Device/Feeds, Device/Invariant, Device/Up,
--              Device/Publish, Device/Links, Device/Masked and Device/Leak are its properties;
--              Device/Polling is the creation of the pollings, and Device/Start is device_start and
--              device_destroy on the state of the whole process. Device/Run puts the machine and the
--              connection to the slave together: its timer, its loss and all other callbacks in any
--              order; Device/Run/Mask and Device/Run/Started are its properties
--   Options    src/settings.c: parse_args and settings_load over what getopt_long answers
--   Main       src/main.c: main, its calls as a log
--   Examples   concrete devices, files and values, with the theorems applied to them
--
-- State and operations. A C function that changes state is a function on the state it changes, which
-- returns its `int` as a ℤ beside the new state. `World` is all state of the program but the state of
-- the machine; `Store` is the state of src/storage.c with the files; the calls to the cloud library and
-- to the timers are a list, the newest first. An errno value is negated as in the code. A pointer that
-- may be NULL is an Option; where the code reads through NULL, or through a pointer of another type
-- than it takes it for, the World is marked `crashed`, and properties_update_data_item returns none.
-- A callback runs to its end before the next one: the program has one thread.
--
-- Parameters. ell's l_settings is the record `LSettings` with the laws `SettingsLaws`; the operating
-- system is a function `System` from the number of a call to its errno; timers, return codes of the
-- cloud library and random numbers are functions of the log (`Answers`), and the printing
-- of an id in hexadecimal is a function; the slave's answers are a
-- `Slave`; the constants and checks of the KNoT protocol library are a `Knot`; the type float is a
-- `Float`. What libmodbus answers is a
-- `ModbusLibrary`, with `SocketAnswers` for what the code relies on: the socket of a context is -1
-- exactly where no connection is open. getopt_long's answers are a list of `Opt`, the main loop and
-- daemon are in `MainSystem`.
--
-- Bounds. A 32-bit and a 64-bit word is a number with its wrap-around written out. Loops go over
-- lists, and need no fuel. What an int becomes on its
-- assignment to a field of knot_schema, whose widths are those of the protocol library, is in `Knot`.
--
-- Not modelled: device_get_id and device_set_log_priority, which read or pass on one value; the texts
-- that src/settings.c prints; what sscanf finds in the address of a slave, and how getopt_long reads the
-- command line, which are parameters; and the bodies of the main loop and of the libraries. Memory is
-- not modelled, except for whether the thing holds what it has allocated; an allocation does not fail,
-- except those of timers, contexts and l_io. The two walks over the groups of a file are modelled though
-- nothing in src/ calls them.
--
-- A write of a file writes all of it or fails: that pwrite writes a part and src/storage.c takes this
-- for a success is left out, so what is said of a save that returns 0 is said of complete writes. The
-- timers of the sensors and of the pollings are set again after their
-- callbacks (Event/Sensors.fire_sensor, Poll.fire); sessions run the callbacks alone, and their log has
-- the end of the reply timer, but not those of the other timers.
pub mod Prelude
pub mod Bits
pub mod Protocol
pub mod Sm
pub mod Event
pub mod Modbus
pub mod Storage
pub mod Device
pub mod Properties
pub mod Poll
pub mod Examples
pub mod Thing
pub mod Options
pub mod Main
