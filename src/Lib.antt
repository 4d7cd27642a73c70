-- ===== src/Lib.antt =====
-- DSTX: a daemon that reads PlayStation and Nintendo controllers and offers them as virtual
-- gamepads. This library models the C core under dstx/src.
--
-- A worker of the daemon reads a raw report from the controller, a driver translates it into the
-- slot and into input events, and the virtual device (uinput, or UHID) hands rumble and effects back,
-- which the pipelines turn into output reports. All of them share one record, the slot.
--
-- Controller: `controller_t` of dstx/src/dstx.h, with its enums, and get_trigger_axis_value. The
--   fields are grouped by the headings of the struct; descriptors, paths and names are left out, and so
--   is the mutex, since every function here runs between one lock and its unlock, or takes what it
--   read as an argument. Controller.Config: `slot_config_t` and the conversions of dstx/src/utils.c.
-- Keys: dstx/src/keys.c. `apply_loop` is the loop over the physical buttons, `press` the switch.
-- Debounce: debounce_physical of dstx/src/drivers.c. The clock is an argument; it is gettimeofday, so
--   theorems that need it to go forward say so.
-- Drivers: safe_normalize, translate_ds4 and translate_dualsense of dstx/src/drivers.c. What they
--   write to uinput is the list of events, in order; `read_axes` is the block on the sticks,
--   `finish_report` what follows it.
-- AxisSystem: dstx/src/axes.c. `float` is a parameter (Float) with the laws that a theorem needs
--   (FloatLaws); conversions, tests and integer arithmetic are the code's. A result of `none` is
--   undefined behaviour: the overflow of an int32_t, or a read outside of the table of the curves.
-- Uhid: the reports of dstx/src/uhid.c. A buffer is a list of its size, and `none` a write behind it.
-- Output: the output reports of dstx/src/output.c. A report is the list of its bytes, crc32 of zlib a
--   parameter, and memcpy of a uint32_t stores the lowest byte first, as on the machines that the
--   program is built for.
-- Effects: force feedback in dstx/src/output.c, over a `double` with sin and fabs as parameters
--   (Waves); `none` is a read outside of the arrays of effects. Pipeline: rumble_process_pipeline and led_process_pipeline of the same file; a call takes
--   the time that it reads and returns the slot, the time of the last report and what it sent.
-- Ledfx: requests and frames of dstx/src/led.c, and three of its effects. The curves of the other
--   effects are floating point throughout; a frame takes their colour as an argument.
-- Registry: the slots that dstx/src/daemon.c hands out; `register_slot` is the middle of
--   try_register_control, from the saved configuration to the flag of the LED. Profiles: following and
--   saving in dstx/src/settings.c; `settings_round` is a turn of settings_worker with no request and
--   no change of the file, and whether the file is written is an argument.
-- Profiles.Json: how a slot is written into the file of a profile and read back. cJSON is the parameter
--   `CJson`, which prints and parses a tree. Profiles.Requests: the requests to the settings thread,
--   with the post and the wait of profile_request_sync in dstx/src/utils.c (50 steps of 20 ms at
--   most); what the files answer is the argument `Disk`, and Race is the two threads, step by step.
-- Nsw: the Switch Pro controller of dstx/src/nsw.c. Forward sends the keys and axes that changed to the
--   virtual device, as attempts to write whose outcome the source does not ask; Read is nsw_read_events over the list of what read(2) gives, Rumble is
--   nsw_send_rumble and nsw_cleanup over what the device answers.
-- Worker: controller_worker of dstx/src/daemon.c. Virtual opens and closes the virtual device that the
--   slot asks for; Requests serves layouts and the events that show another program at work.
--   Watchdog: the heartbeat of the workers and the restart of a stale one in run_daemon_loop.
-- Text: what the command line and the terminal interface use of the C library on text (strcmp, atoi,
--   strtol, sscanf). `Libc` has what C leaves open there.
-- Commands: dstx/src/commands.c. The file itself has what the commands write, which it shares with
--   Console, and the preset setters of dstx/src/axes.c; Slot the handlers and their table, Cli the
--   words of process_cli_command. A handler gives the slot and the exit code. run_batch takes the
--   number of the words as fuel, and every round drops at least one.
-- Console: the terminal interface in dstx/src/ui.c. The file itself is the chain of slot commands as a
--   list of rules, Lines the other commands of a line, Keys the loop byte by byte with what each round
--   has seen of the shared memory; Select has update_and_get_slot_idx of dstx/src/display.c.
-- Startup: the loop over the slots in dstx/src/main.c, with which the daemon starts.
-- Clients: the bridge, the command line and the terminal interface on one memory, call after call;
--   Clients.Requests: what they ask of the settings thread.
-- Bus: the methods of dstx/src/dbus-handlers.c that write to a slot, with their checks and replies.
--   Of open_shm_handle in dstx/src/dbus-utils.c the test of the slot is written out, and whether the
--   memory is mapped is an argument. Getters has those that read one, an answer being the list of
--   its numbers, Getters.Expected what a client expects of them after a call, by positions in the
--   answer, and ProfileCalls the requests of those for profiles.
-- Monitor: daemon_monitor of dstx/src/dbus-monitor.c with the comparisons of dstx/src/dbus-utils.c.
--   Round is what it does with a slot, Status whether the daemon is alive; what the system calls answer
--   and the times that are read are arguments.
-- Utils: safe_write and the rate limits of the log, in dstx/src/utils.c.
-- Examples: runs on concrete inputs, with fixed-point numbers in place of floats.
-- Common: Boolean tests, lists for arrays, integers and casts.
--
-- Unsigned widths are written out as remainders, int16_t and int as integers with range predicates.
-- Loops run over the arrays or the lists of what the kernel delivers, so no fuel is needed; safe_write
-- runs over the outcomes of write(2) and waits when there are no more. The wait for a request counts
-- its steps down, as the source does.
--
-- Not modelled: the set-up of uinput and UHID devices, terminal modes, systemctl and the search for
-- input nodes (system calls); the handshake over hidraw, the poll loop and hotplug of the daemon; the
-- search for the Switch Pro's event node; the files of profiles and their reload; the names that D-Bus
-- reports of a device, its service methods and the packing of messages; the drawing of the terminal
-- interface, the text that the commands print, and the graphical interface.
-- Logging is left out everywhere.
pub mod Common
pub mod Controller
pub mod Keys
pub mod Debounce
pub mod AxisSystem
pub mod Drivers
pub mod Profiles
pub mod Registry
pub mod Uhid
pub mod Utils
pub mod Bus
pub mod Worker
pub mod Watchdog
pub mod Text
pub mod Commands
pub mod Console
pub mod Startup
pub mod Clients
pub mod Monitor
pub mod Ledfx
pub mod Nsw
pub mod Output
pub mod Pipeline
pub mod Effects
pub mod Examples
