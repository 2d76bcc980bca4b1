-- ===== src/Lib.antt =====
-- The CyberDeck firmware: the parts of its own logic that decide what happens, as executable
-- definitions with theorems about them. The firmware is a set of components under
-- components/cyberdeck, each with a policy that is free of platform calls and an adapter that
-- carries its decisions out; the policies are what is modelled here.
--
-- Net: components/cyberdeck/src/platform/networking/cyberdeck_net_coordinator.cpp and its header. A
-- `Coordinator` has the members of the class; each method is the function of its name, from a state
-- to a state, and `drain_pending` gives a `Drained` with the result and the calls of the notice sink.
-- `Net.Calls.run` runs a list of the calls that the session, the user, the timers and the worker make;
-- `set_notify` and `reset` stand outside it. `Net.Queue` reads the ring of eight cells as a list,
-- `Net.Spec` is what each call does to that list; it loses what finds no room, as the code does.
--
-- Window: components/cyberdeck/src/apps/runtime/cyberdeck_window_manager.cpp and its header. A
-- `Manager` has the members of the class, `Window.Calls.run` runs a list of its calls. A generation is
-- 64 bits wide and steps over 0, so the theorems on contexts ask for fewer than 2 ^ 64 calls; the
-- count of lost notifications wraps at 2 ^ 32.
--
-- Dispatch: components/cyberdeck/src/platform/display/cyberdeck_lvgl_dispatch_state.cpp and its header
-- are the `Job` and its operations; cyberdeck_lvgl_dispatch.cpp beside it is `Dispatch.System`. A
-- `Holder` is a caller of `run` between its take of the admission and its return, named for the next
-- access that it makes to what the threads share; a `Task` is the LVGL task in `dispatch_callback`. A
-- run is a list of events, in each of which one process makes one access; an operation on the word of
-- the job is one access, that of its exchange, and the stores that follow one are accesses of their
-- own. What FreeRTOS and LVGL answer is a choice of the event. A token has 29 bits, so the theorem on the calls made asks for fewer
-- than 2 ^ 29 - 1 entries of `run`; the one on the admission asks for no bound.
--
-- Wifi: components/cyberdeck/src/apps/wifi/cyberdeck_wifi_state_machine.cpp and its header. A `Machine`
-- has the members of state_machine_impl, and each public method is the function of its name;
-- `Wifi.Calls` has the callbacks, the keys (one function per screen of `press`) and the run of a list
-- of calls. Tokens are 64 bits wide, so the theorem on old tokens asks for fewer than 2 ^ 64 calls.
--
-- Terminal: components/cyberdeck/src/apps/shell/cyberdeck_terminal_filter.cpp and its header. `pass` is
-- the body of the loop of `feed`, which may leave a byte for another pass; `feed` runs twice as many
-- passes as there are bytes, which `Terminal.Bytes` shows to be enough, and `text` is its output
-- without the limit of a buffer.
--
-- Storage: components/cyberdeck/src/platform/storage/cyberdeck_sd_io_coordinator.cpp and its header. A
-- `System` is the coordinator with the lease objects of its clients; `drain` is split at its wait,
-- which gives up the mutex. `Storage.Leases` counts the leases, `Storage.Gate` is about closing.
--
-- Vfs: components/cyberdeck/src/apps/shell/cyberdeck_vfs_namespace.cpp and its header. A path is the
-- list of its bytes; `components` splits it, `put` keeps or drops a component, `append_component`
-- writes it out, and a failed call is `none`. `Vfs.Paths` is about the form of what resolves,
-- `Vfs.Backends` about where it leads.
--
-- Persistence: components/cyberdeck/src/apps/wifi/cyberdeck_wifi_persistence_queue.cpp and its header.
-- `take` is `take_next`; `Persistence.Pending` reads the snapshot in flight and the ring as one list.
--
-- History: components/cyberdeck/src/apps/shell/cyberdeck_history.cpp and its header. A line is the list
-- of its bytes.
--
-- Quota: components/cyberdeck/src/apps/runtime/cyberdeck_app_quota.cpp and its header, with 64-bit
-- generations that step over 0.
--
-- Editor: components/cyberdeck/src/apps/editor/cyberdeck_editor_model.cpp and its header. `Editor.Utf8`
-- and `Editor.CodePage` are its readers and writers of code points, `Editor.Codec` is `decode` and
-- `encode`, `Editor.Position` the moves and searches in a text, and `Editor.Model` the class `model`;
-- `open` is `load` there, and `replace_selection` is `insert`. A position inside a text is the list of
-- the bytes from there on where code only reads forward. A loop that takes a sequence of bytes in a round
-- has as many rounds as there are bytes. `Editor.Model.Reach` runs the operations in any order.
--
-- EditLine: components/cyberdeck/src/apps/shell/cyberdeck_edit_line.cpp and its header, each method by
-- its name; `EditLine.run` makes a list of calls. What is valid UTF-8 is what `Editor.Utf8` says.
--
-- Recovery: components/cyberdeck/src/apps/system/cyberdeck_recovery_policy.cpp and its header.
-- `Recovery.Boots.run` makes a list of the calls of a device.
--
-- Ble: components/cyberdeck/src/apps/bluetooth/cyberdeck_ble_state_machine.cpp and
-- cyberdeck_ble_types.cpp, with their headers. `Ble.Addresses` has the functions on texts, `Ble.Devices`
-- the class `device_list`, `Ble.Machine` the struct `State`, and `Ble.Scans`, `Ble.Pairings`, `Ble.Links`,
-- `Ble.Clocks`, `Ble.Keys` and `Ble.Cycle` the operations by their names; `submit_auth` is `submit`
-- there, and each screen of `press` is a function. `Ble.Calls.run` makes a list of calls. The texts of the
-- menu and `sanitize_name` are not modelled, and the radio and the manager are the calls' arguments.
--
-- The loops over the slots and the rings are structural recursion, so no fuel is used there. Arrays
-- are lists of the array's length. Not modelled: the adapters over LVGL, ESP-IDF, libssh2 and the file system,
-- the vendored components, and the policies of the other components.
pub mod Ble
pub mod Common
pub mod Dispatch
pub mod EditLine
pub mod Editor
pub mod History
pub mod Net
pub mod Persistence
pub mod Quota
pub mod Recovery
pub mod Storage
pub mod Terminal
pub mod Vfs
pub mod Wifi
pub mod Window
