-- ===== src/Lib.antt =====
-- A model of the firmware of the Zigbee energy meter, with the theorems that make it correct. The code
-- is under seeed-studio-zigbee-energy-meter/src; every path below is relative to that folder.
--
-- The firmware counts the light pulses of an electricity meter in hardware, adds them to a total
-- that survives a reset, and publishes the total over Zigbee. Its parts and the files that model
-- them:
--   * hw_pulse_counter.c (Pulse): the bring-up of comparator, timers and event channels, and the
--     reading of the 32-bit counter. A call of nrfx is an element of a list, and what it answers is
--     the record `Nrfx`. Pulse/Filter runs pulses through a chain configured by such a list: the
--     width timer is the record `WidthTimer`, its setup (mode, frequency, width, CC[0], the short) is
--     read off the calls, and what its specification says of a setup is `WidthTimerLaws`.
--     Filter/Total goes on to the total.
--   * pulse_accumulator.c (Accumulator): the 64-bit total behind that counter.
--   * persist_policy.c (Persist), nvs_store.c (Nvs): when the total is saved, and where. The NVS of
--     Zephyr is the record `NvsBackend`, and what its documentation promises is `NvsLaws`, and
--     `MountKeeps` for a mount after a loss of power.
--   * calibration.c (Calibration), metering_scale.c (Metering), battery_level.c (Battery),
--     report_gate.c (Gate): ranges, encodings and the gate of the explicit reports.
--   * button_press_classifier.c and button_action.c (Button): from a duration to an action.
--   * led_priority.c and led_controller.c (Led): which pattern the LED shows, and its rendering. The
--     arbiter's abstract view (Led/Priority/Order) is the set of the patterns asked for, a quotient of
--     the lists of requests.
--   * zigbee_app.c (Zigbee): attribute initialisation (Attrs), network signals (Signals), a
--     coordinator's writes (Write), publishing (Publish) and the diagnostic probe (Probe). ZBOSS is
--     the record `Zboss`; where a theorem needs the effect of its attribute macro, the hypothesis is
--     `Stores`.
--   * main.c (Main): the button (Press), the start (Boot, with its poll loops in Poll), the sample
--     loop (Loop) and the blinking of a failed LED controller (Blink). Press/Timed sets the button's
--     edges, the delayed work of the hold indicator, the LED and the uptime side by side, with a
--     bound on the work queue's latency; Press/Others says what the other threads ask of the LED.
--   * zb_meter_ep.h and the attribute lists of zigbee_app.c (Zigbee/Descriptors): what the endpoint
--     declares. The SDK's macros are the record `Sdk`, and what its headers say of them is `SdkLaws`.
--   * The threads together (System): one state, and a step for each thing that a thread does. A turn
--     of the sample loop is three steps, a join two and a report of the timer two, so that the other
--     threads come in between. System/Life strings starts, runs of the threads and losses of power
--     together: only the flash comes through, and a ledger keeps what became of the pulses.
--     System/Spec is what the threads promise together, an energy meter of four numbers, View takes
--     a state to one, and Refines shows that each step is one of the specification.
-- Config has the build's Kconfig values, Rc the return codes, and Tests concrete runs.
--
-- Each operation of a C file is a function of the same name, less the file's prefix, on a record of
-- the file's static variables; it returns the new record, and its result where it has one. An
-- interrupt, a timer tick, a callback or a turn of a loop is one such step, as the code's locks and
-- its single writers make it, and a theorem on interleavings takes a list of steps or a path of the
-- step relation `Step` of System. Numbers are natural, a machine word wraps where it is written
-- (`% 2 ^ w`), uptimes are integers.
--
-- The two poll loops of the start run on fuel: 301 turns are enough for the hold of 3000 ms at 10 ms
-- a turn, 51 for the wait of 5000 ms at 100 ms a turn, and a theorem each gives the bound in general.
--
-- Not modelled: the log lines, and the registers that are read only to be printed; the threads'
-- scheduling inside a step; the LED's timer ticks during the start, whose uptime is one reading;
-- pulses of the two inputs that overlap; interrupt priorities.
pub mod Prelude
pub mod Accumulator
pub mod Persist
pub mod Gate
pub mod Rc
pub mod Calibration
pub mod Metering
pub mod Battery
pub mod Button
pub mod Led
pub mod Nvs
pub mod Config
pub mod Pulse
pub mod Zigbee
pub mod Main
pub mod System
pub mod Tests
