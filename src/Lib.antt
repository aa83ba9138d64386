-- ===== src/Lib.antt =====
-- A model of esp_dmx, a library that sends and receives DMX512 and RDM on the ESP32.
--
-- The program has a driver, one for each port, with a buffer of 513 octets for the current packet
-- (src/dmx); a codec that writes RDM packets to that buffer and reads them from it
-- (src/rdm/driver.c); a controller side, which sends requests and searches the bus for devices
-- (src/rdm/controller); and a responder side, which answers requests from a table of parameters and
-- keeps a queue of messages for the controller (src/rdm/responder).
--
--   Uid          rdm_uid_t and its comparisons: src/rdm/include/types.h, src/rdm/include/uid.h
--   Format       rdm_format_is_valid and rdm_format_encode: src/rdm/driver.c
--   Packet       rdm_header_t and the macros on its fields: src/rdm/include/types.h;
--                rdm_read_header, rdm_read_pd and rdm_write: src/rdm/driver.c
--   Buffer       the slots of the buffer: src/dmx/io.c
--   Send         sending and the timer's interrupt: src/dmx/io.c, src/dmx/hal/timer.c
--   Uart         the interrupt of the UART: src/dmx/hal/uart.c
--   Receive      receiving a packet: src/dmx/io.c
--   Response     the replies of a responder: src/rdm/responder/utils.c
--   Responder    rdm_send_response and handlers: src/rdm/responder.c, src/rdm/responder/utils.c,
--                src/rdm/responder/discovery.c
--   Settings     baud rate, break and mark-after-break: src/dmx/driver.c
--   Power        enabling and disabling a port: src/dmx/driver.c
--   Sniffer      src/dmx/sniffer.c and the interrupt of src/dmx/hal/gpio.c
--   Queue        the ring of queued messages: src/rdm/responder/queue_status.c
--   Controller   rdm_discover_with_callback and rdm_discover_devices_simple:
--                src/rdm/controller/discovery.c
--   Request      rdm_send_request: src/rdm/controller/utils.c; the functions that call it with
--                one request: the other files of src/rdm/controller
--   Parameter    the table of parameters and its functions: src/dmx/include/service.h,
--                src/dmx/service.c, src/dmx/parameter.c; Parameter.Callback has
--                rdm_definition_get and rdm_callback_set of src/rdm/responder/utils.c,
--                Responder.Register has rdm_definition_set and the registrations of discovery
--   Sensors      sensors of a responder: src/rdm/responder/sensor_parameter.c
--   Setup        personalities and start address: src/dmx/device.c, src/rdm/responder/dmx_setup.c
--   Supported    reports about parameters: src/rdm/responder/rdm_info.c
--   Control      identification, reset, hours: src/rdm/responder/device_control.c,
--                src/rdm/responder/power_lamp.c
--   Product      labels, language, device info: src/rdm/responder/product_info.c
--   Install      dmx_driver_install and dmx_driver_delete: src/dmx/driver.c;
--                rdm_register_queued_message: src/rdm/responder/queue_status.c
--   Prelude      the names and lemmas that the others share
--
-- A definition has the name of the C function without the prefix `rdm_` or `dmx_`. A C array is a
-- list, an octet or a word a native number with its wrap-around written out, memory read through a
-- pointer the list of the octets from there on. A function's checks are tests in its model, but for
-- those that the port exists and its driver is installed, which the models take for granted. What
-- runs in a critical section is one step.
--
-- The loops that could run for ever take fuel: the search loop of rdm_queue_push, the loop of
-- rdm_format_encode over the source and the loop of the search for devices. The theorems on them
-- say how much fuel is enough, or that none is.
--
-- The bus that the search for devices runs on is a parameter (Controller.Bus), and what the search
-- relies on is the record Controller.Lossless.IsLossless, in which DISC_MUTE to the broadcast UID of a
-- manufacturer may mute all its devices; Controller.Network is a network of devices that satisfies it.
--
-- What the operating system and the hardware answer while a packet is sent is the record Send.World:
-- whether a semaphore is taken, the clock, the timer's notification, the room in the UART's queue.
-- What the UART reports to its interrupt is the record Uart.Report. A request's World has what
-- dmx_receive makes of the driver; Receive models dmx_receive itself. A responder's World
-- (Responder.Dispatch) has what the interrupts make of the driver while dmx_wait_sent waits for the
-- end of the response.
--
-- A local variable whose octets dmx_parameter_add copies is a block of the parameters' heap
-- (Setup.Register.add_local), what dmx_nvs_get leaves behind is an argument, and the call of
-- rdm_queue_push by a function that sets a parameter is the PID that it pushes (Setup.Setting). The
-- members of a union are fields of their own.
--
-- Not modelled: rdm_rhd_get_queued_message, and what only calls the ESP-IDF: the registers of UART
-- and timer, pins, non-volatile storage.
pub mod Buffer
pub mod Control
pub mod Controller
pub mod Format
pub mod Install
pub mod Packet
pub mod Parameter
pub mod Power
pub mod Prelude
pub mod Product
pub mod Queue
pub mod Receive
pub mod Request
pub mod Responder
pub mod Response
pub mod Send
pub mod Sensors
pub mod Settings
pub mod Setup
pub mod Sniffer
pub mod Supported
pub mod Uart
pub mod Uid
