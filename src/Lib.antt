-- ===== src/Lib.antt =====
-- The USB/IP bridge firmware: it exports the USB devices of an ESP32 board, and virtual ones, to
-- USB/IP clients over TCP.
--
-- The parts and how they interact. A client's connection (main/usbip_server.c, `handle_client`) asks
-- for the device list or imports a device by its bus id. An import turns the connection into a stream
-- of requests (`handle_urb_stream`): the reader checks each submit, takes its payload off the
-- stream, gives it one of eight slots, and hands it to a worker, which calls the backend or a virtual
-- device and sends the reply. The backend (main/usb_backend.c) keeps a table of the exported devices, which
-- its task updates from the host library's events, and a pool of host pipes, on which callers wait for
-- the transfers that the task submits, watches and ends. Virtual devices (main/virtual_device.c) stand in
-- a table of their own, on bus 2; main/virtual_cdc.c is the serial port that they share. The names
-- are kept in the non-volatile storage by main/device_naming.c. The discovery service announces the
-- exported device and the board id over mDNS (main/discovery_service.c). The HTTP server (main/http_server.c)
-- shows and sets the board's pins, the names, and the wires on the pins, whose names the harness library
-- keeps; it exports and imports them as a document. The log server (main/log_server.c) sends each log
-- line to its clients.
--
-- Which file models which part:
--   Base           the shared types, lists, bytes and texts;
--   Errno, Esp     the error results of the transfers and of the ESP-IDF calls;
--   Protocol       main/usbip_protocol.h: the constants, and the fields of a header;
--   Device         main/usb_backend.h: the description of a device;
--   Socket         `read_exact`, `write_all`, `discard_exact` of main/usbip_server.c;
--   Registry       main/virtual_device.c (`virtual_device_` is left off the names);
--   Server.Slots   `urb_stream_ctx_t` and its slots; Server.Host what the server calls;
--   Server.Reply, Server.Worker, Server.Reader, Server.Stream
--                  the replies, `urb_worker_task` and `handle_urb_stream`; the loop's body is cut at its
--                  branches into `serve_one`, `serve_request`, `serve_unlink`, `serve_submit`,
--                  `accept_submit`, `alloc_in`, `make_item`, `launch`, which call each other in that order;
--   Bridge         the server on top of the backend's table and the virtual devices;
--   Server.Requests `handle_devlist_request`, `handle_import_request`, `handle_client`;
--   Cdc            main/virtual_cdc.c;
--   Backend.Descriptors, Backend.Devices
--                  the parser and the table of main/usb_backend.c (`_locked` is left off the names);
--   Backend.Pipes  `prepare_and_submit_transfer`, `complete_transfer`, the rounds of `usb_backend_task`
--                  (Task) with the steps of the other tasks between its own (Callers), and
--                  `submit_pipe_request` with the pool as the steps of any number of callers (Pool);
--   Server.Connections `client_task` and the loop of `usbip_server_task`, as steps;
--   Start          `usb_backend_start`, the bus power of one board, and the functions that ask for transfers;
--   Virtual        main/virtual_harness.c and main/virtual_perfetto_logic.c, whose descriptors, contexts
--                  and descriptions are the same but for the product;
--   Naming         main/device_naming.c;
--   Discovery      main/discovery_service.c;
--   LogServer      main/log_server.c;
--   Network        the Wi-Fi side of main/network_init.c, up to the attempt to connect;
--   Http, Http.Stream, Http.Escape
--                  the sending, the chunked stream and `html_escape_attr` of main/http_server.c;
--   Http.Json, Http.Requests
--                  how requests are searched and read; Http.Host what the handlers call;
--   Http.Pins, Http.PinTable
--                  the pins and their table; Http.Config the export and the import;
--   Http.Lists     `build_pins_json` and `build_devices_json`;
--   Http.Handlers, Http.Routes
--                  the other handlers, and `handle_connection`;
--   Examples       concrete worlds, at which the theorems are applied.
--
-- State is passed explicitly: `W` or `U` is the state of what is not part of the repository (the TCP
-- stack, the allocator, the scheduler, the USB host library, the storage), whose operations are the fields
-- of a record; what the code relies on of them stands in `IsStream`, `IsConnected`, `IsQuiet`,
-- `IsStore`, `IsAnnouncer`, `IsHttpSocket`, `IsLive`, `IsReader`, `IsGpio` and `IsPowerLine`. A C buffer is the list of its bytes, a NULL
-- pointer is `none`. Virtual devices carry their address: the table holds pointers, and a registration
-- writes the device in place. A pipe counts the answers that its callers were given, which the code does
-- not.
--
-- Bounds and fuel. The socket loops take at least one byte in each round, so a request of `n`
-- bytes has `n` rounds. The walk over a configuration descriptor takes two bytes at least in each
-- round, so it has as many as its stated length. The stream's loop runs for the number of requests
-- it is given and may wait for a slot for a number of rounds; when these run out the outcome says
-- so (`waiting`). Configuration values (the largest transfer, the numbers of pipes and of devices)
-- are arguments.
-- The HTTP server's `send_all` has a round for each byte and for as many interruptions as its
-- configuration says. A request's head has one round more than its buffer has bytes, its body as many as
-- its buffer has bytes, and the import as many as the text has characters, since each round moves on. The
-- timestamps of the log server are right for the first 2^31 seconds. The bytes of a request's
-- buffer that were not read, and the memory behind them, are an argument, since the code searches them.
-- A deadline is a sum of 32-bit numbers of ticks.
--
-- Not modelled: the messages to the log; the cleanup's wait for workers and the mutex on replies,
-- which need the interleaving of workers; the daemon task of the backend; of the HTTP server the
-- page, which is an argument of the routes, and what is sent from behind the buffer for a label of over
-- two hundred characters; the set-up of the
-- listening sockets, the drivers of the network and the repeated attempts to connect, the LED and
-- the start-up.
pub mod Base
pub mod Errno
pub mod Esp
pub mod Protocol
pub mod Device
pub mod Socket
pub mod Registry
pub mod Server
pub mod Cdc
pub mod Backend
pub mod Bridge
pub mod Naming
pub mod LogServer
pub mod Discovery
pub mod Http
pub mod Virtual
pub mod Network
pub mod Start
pub mod Examples
