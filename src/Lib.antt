-- ===== src/Lib.antt =====
-- Verification of the AirShifter firmware, an ESP32 program that controls a fan over Bluetooth LE
-- and Wi-Fi.
--
-- A central connects over BLE. main/main.c gets the event and has main/security.c open a session
-- with a random challenge. The central answers with an HMAC under the shared key; from then on
-- main/gatt_svr.c lets the connection write control values and packets. A packet is JSON or an
-- older plain format, and main/parser.c turns it into calls of main/biz_logix.c, which keeps the
-- fan's values, mirrors them to the status characteristics, and queues Wi-Fi credentials for
-- main/wifi_manager.c. main/mqtt.c and main/FOTA.c stand apart: the one publishes and logs, the other
-- runs an update that the flash asks for.
--
-- Files and what they model:
--   Common, Common/*        lists, tests on numbers, bits, C integers, with their lemmas
--   CLib                    isspace, isdigit, tolower, strstr, strtol and atoi of the C library
--   Printf                  %d, %u and %02x of printf
--   Platform                the calls of mbedtls, jsmn, FreeRTOS, NimBLE and malloc, each a field of
--                           a record that the definitions take, and the types that cross them
--   Testing, Testing/*      a platform, a flash and a run of the device for the tests
--   Security                main/security.c: one function of the state per function of the source
--   Security/Slots          its table s_conns; Security/Nonce: the loop that fills a nonce
--   Security/Sessions       the table as a map from handles to sessions
--   Security/Filling        the bytes that the loop leaves
--   Security/Opening        the slot that a connection takes
--   Security/Model          what the module promises, as a map from connections to sessions;
--   Security/View, Answers, Refinement
--                           that map seen in the state, and the calls as its steps
--   Security/Looping        the loop that fills a nonce, turn by turn
--   Security/Invariant, Connect, Respond, History, Handshake, Replay, Idle, ZeroHandle
--                           what holds of the calls
--   Biz                     main/biz_logix.c; Biz/Setters: its setters over a history; Biz/Keys,
--                           Biz/KeyHistory: what holds of its table of keys
--   Parser                  main/parser.c: the entry points; Parser/Fields: the helpers for tokens and
--                           fields; Parser/Json: the scan; Parser/Legacy: the older format
--   Parser/Commanded, Effects, Queue, Pairs, Digits, Commands, Logins
--                           what holds of packets
--   Parser/Spelling, Texts, JsonLogins
--                           JSON packets by the texts of their keys and values
--   OldParser               main/parser-oldbitch1.c: the older parser, in OldParser/Fields and
--                           OldParser/Packet
--   OldParser/Braces, Lines, Effects, Bounds
--                           what holds of its packets
--   Gatt                    main/gatt_svr.c: gatt_svc_access, one function per branch
--   Gatt/Connections        its table of connections
--   Gatt/Services           the UUIDs, the table of services and its registration
--   Gatt/Registered, Flags  the handles that the variables hold then, and the flags
--   Gatt/Within             the buffers of the accesses
--   Gatt/Guard, Nonce, ReadBack, Packets, Tracking
--                           what holds of the accesses and of the table
--   Gap, Gap/Safety         main/main.c: bleprph_gap_event and bleprph_advertise, and the runs of
--                           the device
--   Gap/Printing            main/main.c: the lines with the addresses of a connection
--   Ping                    main/main.c: the ping example
--   Gap/Start, Gap/Booted   main/main.c: app_main and bleprph_on_sync, with wifi_manager_init of
--                           main/wifi_manager.c, and the runs from the power on
--   Gap/Control             a central that proves itself and sets a value
--   Gap/Sound               all runs from the power on, with Security/Short, Parser/Sound and
--                           Gatt/Sound: what each part keeps
--   Gap/Proved, Gap/Expiry  the connections that pass the check in such a run, with Gatt/Proving,
--                           Gap/Sessions and Security/Before: where the session that an access, an
--                           event or a call leaves comes from
--   Wifi                    main/wifi_manager.c: the task from the load of credentials on; Wifi/Nvs:
--                           the store and the load; Wifi/Station: the start of the station;
--                           Wifi/Mesh: the events of the mesh, and what holds of them
--   Wifi/Setup              the calls before the load, and wifi_event_handler
--   Wifi/Received           the whole task, and the latest credentials
--   Wifi/Reboot             what holds of received credentials
--   Wifi/Failed             a store that fails halfway
--   Provision, Provision/Json, Provision/Taken
--                           credentials from the packet to the station, through all parts
--   Fota, Fota/Url, Fota/Once
--                           main/FOTA.c: the check for an update and the update
--   Mqtt, Mqtt/Balance      main/mqtt.c: the start of the client and its events; Mqtt/Console: the URL
--                           from the console; Mqtt/Items: print_user_property and the heap
--   */Tests                 the theorems at concrete states, and runs
--
-- State is passed explicitly: Security, Biz, World (both with the attribute handles) and Device.
-- A call of esp_timer_get_time is an argument `us`, and the results of esp_random are an argument
-- `random`, from which call number k reads `random k`. Option's `none` is the source's error
-- result, NULL or -1, as each definition says. Numbers are ℕ with each wrap written out: the age of
-- a challenge is a subtraction of uint64_t, a setter cuts its value to the variable's width, a
-- token's length and the offset in fill_nonce are a size_t of 32 bits. A write past a buffer is a
-- result of its own, Gatt's `overrun` or `fault`.
--
-- Fuel: fill_nonce takes the nonce length as its rounds, which is enough since each round advances
-- by four; diff_loop and equal_from take the loop's own bound. Every other loop is recursion on its
-- list. copy_token takes the 32 rounds of its loop, and a printed
-- number ten digits, which are enough for 32 bits. The calls of NVS, of the blob store and of the
-- updater are records (Wifi/Nvs, Fota) with their laws as records of hypotheses.
--
-- Not modelled: logging, but for the addresses of connections and the replies to a ping; of main/mqtt.c
-- the values of its settings; of main/main.c the arithmetic in float of the loss at the end
-- of a ping, which is an argument, and the fields and parameters of the advertisement, of which
-- bleprph_advertise keeps whether the fields were set and that it was started.
-- jsmn is a copy of another project's library, and a parameter. malloc is taken to succeed in
-- main/security.c, whose code does not test it. The priority and the timing of tasks are left out: a run is a
-- sequence of whole calls.
pub mod Common
pub mod CLib
pub mod Printf
pub mod Platform
pub mod Testing
pub mod Security
pub mod Biz
pub mod Parser
pub mod OldParser
pub mod Gatt
pub mod Gap
pub mod Wifi
pub mod Fota
pub mod Mqtt
pub mod Provision
pub mod Ping
