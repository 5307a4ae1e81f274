-- ===== src/Lib.antt =====
-- WorkHorz: the HTTP server, its configuration and its logging.
--
-- The program is a web server in C++ on Boost.Asio. `server` (src/whz_server.cpp) takes contexts
-- from an `io_context_pool` and accepts connections; a `connection` (src/whz_connection.cpp) reads
-- into a buffer, runs the `request_parser` on it, and gives the request to the `request_handler`,
-- which decodes the path, reads a file and fills a `reply`; the reply's buffers are written, and the
-- connection is shut down. A `Config` holds the values of a JSON file, and every component logs
-- through a `whz_qlogger`, which asks the `Config` for its switches. `main` (src/whz-core.cpp) reads the
-- configuration, tries the other parts one by one - translations, keys and encrypted files, archives,
-- templates, a vCard and its QR code - and then starts the server.
--
-- Which file is about which part:
--   Base, Base/*          Boolean tests, byte strings, lists and decimal numbers.
--   Http/Message, Chars   `header`, `request` (src/whz_common.hpp); the parser's character classes.
--   Http/Parser           `request_parser` (src/whz_request_parser.cpp and .hpp): `consume` on each
--                         state, and the loop `parse`. Its children: the invariant, feeding in pieces,
--                         the end of a request, the printer and the round trip.
--   Http/Reply            `reply`, `to_buffers`, `stock_reply`, the status lines and pages
--                         (src/whz_common.cpp); the numbers of the statuses, and the wire format.
--   Http/Url              `url_decode` (src/whz_utils.hpp), its encodings and its errors.
--   Http/Handler          `handle_request` (src/whz_request_handler.cpp).
--   Http/Connection       `connection` (src/whz_connection.cpp): a step relation on completions. Its
--                         children: every state, a request in one segment and in several, and the
--                         connection as a parser of the stream of its buffers.
--   Http/Session          a whole session: parser, connection, handler and reply together.
--   Config                `Config` (src/whz_config.hpp): the record of parameters and
--                         `get_config_value`; Config/Store has the switch of `read_config`,
--                         Config/Parameter the enum and the keys, Config/Read `read_config`, Config/Export `createJSON_config`.
--   Config/Logging        `whz_qlogger` (src/whz_quill_wrapper.cpp): its operations on the one logger of
--                         the library; Config/Logging/Shared has programs with several objects.
--   Localization          `LocalizationManager` (src/LocalizationManager.hpp): the locales, sequences
--                         of calls, and the conversions.
--   Server/Pool           `io_context_pool` (src/whz_io_context_pool.cpp).
--   Server/Accept         `server` (src/whz_server.cpp): the pending accepts and the connections that
--                         were started, as a step relation.
--   Server/System         the server together with its plain connections, whose completions come in
--                         any order.
--   Server/SslConnection  `ssl_connection` (src/whz_ssl_connection.cpp).
--   Routing               `http_routing` (src/http_routing.cpp).
--   TemplateCache         `whz_templateCache` (src/whz_templateCache.hpp and .cpp): loading, lookup, and
--                         the image that is mapped into memory.
--   Vcard                 `whz_vcard` (src/whz_vcard.hpp).
--   Lua                   `whz_LUA_core` (src/whz_LUA_core.cpp).
--   QrCode                `whz_qrcode_generator` (src/whz_qrcode_generator.hpp): both ways of drawing the
--                         bitmap, the SVG text, and QrCode/Base64 with its decoder.
--   Encryption            `whz_encryption` (src/whz_encryption.cpp).
--   Templating            `TemplateProcessor` (src/whz_templating.cpp).
--   Compression           `whz_datacompression` (src/whz_datacompression.hpp): Compression/Zip for the ZIP
--                         archives, Compression/Paths for the paths.
--   Startup               `main` (src/whz-core.cpp), in terms of the other parts, with what it logs.
--   Resources             `resources` (src/whz_resources.cpp), with the heap of its byte buffers; Older is
--                         src/Resources.cpp, which it took over and which the build does not list.
--   Utils                 `sanitize_utf8_string` and the conversions of src/whz_utils.hpp.
--   */Tests               concrete runs.
--
-- Conventions. A byte is a number; a `char` from 128 on is negative in the source, which Http/Chars
-- writes out. `none` stands for undefined behaviour (`back()` of an empty vector, an index out of
-- range), for `std::nullopt`, for an exception and for `exit(1)`, as the comment of each definition says. The version
-- numbers of a request are taken modulo 256 where they are stored. `read_loop` runs on fuel, one more
-- than the length of the file: each round but the last takes at least one byte.
--
-- Parameters. The URL library is a function from texts to paths; the system calls of the template
-- cache are a record of their results. The file system is a function from paths to contents; the JSON
-- library is the record `Json` of Config/Values, together with the document that it loads from a path;
-- what the operations of the socket library bring is given by the constructors of the step relations.
-- The logging library is what it keeps under the name of the logger, and the calls that it received,
-- and the Lua library the calls that it received. Boost.Locale gives a locale for a path, a domain
-- and a language, and a text for a message in a locale; simdutf gives the bytes that it writes and the
-- number that it returns.
--
-- libsodium, libzip, libarchive, the QR code, PNG, template and database libraries are records or
-- functions, which give what a call returns and leaves in its buffers or on the disk; their laws are
-- hypotheses of the theorems that need them. The loops of the QR code run on a count of the rounds that
-- are left, which is the bound of the loop.
--
-- Not modelled: console output, the resolution of addresses, TLS itself, threads (each completion is
-- one step, and each call that holds a mutex). No completion is a step once the pool is stopped. A text of the
-- configuration is a view without bytes, since its memory is gone when `read_config` returns. Of what
-- the components log, `main` keeps the calls of its own logger. The headers of the request and of the
-- client declare what has no body.
pub mod Base
pub mod Compression
pub mod Config
pub mod Encryption
pub mod Http
pub mod Localization
pub mod Lua
pub mod QrCode
pub mod Resources
pub mod Routing
pub mod Server
pub mod Startup
pub mod TemplateCache
pub mod Templating
pub mod Utils
pub mod Vcard
