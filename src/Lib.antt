-- ===== src/Lib.antt =====
-- The remote adapter of the SDL Automated Test Framework, its client, its server and the plugins; and
-- the Lua interpreter of the framework with its bindings of Qt, libxml2, OpenSSL and the adapter.
--
-- Test scripts drive an SDL core on another machine through the remote adapter. On that machine runs
-- a server (src/remote_adapter/remote_adapter_server) that loads plugins: `UtilsManager` for files,
-- folders, commands and applications, and `MessageBroker` for the websocket connections to the core.
-- The scripts call them by the rpc library through `RemoteClient`, and `HmiAdapterClient` makes of
-- such calls a connection with Qt signals (src/remote_adapter/remote_adapter_client).
--
-- The scripts are run by a Lua interpreter (src/main.cc, src/lua_interpreter.cc). Its libraries give a
-- script objects, as userdata with a metatable: sockets, servers and timers of Qt (src/network.cc,
-- src/timers.cc), documents (src/luaxml), TLS connections (src/luaopenssl), and the remote client and
-- the adapter (lua_lib in src/remote_adapter/remote_adapter_client). `DynamicObject` gives a Lua object
-- signals and slots that are named at run time (src/marshal.cc, src/qtdynamic.cc, src/qtlua.cc).
--
-- Which file is about which part:
-- - Common: tests on numbers, lists, integers and byte strings that the other files share.
-- - Protocol: src/remote_adapter/common/constants.h and custom_types.h, and `GetValue` of the plugins;
--   Protocol/Decimal has `std::to_string` and `atoi`.
-- - Files: the calls of the C library on files, a parameter of both sides with their laws.
-- - Client/Connection: rpc_connection_impl.cc; Client/Calls: remote_client.cc.
-- - Lua: the values and the stack of a C function of a binding, and the functions of the Lua API;
--   Lua/Heap: the tables and userdata that live on behind a call.
-- - Network: network.cc. Ciphers has `setCypherList`, Connect the loops that connect, Sockets the rest
--   and the tables of functions; Timers: timers.cc and qdatetime.cc.
-- - Xml: luaxml/lua_xml.cc. Errors has the handlers of errors, Nodes and Tables the functions.
-- - Ssl: luaopenssl/lua_openssl.cc. Context has the contexts, Session the connections and BIOs,
--   Printing what the callbacks print.
-- - LuaLib: remote_client_lua_wrapper.cc and hmi_adapter_client_lua_wrapper.cc; Libraries: what all the
--   libraries register.
-- - Interp: main.cc and lua_interpreter.cc; Interp/Globals: the constructor of `LuaInterpreter`.
-- - Broker: transport/message_broker.cpp. Session and Listener are the two websocket classes, State
--   and Calls the broker, Handlers `MessageBroker::Bind`. System puts the calls of clients and the
--   completions of asynchronous operations into sequences in any order. Binding is the table of
--   handlers, Destroying the destructor, Reading what the calls do to the messages in a session.
-- - Hmi/Adapter: hmi_adapter_client.cc; Hmi/Actions is what happens to an adapter in its life, the
--   rounds of its listener thread included.
-- - Utils: utils/utils_manager.cc. Host has `JoinPath`, Content `GetFileContent`, FileOps and
--   FileHandlers the other calls on files, Folders `FolderDelete`, Command `ExecuteCommand`, Apps and
--   Starting the calls on applications, AppHandlers their part of `UtilsManager::Bind`. Apps/Linux and
--   Apps/Qnx are the two branches of `GetAppStatus`.
-- - Server/Port: the command line in main.cc; Server/Plugins: remote_adapter_plugin_manager.cc;
--   Server/Main: `main`, with the listing of the folder and the end of the plugins.
-- - Qt/Signature: marshal.cc and the types in qtdynamic.cc; Qt/Dynamic: `DynamicObject` of
--   qtdynamic.cc, with a slot as a value of any type; Qt/Emit: the array of the arguments in qtlua.cc;
--   Qt/Marshal: the marshallers; Qt/Calling: the emission of a signal and the call of a slot;
--   Qt/Connect: `qtlua_connect`, and in Scripts the calls of a script; Qt/Objects: the userdata of a
--   dynamic object, with its metatable.
-- - Transfer: the client's download loop against the server's handler of file_content.
-- - Remote: the client's calls against the broker's handlers; Relay: an adapter against them, with the
--   messages that arrive for it.
-- - Tests: concrete parameters, and the results applied to them.
--
-- State and its changes: an operation of a class is a function from the state, a record, to the new
-- state and the result. A C++ exception that leaves an operation is a result of its own: `none` where
-- an address is not one, `threw` where a response cannot be read. The functions `open_endpoint`,
-- `close_endpoint`, `send_to` and `receive_from` are the calls behind `MakeEndpoint`.
--
-- A C function of a binding takes the stack with its arguments and gives, by `return n`, the `n` values
-- at the top of the stack it leaves, pushed or not. An object is a userdata with its class and the
-- address of the C++ object; an adapter refers to its remote client by that address.
--
-- Parameters: the Lua API, Qt, libxml2, OpenSSL, the rpc library, the websocket stream and the
-- resolver of boost, `lexical_cast`, the C library's files, processes and memory, `dlopen`. What is
-- relied on stands in records of laws (`IsFileSystem`, `IsLexicalCast`, `IsSpawner`, `Serves`,
-- `Carries`, `Relays`, `IsLuaApi`, `IsLuaHeap`, `IsQtCiphers`, `IsTimed`, `IsMemoryBio`, `IsFlushed`), each met by an instance in
-- the modules of Tests.
--
-- Fuel: the loop of `file_call` can run for ever, since its end is the server's to say; its fuel counts
-- the calls, and any number above the length of the file is enough. The loop of `tcp_socket_connect` ends
-- when a time is over; with a clock that goes on and rounds of at most a minute, a thousand rounds for
-- each millisecond are enough below a day, where `QTime::elapsed` begins anew. The other loops of
-- network.cc have fuel without such a result. The loop of `thread_monitor_app` takes the number of the
-- reports of `waitpid` up to the one that ends the process. The loops over the children of an XML node take the number of the children. `collect`, the loop of
-- `ExecuteCommand`, takes the length of the output, since each round reads at least a byte.
--
-- Integers: numbers of Lua are integers here, cut to 32 or 16 bits where the code does so. `port` is
-- cut to 16 bits, the offset of a file is a signed and its length an unsigned integer of 64 bits, and
-- the offset goes into 32 bits in a response, each with its wrap-around. The server's
-- port is undefined where `std::atoi` is, from 2^31 on. The position in a message of libxml2 is a number
-- without overflow, which parts of 2 GB would bring.
--
-- Not modelled: logging; the mutex of a session and the interleaving within one call; the
-- stack trace of the server on QNX; the end of a dynamic object, which the garbage collector brings;
-- the Lua modules. A type name of 80 bytes or more, which overruns a buffer in marshal.cc, ends the run.
-- Symbolic links: `FolderDelete` is modelled on trees of folders and files.
pub mod Common
pub mod Protocol
pub mod Files
pub mod Client
pub mod Transfer
pub mod Broker
pub mod Remote
pub mod Relay
pub mod Hmi
pub mod Server
pub mod Utils
pub mod Qt
pub mod Lua
pub mod Network
pub mod Timers
pub mod LuaLib
pub mod Xml
pub mod Ssl
pub mod Libraries
pub mod Interp
mod Tests
