-- ===== src/Lib.antt =====
-- QtRpc2: remote procedure calls between a client and the services of a server, over a stream of
-- bytes.
--
-- The program's parts, from the wire up. A Signature names a function and its argument types. A
-- ReturnValue is a value, an error, a service or the promise of a later answer. A Message carries a
-- call, an event, a protocol function or a return, in one of three wire formats. Either end reads
-- its device in a loop that cuts the bytes into frames, and dispatches the message of each frame.
-- On the server a connection keeps the services that its client selected, guards those that wait
-- for authentication, and calls their functions; the Server chooses threads and makes the service
-- objects. On the client a message bus matches replies with callers. AuthTokens are handles on
-- shared data that both sides pass around. The classes that a user writes derive from ProxyBase,
-- which packs calls of their signals and calls their slots by signature: a ServiceProxy on the
-- server, a ClientProxy on the client, where proxies share services and connections. Under it all a
-- transport, such as TCP, opens the device and answers protocol functions of its own.
--
-- Files and the code they are about:
--   Qt.antt: what the program takes from Qt, as a record of functions (QVariant, QMetaType,
--   QDataStream, QString::arg) and, as a record of hypotheses, what it relies on.
--   Examples/Sample.antt fills both.
--   Signature.antt: lib/signature.cpp. parse is split into parse, parse_at and with_parts, test
--   into test, test_from and arg_fits.
--   ReturnValue.antt: lib/returnvalue.cpp, with the data of lib/returnvalue_p.h.
--   Message.antt and Message/Wire.antt: lib/message.cpp; read and write are its operator>> and
--   operator<<, with the formats of version 2 (packed, behind a magic number), 1 (packed) and the
--   others (original).
--   Frame.antt: the loop of readyRead in lib/serverprotocolinstanceiodevice.cpp, which
--   lib/clientprotocoliodevice.cpp repeats. Frame/Sent.antt has the writing side.
--   Token.antt: lib/authtoken.cpp, as a heap of shared data.
--   Server.antt: lib/server.cpp, lib/server.h and lib/servicefactoryparent.cpp: requestThread,
--   removeService, registerService, requestService and the lists.
--   Bus.antt: lib/clientmessagebus.cpp. The synchronous callFunction is the step that sends and the
--   steps wake and expire of its caller; disconnected() is the step that takes the keys and a step
--   reply_next for each.
--   Instance.antt: lib/serverprotocolinstancebase.cpp: getServiceObject (get_service,
--   get_service_login), callFunction (call_function, perform, invoke, after_call), parseReturn.
--   Device.antt and Device/Dispatch.antt: lib/serverprotocolinstanceiodevice.cpp: changeState, the
--   protocol functions, parseMessage and checkProtocolFunction, and what they write.
--   Client.antt: lib/clientprotocolbase.cpp and lib/clientprotocoliodevice.cpp: sendFunction,
--   checkProtocolFunction, parseMessage.
--   Proxy.antt: lib/proxybase.cpp: init (visit and its cases are the rounds of its loop),
--   qt_metacall, callMetacall (fill, call_metacall, invoke, finish), emitSignal, callCallback. What
--   moc generates for a class and what QVariant does with raw memory is the record Meta.
--   Service.antt: lib/serviceproxy.cpp: initProxy, both functionCalled (event_called,
--   callback_called), callFunction, sendReturn, the data and properties. Service/Events.antt joins
--   it with Proxy.antt and Device.antt.
--   ClientProxy.antt: lib/clientproxy_p.h and the classes ServiceData and ConnectionData of
--   lib/clientproxy.cpp, as objects in a store; ClientProxy/Route.antt has sendEvent and
--   sendCallback, ClientProxy/Sharer.antt the private data of ClientProxy, parseReturn and the
--   assignments, ClientProxy/Select.antt and ClientProxy/Connect.antt the synchronous getService,
--   selectService, connect and disconnect, ClientProxy/Request.antt and ClientProxy/Connecting.antt
--   the asynchronous ones with getServiceCompleted (step_at is its switch), selectServiceCompleted
--   and connectCompleted, ClientProxy/Calls.antt functionCalled, functionCompleted, receiveCallback
--   and receiveEvent. The message bus of a connection is the record Env.
--   Finder.antt: lib/servicefinder.cpp: scan, serviceAdded and serviceRemoved (announce), resolved,
--   resolveError, getAddress, as steps that call the zeroconf classes. An IPv4 address of a host is
--   given by a function of it.
--   Tcp.antt: lib/serverprotocolinstancetcp.cpp, on top of Device.antt; Tcp/Client.antt:
--   lib/clientprotocoltcp.cpp, which gives Client.antt its transport; Tcp/Listener.antt:
--   lib/serverprotocollistenertcp.cpp; Tcp/History.antt: the steps of the server's end in any
--   order.
--   Examples: a sample of Qt, and the theorems at concrete data.
--
-- Numbers. A 32-bit id keeps its wrap-around (% 2 ^ 32); an int and a qint64 are given by their bit
-- patterns. Two counters are unbounded: the finder's currentId, an int that overflows after 2 ^ 31
-- announcements, and the addresses of new objects. The bytes of a frame are a list, where a
-- QByteArray ends before 2 ^ 31 bytes. Counts of instances are natural numbers, and to lower a
-- count of 0 is a fault. An access out of range is an Option that is none.
--
-- Fuel. The loop of readyRead runs on fuel, as many rounds as the device holds bytes. Each round
-- takes a byte at least, its header or its data, or stops, so these rounds are enough. A request
-- for a service is followed by recursion on the returns that arrive; four of them are enough.
--
-- Not modelled: what moc generates (the parameter Meta), the sockets themselves and SSL, the
-- listeners of other transports, the transports over local sockets, threads and processes, the
-- reference counts of a ConnectionData, the publishing of services (lib/servicepublisher.cpp), and
-- the copy of libqxt (lib/qxt*). The initProxy that parseReturn of a connection calls again on each
-- service is in Service.antt and not in Instance.antt, and a ReturnValue of the type Service is
-- taken to hold a service. A null ConnectionData, which the constructor of ClientProxyPrivate rules
-- out, has no branch in the model. Time is a number that each step is given. Locks appear only
-- where they make a step atomic or block for ever.
pub mod Base
pub mod Qt
pub mod Signature
pub mod ReturnValue
pub mod Message
pub mod Frame
pub mod Token
pub mod Server
pub mod Bus
pub mod Instance
pub mod Device
pub mod Proxy
pub mod Service
pub mod Tcp
pub mod Client
pub mod ClientProxy
pub mod Finder
pub mod Examples
