-- ===== src/Lib.antt =====
-- The C++ client library for the Watson IoT Platform, in src/: a client connects a device or a gateway
-- to the platform over MQTT, publishes events, receives commands, and takes part in the protocol of
-- device management (requests with an id and a response, firmware and action requests from the
-- platform). These modules model the library's own code and prove properties of the model.
--
-- How the parts interact. IOTP_Client (src/IOTP_Client.cpp) owns the MQTT client, a callback object
-- with the subscriptions and handlers, a queue of replies with a thread that sends them, and the
-- handlers of responses, firmware and actions. A message enters by IOTF_Callback::message_arrived,
-- which hands it to the handlers of its topic and queues what they return. IOTP_DeviceClient and
-- IOTP_GatewayClient add the topics and requests of a device and of a gateway.
--
-- Which file models what:
--   Base, Base/Exec      results, and methods that change an object and may fail. What a method
--                        wrote before it failed stays written.
--   Text, Text/*         std::string: lists of bytes, with find, substr, to_string and stoi. size_t
--                        and unsigned long have 64 bits, and their sums wrap around.
--   Json                 the part of jsoncpp that is used, as a record of operations and laws; every
--                        module takes it as the parameter `J`.
--   Mqtt                 the calls of mqtt::async_client and their outcomes. The broker is a function
--                        from the calls made so far and the call at hand to an outcome.
--   Topics               src/IOTP_TopicDefinitions.h. Topics/Filter: the filter rules of MQTT, as a
--                        specification
--   Command, Command/*   src/Command.h and the parser of command topics in IOTF_Callback::message_arrived
--   Properties/*         src/Properties.h and InitializePropertiesFromFile
--   Device, Device/*     src/IOTP_Device.cpp: info, location and log, each with its JSON copy
--   Reply                src/IOTP_ReplyMessage.h, the action responses and the reply to a request
--   DeviceResponse       src/IOTP_DeviceResponseMessage.h, which no other code uses
--   Firmware, Firmware/* src/IOTP_DeviceFirmwareHandler.cpp
--   Action, Attribute    src/IOTP_DeviceActionHandler.cpp, src/IOTP_DeviceAttributeHandler.cpp
--   Response             src/IOTP_ResponseHandler.cpp
--   Callback             the state and operations of IOTF_Callback
--   ReplyQueue           IOTF_send_reply and _send_reply as a step relation on queue and thread; a
--                        channel as its specification (ReplyQueue/Channel), and the end of the thread
--                        (ReplyQueue/Shutdown). ReplyQueue/Publishing: the same with the client and
--                        the MQTT client that the thread publishes with
--   Client               the state of IOTP_Client. Client/Session: connect, subscriptions, messages;
--                        Client/Dispatch: message_arrived; Client/Manage: the management requests;
--                        Client/Lifecycle: construction from a file and destruction. What the server
--                        holds for a session is specified in Client/Session/Tracking.
--   DeviceClient         src/IOTP_DeviceClient.cpp
--   GatewayClient        src/IOTP_GatewayClient.cpp
--   Samples, Samples/*   the programs of samples/, from their configuration file to their exit code:
--                        Configuration and DataFile read the files, Scope is the block of a client with
--                        its destructor and the handler of exceptions, Handlers are the firmware and
--                        the action handler of the managed samples, and the others are one program each
--   Tests, Tests/*       a JSON library, a broker and clients, with the theorems at concrete inputs
--
-- Undefined behaviour (a null or indeterminate pointer, an erased iterator, a function that ends
-- without its return, an overflowing buffer) and std::terminate are errors of the model. The code
-- of the application (the virtual methods of its handlers), the clock and the formatting of times
-- are parameters. What other threads do during a request is a parameter too (Client/Manage,
-- `Exchange`): the responses that arrive before the wait and during it, and whether the wait times
-- out.
--
-- Bounds. The progress threads make at most 10 rounds, as the loops of the source do, by recursion
-- on the rounds left. The decimal digits of n are computed with n + 1 rounds, and each round
-- divides by 10. The loops of the samples are recursions on their rounds: 10 publications, at most 100
-- attempts, or as many as come before the interrupt. All other loops are recursions on lists. The
-- steps of the reply thread after mExit is set are bounded by a rank of its state.
--
-- Not modelled: logging, dumpProperties and console output; the sleeps between progress reports,
-- whose length is a lower bound on the times of the reports alone; times that gmtime cannot
-- convert, but for the indeterminate one of a location that is read from JSON; the calls of other
-- threads between the publications of the reply thread; messages other than responses that arrive
-- while a sample runs; the overflow of the counter of arrived messages (an int); the C++ and C
-- client libraries below lib/, jsoncpp and log4cpp, which are third-party code; the unit tests
-- below test/.
pub mod Base
pub mod Text
pub mod Command
pub mod Json
pub mod Topics
pub mod Mqtt
pub mod Properties
pub mod Device
pub mod Reply
pub mod DeviceResponse
pub mod Firmware
pub mod Action
pub mod Attribute
pub mod Response
pub mod Callback
pub mod ReplyQueue
pub mod Client
pub mod DeviceClient
pub mod GatewayClient
pub mod Samples
pub mod Tests
