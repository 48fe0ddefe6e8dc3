-- ===== src/Lib.antt =====
-- The Eclipse Paho MQTT C++ client library: models of its core logic, and what is proved of them.
--
-- The library is a layer of C++ over the Paho C library. An application makes requests on an
-- `async_client` (connect, publish, subscribe and so on) and gets a token for each; the C library
-- reports the end of a request with a callback on the token, which calls the token's listener, wakes
-- the threads that wait on it, and leaves the client's lists of pending tokens. Messages and changes
-- of the connection reach the application through handlers, or through a queue of events that a
-- consumer reads. Topic filters and collections of them tell which handler a message goes to.
--
-- Files and the code that they model:
--   Prelude: Booleans, lists, strings as lists of bytes, and integers, for all the others.
--   Topic: `topic::split` of src/topic.cpp, with the string functions that it uses.
--   Filter: `topic_filter` of include/mqtt/topic.h and src/topic.cpp. Filter/Spec states the MQTT
--     relation between the fields of a filter and of a topic, with its own '+', '#' and '$', and the
--     same as decided by `match_fields`; Filter/Dollar is on the rule for topics with '$'.
--   Matcher: `topic_matcher` of include/mqtt/topic_matcher.h: nodes, insert, remove, find, prune;
--     Matcher/Iterator has its `iterator` and Matcher/Search its `match_iterator`; Matcher/Changes puts
--     the changes of a collection one after the other.
--   ThreadQueue: `thread_queue` of include/mqtt/thread_queue.h. A call is one step under the lock,
--     from the moment that its wait is over; `none` says that it still waits. A step's result says
--     which condition variables it notifies. Interleavings are sequences of steps (ThreadQueue/Order).
--   Token: `token` of include/mqtt/token.h and src/token.cpp; Token/Response has the responses of
--     src/server_response.cpp, and Token/Codes what they hold of an answer, said of the answer alone.
--     What a callback does outside of the token is a list of effects.
--   Event: `event` of include/mqtt/event.h.
--   Client: `async_client` of include/mqtt/async_client.h and src/async_client.cpp. Client/Requests has
--     the requests, Client/Callbacks the callbacks of the C library, Client/Consumer the consumer.
--     Tokens are shared objects: the client has a store of them, and names a token by its address.
--     Client/Publish has the overloads of `publish` that make a message, and the `topic` object;
--     Client/Setup how a client is made and its callbacks are set. Client/Runs is the relation of the
--     runs of a client: requests, callbacks, consumers and setters of handlers in any order. A call is one
--     step there, though some calls take the lock of the source more than once, and `connect` sets the
--     version and the token of the connect without it: what another thread sees in between is left out.
--   CreateOptions: `create_options` of include/mqtt/create_options.h and src/create_options.cpp.
--   Exception: `exception` of include/mqtt/exception.h and the classes derived from it.
--   Buffer: `buffer_ref` of include/mqtt/buffer_ref.h; Buffer/Text has the strings of C, and Buffer/View
--     `buffer_view` of include/mqtt/buffer_view.h.
--   Message: `message` of include/mqtt/message.h and src/message.cpp; Message/Qos has the levels of QoS
--     that MQTT knows.
--   WillOptions, SslOptions, ConnectOptions, ResponseOptions, DisconnectOptions, SubscribeOptions:
--     the option classes of include/mqtt and src of these names, with a Builder where one is modelled.
--     ConnectOptions/Copies has the constructors and assignments,
--     and ConnectOptions/Data `connect_data` and `async_client::on_update_connection`.
--   StringCollection: `string_collection` and `name_value_collection` of src/string_collection.cpp.
--   Property: `property` of include/mqtt/properties.h and src/properties.cpp. Property/Types says which
--     C++ type each identifier has, and Property/Print how a property is printed.
--   Properties: `properties` of include/mqtt/properties.h and its `const_iterator`, over a record of the
--     functions of the C library; Properties/Laws states what the C library documents of them.
--   Persistence: `iclient_persistence` of src/iclient_persistence.cpp, over the virtual functions that
--     an application writes; Persistence/Memory is the store of examples/sync_publish.cpp.
--   Blocking: the synchronous `client` of include/mqtt/client.h and src/client.cpp, over the requests,
--     callbacks and tokens of the asynchronous one. Blocking/Object has the client's own state and the
--     callbacks that it passes on to the user's object.
--
-- The C library sees the library's objects through C structs with pointers into them. An object that
-- such a pointer leads into, and a buffer, have an address; a pointer is modelled with what it leads
-- to, and a new address is an argument of the operation that allocates.
-- `IsMirror` says of an object that its C struct mirrors the object's own members.
--
-- Fuel. `topic::split` runs with one round more than the string has bytes, and every round moves past
-- a delimiter. The loop of `topic_filter::matches` has its number of rounds from the source. The
-- iterators run on fuel; it is enough to have more than the number of nodes for `iterator`, and more
-- than `weight` of the topic's fields for `match_iterator`, which puts two nodes at most on its stack
-- for each field. The consumer's loops need more fuel than there are events in the queue.
-- `for_each` needs more fuel than the collection has properties, and the printing of a number has the
-- most digits that a number of its width takes.
--
-- Parameters and what is left out. What the C library answers is an argument of the function that
-- calls it; where MQTT v5 properties are only passed on, they are a type parameter. Strings and
-- containers are lists. Sizes are natural numbers, and the capacity of a queue is bounded by 2 ^ 64 - 1
-- only at its start. A `std::map` is a list of children in the order of their keys. Time is left out: a
-- timed wait is seen at its end. Getters that only return a member, the calls of the synchronous client
-- that only pass on to the asynchronous one, and the list of names of reason codes are not modelled,
-- and neither are the examples, but for the store of Persistence/Memory. The code that is modelled does
-- not change a collection while an iterator is in use.
pub mod Prelude
pub mod Topic
pub mod Filter
pub mod Matcher
pub mod ThreadQueue
pub mod Token
pub mod Event
pub mod Client
pub mod CreateOptions
pub mod Exception
pub mod Buffer
pub mod Message
pub mod WillOptions
pub mod SslOptions
pub mod StringCollection
pub mod ConnectOptions
pub mod ResponseOptions
pub mod SubscribeOptions
pub mod DisconnectOptions
pub mod Property
pub mod Properties
pub mod Persistence
pub mod Blocking
