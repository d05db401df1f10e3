-- ===== src/Lib.antt =====
-- nest-convoy: sagas, commands, messages and events over a broker.
--
-- A saga (packages/sagas) is a list of steps. Its manager starts it, sends the commands of each
-- step to participants, and resumes it at each reply; a failure turns it round, and the steps
-- before are compensated. Commands (packages/commands) are messages (packages/messaging) with
-- headers that say which saga they are for; a participant's dispatcher takes a command, runs its
-- handler and correlates the replies with it. An aggregate (packages/events/aggregate) is stored
-- as its events, which are replayed where it is loaded, upcast to the present version of its
-- schema, and skipped where a snapshot has their effects; an update is guarded by the version that
-- it read. Domain events are messages too, sent to the channel of the aggregate's type. A
-- definition is a function by clauses; a method that changes a state or throws is a computation of
-- the monad `M S` of Prelude/Effect, with the state `S` and the exceptions of Common/Exceptions.
--
--   Prelude      lists, numbers and results that all modules share
--   Common       the exceptions of packages/common and of the other packages
--   Messaging    packages/messaging: Headers, Message, Builder, ChannelMapping (common), Producer
--                (producer/message-producer.ts), Consumer (consumer), InMemory
--                (consumer/message-consumer.ts and broker/in-memory), Kafka (broker/kafka: the offsets and
--                their tracker, and below it Message, Consumer and Avro)
--   Commands     packages/commands: Headers and Paths (common), Producer (producer), Destination,
--                Reply, Handler and Dispatcher (consumer)
--   Saga         packages/sagas: State, Step, Builder, Actions and Definition (orchestration/dsl),
--                Instance, Manager (orchestration), Locks (common), Participant (participant), and Correlation,
--                the way of a command and its reply through all three packages
--   Events       packages/events: Domain (publisher and subscriber), and of the folder aggregate:
--                Schema (schema), Snapshot (snapshot), Aggregates, Access, Crud and Store (crud),
--                Repository (aggregate-repository.ts); Workflow (workflow), the way of a stored event
--                over Kafka to the subscribers' handlers
--   Core         packages/core: the decorators of handlers and the initializer
--   Examples     examples: of ftgo-app Money (libs/common), LineItems, Order and OrderService
--                (services/order), Ticket and TicketService (services/kitchen), and Customer of
--                sagas-customers-orders
--
-- A name in snake case stands for the method of the same name in camel case; the comment that
-- opens a file says which files of the repository it is about. A payload is a value of a parameter
-- `P`, the plain object that the serialiser makes; the broker, the tables of the object mapper,
-- the clock, the generator of identifiers, the interceptors and the handlers of an application are
-- parameters too. The saga's data `D`, which handlers change in place, is the state of the
-- definition's computations.
--
-- Header values are texts, and so is a saved state: its JSON text is written and read on the flat
-- object of numbers and Booleans that the code saves. The loop of `nextStepToExecute` has a round
-- for each step and one to see the end. The loop of `processActions` has its rounds as a
-- parameter, and the rounds that a saga's steps can use are counted by `rank`: at most two for
-- each step and two. The loop of `claimLock` has its rounds as a parameter too, since another
-- process may release the lock at any time.
--
-- The making of an Avro schema has the room of the call stack as its fuel: any room above the rank
-- of a class is enough, where the classes have one. The
-- numbers of amounts and quantities, which the engine computes in doubles, and their arithmetic
-- are a parameter, of which no law is assumed.
--
-- Not modelled: `KafkaMessage.schema` with `lazyLoadAvroSchema`, and `createAvroSchemaRecords`,
-- since nothing calls them; the builders of endpoints; the look-up of an aggregate's methods by
-- reflection; the modules and the discovery of the framework, which declare what is wired; the
-- factory of sagas, the publisher of an aggregate and the producer into a table, which hand on to
-- what is modelled or to the object mapper; and of the examples the sagas, the controllers and the
-- services not named above.
pub mod Common
pub mod Core
pub mod Prelude
pub mod Messaging
pub mod Commands
pub mod Saga
pub mod Events
pub mod Examples
