-- ===== src/Lib.antt =====
-- A model of arataga, a SOCKS5 and HTTP proxy with authentification and bandwidth limits, and the
-- theorems about it.
--
-- The program's parts and the files that model them:
--
-- * Bandlim and Bandlim/Turn: arataga/bandlim_config.hpp, arataga/acl_handler/sequence_number.hpp
--   and arataga/acl_handler/bandlim_manager.{hpp,cpp}. `bandlim_manager_t` keeps the quotes and
--   the counters of one user for all his connections and for each domain with limits of its own.
--   The state is the record `BandlimManager`; every method is a function of the same name on it.
-- * Limiter and its children: `actual_traffic_limiter_t` and the map of authentificated users of
--   arataga/acl_handler/a_handler.{hpp,cpp}, with `traffic_limiter_t` of
--   arataga/acl_handler/connection_handler_ifaces.{hpp,cpp}. A limiter reserves a part of the
--   quote before a read and gives the rest back after it. Its methods return `none` where the
--   source would use an iterator whose element is gone. Limiter/Users has the methods of the agent
--   on the map, Limiter/Reserve what one reservation does, Limiter/Turns the numbers of the turns,
--   and Limiter/Ledger, Counters and Rate the bound that the counters enforce over time.
-- * UserList and its children: arataga/user_list_auth_data.{hpp,cpp}, the dictionaries of users,
--   the domain names and the search for the limits of a site.
-- * Authentificator and its children: arataga/authentificator/, with the denied ports of
--   arataga/config.hpp and the counters of arataga/stats/auth/pub.hpp. The agent's handlers take
--   its state and return the new state and the reply. It looks its clients up in the dictionaries
--   of UserList; what it grants is what Limiter/Users enters into the map of users.
-- * DataTransfer and its children: arataga/acl_handler/handlers/data_transfer.cpp, which carries
--   bytes between a user and a target through a ring of buffers for each direction. Ring has the
--   arithmetic of the ring, Stream and Completion what the starts and the ends of reads and writes
--   do to the bytes on their way, Steps and Methods what the methods do, Start the constructor,
--   Runs what can happen, Order what has arrived, Progress and NoStall what is in progress, and
--   EndOfFile the end of a source. The handler uses a traffic limiter through the interface
--   `TrafficLimiterOps`, which Limited fills with the limiter of Limiter.
-- * DnsConductor and its children: arataga/dns_resolver/lookup_conductor/, the agent that answers
--   requests to resolve names from a cache, or after a lookup by the nameserver's agent.
-- * DnsTypes and its children: arataga/dns_resolver/dns_types.hpp, the names in DNS packages
--   (Translate, RoundTrip, Termination) and the packages' other parts (Packages).
-- * NameserverInteractor and its children: arataga/dns_resolver/interactor/, the agent that asks
--   nameservers for the conductor. Request has the package that is sent, Ongoing the table of
--   requests, Accounts what is answered over any history, and Servers the list of nameservers.
-- * LineReader and its children: arataga/utils/line_extractor.hpp and
--   arataga/utils/line_reader.hpp, the lines of a text. Reference describes them plainly, Extractor
--   has the loops.
-- * Config, ConfigProcessor and its children: the config of arataga/config.hpp,
--   arataga/config_processor/a_processor.{hpp,cpp} and arataga/io_threads_count.hpp. The agent
--   compares the ACLs that run with those of a new config, shuts down and launches what differs,
--   and spreads the ACLs over the IO-threads. Requests has
--   the requests of the admin HTTP-entry, Running and Accept what runs after a config, Replace what
--   is shut down and what stays, Counts and Threads the counters of the IO-threads, Histories any
--   sequence of configs, and Routing where the requests go.
-- * AclAgent and its children: the agent of arataga/acl_handler/a_handler.{hpp,cpp} itself, which
--   opens the entry point and accepts connections, with the counters of
--   arataga/stats/connections/pub.hpp. Its messages wait in the order of their sending. History has
--   the events, Signals the messages that wait, Driven and Reached the facts that every event
--   keeps, Acceptance the limit and what drives the agent on, Resuming its return to accepting, and
--   Timer its use of the timer.
-- * Prelude and its children: Boolean tests, lists over native numbers, equality tests and strict
--   orders as interfaces, `std::map` as an association list, and the standard algorithms on sorted
--   ranges with their laws (Sorted, Sorting, Sets, Projected, Duplicates). Words: 64-bit words.
-- * Tests and its children: the theorems at concrete inputs, and test runs.
--
-- Numbers: byte counts and numbers of turns are 64-bit words with their wrap-around. The counters
-- of statistics, connections and lines are not bounded, except those of AclAgent, which are such
-- words. The loops of LineReader run on fuel; the length of the text and one more step are enough
-- for a text that does not end in a carriage return, as its theorem says; behind such an end the
-- source reads past the text, and that is a result of its own. The readers of DnsTypes run on 384
-- rounds, which are enough, as their theorems say; the translation of a name runs on the name's
-- length. The other loops are structural.
--
-- Parameters: the floating-point arithmetic of the recalculation of quotes (`Double`), the IP
-- addresses of Asio (`AsioIp`), the streams of oess_2 (`BinaryIo`), the parser of the config and how
-- the writing of its local file goes. Elsewhere an IP address is a number. A socket is modelled by
-- the operations in progress and by the bytes received and sent; a read delivers any bytes up to its
-- size, or fails; a write sends its bytes, or fails after a part of them.
--
-- Not modelled: logging, the printing of values and the registration of agents and of statistics;
-- the parsers of configs, user lists, SOCKS5 and HTTP;
-- the ACL agent's forwarding of requests to the agents of DNS and authentification.
pub mod Prelude
pub mod Words
pub mod Bandlim
pub mod UserList
pub mod Authentificator
pub mod Limiter
pub mod DataTransfer
pub mod DnsConductor
pub mod LineReader
pub mod Config
pub mod ConfigProcessor
pub mod DnsTypes
pub mod NameserverInteractor
pub mod AclAgent
pub mod Tests
