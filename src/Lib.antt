-- ===== src/Lib.antt =====
-- The web service simurga: a FastCGI program that shows the pages of a shop.
--
-- A request comes in through the FastCGI library (`Request` in src/main.cpp), which asks the table
-- of routes for an object (`HttpObjectList` in src/httpservice.cpp) and hands its work to the one
-- working thread (src/jobqueue.cpp). The object's handler reads directories and configuration files,
-- or the database (src/db.cpp), fills a page template (src/template.cpp), and leaves a page or an
-- error, which the request then sends.
--
-- Base      shared names, lists, the exceptions of src/httpservice.hpp and results
-- Text      the std::string operations in use, `trim` (src/main.cpp), numbers as text
--           (src/common.hpp) and `price` (src/db.hpp); a std::string is a list of bytes
-- Dict      std::map with std::string keys, as an association list
-- Template  src/template.hpp and src/template.cpp. Parser: `parse`, `get_next_token`,
--           `parse_subtokens`; Arguments: the argument lists and `get_variable`; Render: `yield` and
--           its parts; Store: the constructor of `PageTemplate` and `TemplateList`. The others hold
--           proofs: Source writes tokens as text, Reading, Rounds and RoundTrip read it back, Progress
--           and Fuel are about the fuel, Rendering, Extensional and Orders about pages, Loading and
--           Directory about `load`. Signature checks a template against the names that a handler sets
-- Files     `DirConfig` and `enum_items` of src/httpservice.cpp, with the file system as a parameter
-- Database  `connect` and `execute` of src/db.cpp, with the outcome of each attempt as a parameter;
--           Retry and Written hold proofs
-- Service   `HttpObject` and `HttpObjectList` of src/httpservice.hpp and src/httpservice.cpp: Object,
--           Routes and Handle; Routing, Unrouted, Links, Methods, Alike, Handling and PageArguments hold
--           proofs. Escapes and Params are what fastcgipp/src does to the path and the environment of a
--           request
-- Pages     the four `get` handlers, of src/staticpage.cpp, src/lookbook.cpp, src/collection.cpp and
--           src/model.cpp, and the helpers of src/model.cpp; Ids, Sizes, Reads, Signatures,
--           Failures, Statuses and Loaded hold proofs
-- Daemon    `Request` (Daemon), `setup_socket` (Socket) and `main` (Main) of src/main.cpp, and the
--           `instance` functions of src/db.cpp, src/httpservice.cpp, src/template.cpp and
--           src/jobqueue.cpp (Singletons); Links has the links of image/templates/collection.tpl, and
--           proofs, as have Serving, Heads, Headers, Queries, Logging, Worlds, Reads, Asked, Ends,
--           Startup and Statuses.
--           Records is `Request::handler` of fastcgipp/src/request.cpp, which calls `response`;
--           its Exchange and Ends hold proofs
-- Jobs      `JobQueue` of src/jobqueue.hpp and src/jobqueue.cpp, a step at a time; Interface is what a
--           client of the queue relies on, and Client fills it; Waiting adds the condition variable, and
--           its Client fills the interface too, with a thread that sleeps and is woken, also without a
--           reason; Order, Stopping, Pending, Patience, Waking, Moving and Sound hold proofs
-- Logs      src/logs.hpp and src/logs.cpp, with what syslog is given as state
-- Server    any number of requests of src/main.cpp with the working thread of src/jobqueue.cpp, over
--           the interface of the queue; the FastCGI manager is the environment, which makes requests and
--           delivers messages. Removal adds requests that are removed before they are
--           answered. Stages, Steps, Refinement, Runs, Answering, Safety and Ordering hold proofs
-- Tests     runs on concrete inputs, and the theorems applied to such inputs
--
-- An object's methods are functions of the object that give a result and the object as they leave it.
-- A position in a string is a number, npos is `none`, and where the source goes on from a position the
-- model goes on with the rest of the string. Numbers of type unsigned int are natural numbers; reading
-- one clamps to 2 ^ 32 - 1 as the stream does.
--
-- Fuel: `parse` takes twice the length of the text and two more, a unit for each token and each list
-- that is read, the loop over sizes takes 7, one more than its rounds, and `fill` takes the length of
-- what it reads, of which each round takes two bytes at least.
--
-- Parameters: the file system and the other calls of the operating system, the MySQL client by what
-- it gives for each attempt, with the rows that the attempt has added, the decoding of percent
-- escapes by the FastCGI library, which the function of Escapes can fill, the size of sun_path,
-- what the environment keeps of a posted body, in functions that throw nothing (Records), and what
-- the manager's handler and the working thread make of the queue until the handler returns or
-- throws (Main).
--
-- Not modelled: the formatting of log messages by syslog, the copy of the FastCGI and SQL library
-- under fastcgipp but for Escapes, Params and Records, the order of static destructors, memory that
-- runs out, and the site's own templates, scripts and SQL but for the link in collection.tpl; Tests
-- has three of the templates as inputs. A request that is removed before it is answered, for an
-- abort or a record out of order, is a step of Server/Removal only, and a request keeps its number
-- there; what the program does behind a pointer that dangles is not modelled.
pub mod Base
pub mod Text
pub mod Dict
pub mod Template
pub mod Files
pub mod Database
pub mod Service
pub mod Pages
pub mod Daemon
pub mod Jobs
pub mod Logs
pub mod Server
pub mod Tests
