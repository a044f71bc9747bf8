-- ===== src/Lib.antt =====
-- A model of fix-session-lab, a FIX 4.4 laboratory: a fake venue with its control plane, the two
-- client applications that connect to it, the log that hides their passwords, and the three programs.
--
-- The venue (internal/exchange) keeps an order book, takes NewOrderSingles from the order-entry
-- session, lets an operator fill, cancel and reject, and sends each ExecutionReport to the order-entry
-- session and to the drop copy. A session that is lost can start a timer that cancels the open day
-- orders. The clients (internal/client) stand on internal/session, which writes the Logon, passes
-- inbound traffic on and watches for silence. Requests over HTTP (internal/admin) command the venue.
-- The programs (cmd) load settings, start an engine and wait for a signal.
--
-- Base: numbers, lists, text as bytes, int64, Go's maps as association lists.
-- Deps: shopspring/decimal and quickfixgo/quickfix as one record of operations, an instance argument
--   of all that uses them; DecimalLaws and MessageLaws, and HeaderLaws of Feed/Logons, are the laws
--   that some theorems take.
-- Order: internal/exchange/const.go and OrderState of book.go.
-- Book: internal/exchange/book.go. The map holds addresses of cells, as the Go map holds pointers;
--   Book/Spec says what the book promises, as a list of orders, and Book/Refines compares the two.
-- Exchange: internal/exchange/exchange.go; Exchange/Reports reports.go; Exchange/Commands commands.go;
--   Exchange/Sessions its AdvanceSeqNum and Sessions; Exchange/Intake the ends of a NewOrderSingle,
--   Exchange/Trades those of Partial, with the fields of the traded order written out;
--   Exchange/Callbacks the callbacks that change the venue. A handler maps the state of the venue to
--   the next one and to its error. `outbox` is what was handed to SendToTarget, newest first; `timers`
--   what was handed to time.AfterFunc. Exchange/Events has all that can happen as one type, and `run`.
--   Exchange/Steps has the venue's steps as a relation, by which the invariants go.
--   There each method is one step. Exchange/Races has the methods cut into the parts between which
--   others come, as a list of acts: a change of the book, the read of an order that was inserted, and
--   the four moves of publish.
--   Races/Replay has a list of orders on which each act works at once, Races/Swept an order that
--   trades under CancelAllOpenDay. Exchange/Standing follows one session through the events, apart
--   from the others; Exchange/GraceWindow and Exchange/LostTwice follow one that is lost;
--   Exchange/Passwords is about what LoadKinds takes from the environment.
-- Session: internal/session/logon.go; Session/Client client.go; Session/Watchdog watchdog.go;
--   Session/Supervisor supervisor.go. Watchdog/Alarms lists the ticks at which there is an alarm.
--   Session/Settings settings.go, over settings that are a parameter with its operations.
-- Fixlog: internal/fixlog/redact.go, Redact; Fixlog/Logger its log factory.
-- Client/DropCopy and Client/OrderEntry: internal/client/dc.go and oe.go.
-- Admin: internal/admin/admin.go. A handler maps the venue and a request to the next venue and the
--   answer; `serve` is the whole of Handler. A request is its method, its path and the parameters of
--   its query; the body of an answer is the value that is written as JSON. Admin/Asked has the table
--   of the commands, each with what it needs and the event that it is, apart from the handlers;
--   Admin/Served has the ways that a request can be answered.
-- Cmd/Startup: the run functions of cmd/oe-client/main.go, cmd/dc-client/main.go and
--   cmd/exchange/main.go, with the calls that they make of an engine as values. Cmd/OeClient: the
--   order-entry program while it runs, as acts of its two goroutines, of the engine and of the
--   watchdog's restarts, in any order; what the scheduler chooses is the list of acts.
--   OeClient/Ends is about the signals that end it. OeClient/Watching arms the watchdog of
--   internal/session over the supervisor's Restart; what Build and Start answer, call by call, is
--   part of its state. Cmd/Main: the three main functions with the defaults of their flags.
-- Feed: the reports that the venue hands to SendToTarget on their way to the clients. How a message
--   carries a report is a relation, since the engine's messages are a parameter. Feed/Logons takes a
--   client's Logon to the venue. Feed/Rejects has the two ends answer each other's messages; the
--   message that the engine sends for an error is a parameter.
-- Tests: concrete functions for the packages, concrete runs, and the theorems applied to them.
--
-- The loop of Redact runs on fuel, the length of the text, of which each round consumes one field at
-- least, and so does the printing of numbers, in base 10 and in base 36, with one more than
-- the number as its fuel. The answers between two ends run on fuel too, one for each message, and
-- three are enough. All other loops recurse on a list.
--
-- Not modelled: the parts of the callbacks of a session that overlap with others, but for publish
-- and the changes of the book; log lines and TransactTime, which nothing reads; the engine's own
-- sessions, stores and network; the parsing of flags, the transport and the path cleaning of
-- HTTP, and the encoding as JSON. Texts are bytes, and ToUpper is that of ASCII. The book's counters
-- and the clients' are unbounded.
pub mod Base
pub mod Deps
pub mod Order
pub mod Book
pub mod Session
pub mod Exchange
pub mod Fixlog
pub mod Client
pub mod Admin
pub mod Cmd
pub mod Feed
pub mod Tests
