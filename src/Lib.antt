-- ===== src/Lib.antt =====
-- The privacy engine of Lean Thorium and its transport to the Cognitia daemon, as functions on states.
--
-- Chromium asks the throttles (Throttle, lean_thorium/src/chrome/browser/privacy/throttle) about each
-- request, redirect and navigation. They ask the policy manager (PolicyManager,
-- privacy/privacy_policy/privacy_policy_manager.cc), which strips tracking parameters from URLs
-- (ParameterFilter, privacy/tracking_parameter_filter), looks for a policy of the page (SiteExceptions,
-- privacy/privacy_policy/site_exceptions.h), has the tracker blocker decide (TrackerBlocker,
-- privacy/tracker_blocker/tracker_blocker.cc), and dispatches events to listeners (Events,
-- privacy/privacy_events) with URLs sanitised for telemetry (Telemetry, SanitizeUrlForTelemetry of the
-- manager). The blocker classifies the request against the page (Classifier,
-- privacy/third_party_classifier) and reads the rule database (RuleDatabase,
-- privacy/tracker_blocker/rule_database.cc), which is filled with parsed lines of filter lists
-- (RuleParser, privacy/tracker_blocker/rule_parser.cc). Types has the enums and records of
-- privacy/privacy_policy/privacy_types.h. Apart from these, the adapter to the daemon sends messages
-- through an abstract transport (Transport, cognitia_adapter/transport/cognitia_transport.h), which is a
-- Windows pipe (PipeTransport, cognitia_adapter/transport/named_pipe_transport_win.cc) and
-- keeps those that wait in a bounded queue (EventQueue,
-- cognitia_adapter/transport/bounded_event_queue.cc). What it sends comes from the observation collector
-- (Collector, cognitia_adapter/observation) and the content extractor (ContentExtractor,
-- cognitia_adapter/content_extraction), both with URLs from the URL sanitizer (UrlSanitizer,
-- cognitia_adapter/protocol/url_sanitizer.cc) and in the envelopes of cognitia_adapter/protocol
-- (Envelope), whose times Clock prints. The records of base::Value and its dictionaries are an
-- interface, ValueApi, with the laws IsMap. Text has the operations of `std::string` that the
-- sources use, and Base what all modules share. All these paths are under
-- lean_thorium/src/chrome/browser.
--
-- A class is a record of its members, and a method that changes them a function from the record to the
-- next record and the result; a definition has the name of its method in lower case. A string is the
-- list of its bytes. Maps are association lists, of which only lookups are used, and sets are lists. A
-- mutex that guards a method whole makes the method one step. Counters of 64 bits wrap around as
-- written; the `int` that counts the lines of a filter list is a natural number, which agrees with it up
-- to `2 ^ 31 - 1` lines. The clock, the random prefix of event identifiers, Chromium's GURL, the JSON
-- writer and the answers of CreateFileW and WriteFile are arguments. A write that fails is taken to
-- deliver nothing.
--
-- Three loops run on fuel. The loop over the dots of a host (RuleDatabase) has one unit more than the
-- host has bytes, and each round goes to a later dot. The loop of the flush (PipeTransport) has one unit
-- more than events wait, and each round takes one. The decimal print has more units than the number,
-- and each round divides by ten.
--
-- Not modelled are the encoding of JSON and of UTF-8, the random tokens, the process-wide instance, and
-- the test programs, of which the unit tests of privacy/tests and of the queue are run on the definitions
-- (Tests.UnitRules, Tests.UnitManager). What Chromium documents of the components of a URL is stated in
-- UrlSanitizer.Parts. The task runner of the transport runs posted tasks one after the other, in the
-- order of their posting, as Chromium documents it; what uses the transport after its destructor is
-- undefined (PipeTransport.Lifetime). Three parts are modelled by their critical sections: threads that
-- report events at the same time (PolicyManager.Threads), the evaluation of a request while other
-- threads change the rule database (TrackerBlocker.Interrupted), and the lookups of the policy of a page
-- while exceptions change (PolicyManager.Interrupted). The other concurrent calls are modelled as
-- sequences of whole methods.
pub mod Base
pub mod Text
pub mod Clock
pub mod Types
pub mod Classifier
pub mod RuleParser
pub mod RuleDatabase
pub mod TrackerBlocker
pub mod ParameterFilter
pub mod SiteExceptions
pub mod Events
pub mod Telemetry
pub mod PolicyManager
pub mod Throttle
pub mod EventQueue
pub mod Transport
pub mod PipeTransport
pub mod Envelope
pub mod UrlSanitizer
pub mod ContentExtractor
pub mod Collector
pub mod Tests
