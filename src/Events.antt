-- ===== src/Events.antt =====
-- services/agendaEventDispatcher.js: the stream of changes of the agenda to one browser.
pub mod Dispatcher
pub mod Replay
pub mod Subscriber
pub mod Examples
