-- ===== src/Agenda.antt =====
-- services/agendaService.js: the availability of a barber, from intervals to the slots offered.
pub mod Intervals
pub mod Schedule
pub mod Slots
pub mod Availability
pub mod Examples
