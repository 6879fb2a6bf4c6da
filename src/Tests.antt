-- ===== src/Tests.antt =====
-- Runs of the code on small inputs, and the theorems at work on them.
mod Samples
mod Machines
mod Sessions
mod Notices
mod Subjects
mod Pages
mod Monitors
mod Inputs
mod Sheets
mod Panels
mod Views
mod Buttons
mod Links
