-- ===== src/Relp.antt =====
-- A connection of the RELP service (services/network/relp.go): the goroutine that scans the commands,
-- the parsers, and the goroutine that writes the responses.
--
-- The goroutines meet in the rings of `ackForwarder`, which are lists here: a `Put` that waits for
-- room is a step that comes later. A step of the scanner is one command. The connection is followed
-- until `RemoveConn`. looplab/fsm is a parameter with its documented behaviour, and what the scanner
-- yields is a command whose number `Atoi32` has read.
pub mod State
pub mod Scanner
pub mod Responder
pub mod Steps
pub mod Queues
pub mod Scanning
pub mod Order
pub mod Numbers
pub mod Truth
pub mod Account
pub mod Marks
pub mod Lost
pub mod Rest
