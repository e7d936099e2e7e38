-- ===== src/Database.antt =====
-- What the server makes of the rows that the database answers: src/Cassandra/Record.cpp.
pub mod Rows
pub mod Answers
pub mod Session
pub mod Settings
