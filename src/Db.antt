-- ===== src/Db.antt =====
-- The tables of prisma/schema.prisma that the models read and write, and the queries on them.
-- Row ids are natural numbers: an id stands for its rank among the ids in the order of
-- `localeCompare`, the only order that the program asks for. Titles, names of the resources'
-- operators and time stamps that no decision reads are left out.
pub mod Rows
pub mod Tables
