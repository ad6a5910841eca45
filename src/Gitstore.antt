-- ===== src/Gitstore.antt =====
-- internal/gitstore/gitstore.go: what the file system asks of git. The commands of git are a
-- parameter; what they are asked for and what is made of their answers is in the children.
pub mod Commands
pub mod Tree
pub mod Batch
mod Tests
