-- ===== src/Exec.antt =====
-- c/exec.c on Linux: what it reads of a process, the lines it prints, and the events it handles.
pub mod Mac
pub mod Procargs
pub mod Files
pub mod Ancestry
pub mod Line
pub mod Events
pub mod Netlink
