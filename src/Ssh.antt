-- ===== src/Ssh.antt =====
-- internal/ssh: connections to a virtual machine, and the commands run over them.
pub mod Dial
pub mod Keepalive
pub mod Quote
pub mod Command
pub mod Shell
pub mod Terminal
pub mod Session
