-- ===== src/Ssh.antt =====
-- pkg/sshstatus: the connections of the SSH hosts, their checks, and the reconciliation of an
-- SSHStatus.
pub mod Cache
pub mod Status
pub mod Controller
pub mod Client
