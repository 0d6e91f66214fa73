-- ===== src/SshInstall.antt =====
-- internal/sshinstall: the checks on what reaches a remote shell and an environment file, the
-- choice of a target address, and the installation with its rollback. The parts of net, net/netip
-- and strconv that they call are the parameter Net.
pub mod Checks
pub mod Safety
pub mod Image
pub mod Remote
pub mod Job
pub mod Enrolment
pub mod Install
