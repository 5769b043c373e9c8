-- ===== src/Shadow.antt =====
-- pkg/kt/service/cluster: the pods, deployments and services that the program creates.
pub mod Ports
pub mod Template
pub mod Wait
pub mod Inputs
pub mod Create
pub mod Unique
