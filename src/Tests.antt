-- ===== src/Tests.antt =====
-- Concrete inputs: each theorem that has a hypothesis, at an input that meets it, and runs of the
-- definitions on the inputs of the program's own tests.
mod Env
mod Names
mod Agents
mod Volumes
mod Targets
mod Files
mod Cluster
mod Nvme
mod Running
mod Status
mod Validation
mod Nfs
mod Rest
mod Restclient
mod Cmd
mod Creation
mod Health
mod Store
