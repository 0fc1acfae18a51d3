-- ===== src/Tests.antt =====
-- Concrete inputs: each theorem that has hypotheses or parameters, applied where they hold.
mod Volumes
mod Clusters
mod Boot
mod Processes
mod Strings
mod Memory
mod Descriptors
mod Files
mod FatFiles
mod Paths
