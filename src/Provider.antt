-- ===== src/Provider.antt =====
-- provider/ and the types it shares.
pub mod Constraints
pub mod ConstraintLaws
pub mod Cluster
pub mod Labels
pub mod Docker
pub mod Rancher
pub mod Marathon
pub mod Grouping
pub mod Rendering
pub mod Numbers
pub mod Slices
pub mod Picking
pub mod Mesos
pub mod Ecs
pub mod Consul
pub mod Kv
pub mod Eureka
pub mod Dynamo
pub mod DockerExamples
pub mod SwarmExamples
pub mod MarathonExamples
pub mod MesosExamples
pub mod EcsExamples
pub mod ConsulExamples
pub mod KvExamples
pub mod RancherExamples
pub mod TableExamples
pub mod Services
pub mod Ingresses
pub mod IngressUsers
pub mod IngressLaws
pub mod IngressExamples
pub mod Examples
