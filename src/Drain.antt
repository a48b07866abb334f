-- ===== src/Drain.antt =====
-- internal/controller/nodedrainpolicy_controller.go and api/v1alpha1/nodedrainpolicy_types.go: the
-- nodes whose requests are low are cordoned and emptied when a cron schedule says so.
pub mod Types
pub mod Client
pub mod Requests
pub mod Analysis
pub mod Node
pub mod Choice
pub mod Status
pub mod Handler
pub mod Fleet
pub mod Count
pub mod Limit
pub mod Reserve
pub mod Due
pub mod Stuck
pub mod Rounds
pub mod Report
pub mod Results
