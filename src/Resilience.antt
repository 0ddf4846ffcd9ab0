-- ===== src/Resilience.antt =====
-- modules/service-lab/resilience_lab.py: a client that degrades instead of amplifying an outage.
pub mod Breaker
pub mod RetryBudget
pub mod Client
pub mod Middle
pub mod Limiter
