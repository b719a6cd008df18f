-- ===== src/Tests.antt =====
-- The theorems of the library at concrete inputs.
mod ImageTests
mod PlanTests
mod EnumTests
mod AdminTests
mod PolicyTests
mod AccessTests
mod ServerTests
mod MonitorTests
mod ArtifactTests
