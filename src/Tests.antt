-- ===== src/Tests.antt =====
-- Tests, and the theorems at concrete inputs.
mod Sample
mod FramingTests
mod RegistryTests
mod ServerTests
mod ConfigTests
mod QueueTests
mod ToolsTests
mod ProjectTests
mod SettingsTests
mod ScanTests
mod DxTests
mod IntentTests
mod LifecycleTests
mod AutoloadTests
mod ClientTests
