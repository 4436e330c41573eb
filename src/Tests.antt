-- ===== src/Tests.antt =====
-- Small runs of the models, and the theorems at inputs where their hypotheses hold.
mod PipeTests
mod IpcTests
mod ProcTests
mod LayoutTests
mod FilesTests
mod LocksTests
mod StringsTests
mod SpaceTests
mod ConsoleTests
mod LogTests
mod LifeTests
