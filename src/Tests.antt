-- ===== src/Tests.antt =====
-- Runs of the model on concrete inputs, and the theorems at inputs that meet their hypotheses.
mod FluxTests
mod UrlGlobTests
mod ExtractorTests
mod TuiTests
mod HlsTests
mod HttpTests
mod ConnTests
mod DnMatchTests
mod MirrorScanTests
