-- ===== src/Service/Scan/Laws.antt =====
-- The outcome of `scan_request` of `src/service.rs` by what the engine's scan does.
use tower_guard_rs.Base.{Text, true, Option, none, some, ◌≡◌}
use tower_guard_rs.Engine.{Engine, RequestSurfaces, RequestScanVerdict}
use tower_guard_rs.Layer.{GuardLayer, DetectConfig}
use tower_guard_rs.Request.{Parts}
use tower_guard_rs.Service.Scan.{threat, failed, judge, scan_request}

judge-threat :
    (o : Option RequestScanVerdict) (verdict : RequestScanVerdict)
    → o ≡ some verdict
    → verdict.is_threat ≡ true
    → judge o ≡ threat verdict
unfolding judge
judge-threat o verdict e h = rw (e, judge) (rw h)

judge-failed : (o : Option RequestScanVerdict) → o ≡ none → judge o ≡ failed
unfolding judge
judge-failed o e = rw e

module _ (en : Engine) (layer : GuardLayer en) (parts : Parts en) (body : Option Text) where
  pub scan_request-failed :
      ((s : RequestSurfaces) (r : en.ResolvedExclusions) (c : DetectConfig en)
        → layer.scan_fn s r c ≡ none)
      → scan_request en parts body layer ≡ failed
  unfolding scan_request
  scan_request-failed panics = judge-failed _ (panics _ _ _)

  pub scan_request-threat :
      (verdict : RequestScanVerdict)
      → ((s : RequestSurfaces) (r : en.ResolvedExclusions) (c : DetectConfig en)
          → layer.scan_fn s r c ≡ some verdict)
      → verdict.is_threat ≡ true
      → scan_request en parts body layer ≡ threat verdict
  unfolding scan_request
  scan_request-threat verdict found h = judge-threat _ verdict (found _ _ _) h
