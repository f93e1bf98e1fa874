-- ===== src/Analysis/Results.antt =====
-- What AnalyzerRegistry makes of several results: libs/engine/core/analyzer-registry.ts.
use gas_guard.Prelude.{
  ℕ, ◌+◌, Option, none, some, List, [], ◌∷◌, ◌++◌, filter, or_else, length, ltb, if◌then◌else◌,
  ◌==◌,
}
use gas_guard.Analysis.Analyzer.{
  Severity, critical, high, medium, low, info, Finding, Summary, AnalysisError, AnalysisResult,
}

abbrev severity_code : Severity → ℕ
severity_code critical = 0
severity_code high = 1
severity_code medium = 2
severity_code low = 3
severity_code info = 4

abbrev pub count_of : Severity → List Finding → ℕ
count_of severity fs = length (filter (λ f. severity_code f.severity == severity_code severity) fs)

unfoldable pub summary_of : List Finding → Summary
summary_of fs = record {
  critical_count = count_of critical fs;
  high_count = count_of high fs;
  medium_count = count_of medium fs;
  low_count = count_of low fs;
  info_count = count_of info fs;
}

abbrev pub all_findings : List AnalysisResult → List Finding
all_findings [] = []
all_findings (r ∷ rs) = r.findings ++ all_findings rs

abbrev all_errors : List AnalysisResult → List AnalysisError
all_errors [] = []
all_errors (r ∷ rs) = or_else r.errors [] ++ all_errors rs

abbrev pub total_of : (AnalysisResult → ℕ) → List AnalysisResult → ℕ
total_of f [] = 0
total_of f (r ∷ rs) = f r + total_of f rs

abbrev some_errors : List AnalysisError → Option (List AnalysisError)
some_errors [] = none
some_errors (e ∷ es) = some (e ∷ es)

-- One result is given back as it is.
unfoldable pub merge_results : List AnalysisResult → AnalysisResult
unfolding summary_of
merge_results [] = record {
  findings = [];
  files_analyzed = 0;
  analysis_time = 0;
  analyzer_version = "registry-1.0.0";
  summary = summary_of [];
  total_estimated_gas_savings = none;
  errors = none;
}
merge_results (r ∷ []) = r
merge_results (r ∷ q ∷ rs) =
    let all = r ∷ q ∷ rs in
    let savings = total_of (λ r. or_else r.total_estimated_gas_savings 0) all in
    record {
      findings = all_findings all;
      files_analyzed = total_of (λ r. r.files_analyzed) all;
      analysis_time = total_of (λ r. r.analysis_time) all;
      analyzer_version = "registry-1.0.0";
      summary = summary_of (all_findings all);
      total_estimated_gas_savings = if ltb 0 savings then some savings else none;
      errors = some_errors (all_errors all);
    }
