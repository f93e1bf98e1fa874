-- ===== src/Analysis/Analyzer.antt =====
-- What an analyzer is to the registry: libs/engine/core/analyzer-interface.ts. Lines, times and savings
-- of gas are natural numbers; `Rule` and `Config` are passed through.
use gas_guard.Prelude.{ℕ, String, Bool, Option, List, Dict}
use gas_guard.Exec.{Outcome}

pub data Severity : Type 0 where
  critical high medium low info : Severity

pub record Finding : Type 0 where
  pub rule_id : String
  pub message : String
  pub severity : Severity
  pub file : String
  pub start_line : ℕ
  pub end_line : ℕ
  pub estimated_gas_savings : Option ℕ

pub record Summary : Type 0 where
  pub critical_count : ℕ
  pub high_count : ℕ
  pub medium_count : ℕ
  pub low_count : ℕ
  pub info_count : ℕ

pub record AnalysisError : Type 0 where
  pub file : String
  pub message : String

pub record AnalysisResult : Type 0 where
  pub findings : List Finding
  pub files_analyzed : ℕ
  pub analysis_time : ℕ
  pub analyzer_version : String
  pub summary : Summary
  pub total_estimated_gas_savings : Option ℕ
  pub errors : Option (List AnalysisError)

pub record Analyzer (Rule Config : Type 0) : Type 0 where
  pub name : String
  pub supported_languages : List String
  pub supports_language : String → Bool
  pub rules : List Rule
  -- the code and its path
  pub analyze : String → String → Option Config → Outcome String AnalysisResult
  -- the codes by their paths
  pub analyze_multiple : Dict String → Option Config → Outcome String AnalysisResult
