-- ===== src/Cache/Metrics.antt =====
-- CacheMetricsService: apps/api-service/src/gas/caching/cache-metrics.service.ts.
use gas_guard.Prelude.{
  [], ℕ, zero, suc, ◌+◌, ◌-◌, String, Bool, Option, none, some, Dict, get, put, NumberMap,
  set_number, or_else, if◌then◌else◌,
}
use gas_guard.Numbers.{Arithmetic}

pub record Counts : Type 0 where
  pub hits : ℕ
  pub misses : ℕ
  pub total_requests : ℕ

abbrev pub no_counts : Counts
no_counts = record { hits = 0; misses = 0; total_requests = 0 }

abbrev pub count : Bool → Counts → Counts
count hit c = record {
  hits = if hit then suc c.hits else c.hits;
  misses = if hit then c.misses else suc c.misses;
  total_requests = suc c.total_requests;
}

module _ (ar : Arithmetic) where
  open ar use {Number, literal, add, mul, div}

  pub record EndpointMetrics : Type 0 where
    pub counts : Counts
    pub avg_response_time : Number

  pub record Metrics : Type 0 where
    pub global : Counts
    pub total_response_time : ℕ
    pub endpoints : Dict EndpointMetrics
    pub chains : NumberMap Counts

  unfoldable pub no_metrics : Metrics
  no_metrics = record {
    global = no_counts;
    total_response_time = 0;
    endpoints = [];
    chains = λ chain. none;
  }

  unfoldable pub update_endpoint_metrics :
      String → Bool → ℕ → Dict EndpointMetrics → Dict EndpointMetrics
  unfolding get put
  update_endpoint_metrics endpoint hit elapsed m =
      let old =
        or_else (get endpoint m) (record { counts = no_counts; avg_response_time = literal 0 1 }) in
      let counts = count hit old.counts in
      put endpoint
        (record {
          counts = counts;
          avg_response_time =
              div
                (add (mul old.avg_response_time (literal (counts.total_requests - 1) 1))
                  (literal elapsed 1))
                (literal counts.total_requests 1);
        })
        m

  -- `if (chainId)`
  abbrev count_chain : Bool → Option ℕ → NumberMap Counts → NumberMap Counts
  count_chain hit none m = m
  count_chain hit (some zero) m = m
  count_chain hit (some (suc n)) m =
      set_number (suc n) (count hit (or_else (m (suc n)) no_counts)) m

  -- `recordHit` and `recordMiss`
  unfoldable pub record_request : Bool → String → Option ℕ → ℕ → Metrics → Metrics
  unfolding update_endpoint_metrics
  record_request hit endpoint chain elapsed m = record {
    global = count hit m.global;
    total_response_time = m.total_response_time + elapsed;
    endpoints = update_endpoint_metrics endpoint hit elapsed m.endpoints;
    chains = count_chain hit chain m.chains;
  }
