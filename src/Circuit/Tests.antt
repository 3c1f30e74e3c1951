-- ===== src/Circuit/Tests.antt =====
-- Runs of the circuit breaker, and the theorems at concrete circuits.
use yig.Prelude.Int.{pos}
use yig.Circuit.{UrlItem, halfopen}
use yig.Circuit.Steps.{Circuit, fresh}

abbrev under_way : Circuit
under_way = record fresh { usual = 1 }

abbrev recovered : UrlItem
recovered = record {
  status = halfopen;
  fail_num = pos 0;
  threshold = 10;
  retry_time = 3;
  max_retry_time = 3;
}

abbrev half_again : UrlItem
half_again = record recovered { fail_num = pos 2; retry_time = 1 }
