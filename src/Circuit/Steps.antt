-- ===== src/Circuit/Steps.antt =====
-- What can happen at a circuit, as a step relation. A
-- circuit is the item with the requests under way, the reports that wait in `RetryChan`, the `total`
-- of the goroutine that reads them, and, for the statements, the count of the retries that were let
-- through since the circuit was last set half open.
use yig.Prelude.{ℕ, suc, ◌+◌, ◌≡◌, ◌≤◌, ◌<◌, ◌≢◌, arith, Bool}
use yig.Prelude.Int.{ℤ, pos, negsuc}
use yig.Circuit.{
  Status, is_open, closed, halfopen, UrlItem, new_url_item, admit, Admission, as_retry, as_usual,
  refused_closed, refused_retries, finish_usual, finish_retry, exceed_retry_handle, check_status,
  set_open, set_close,
}

pub record Circuit : Type 0 where
  pub item : UrlItem
  pub usual : ℕ
  pub retries : ℕ
  pub reports : ℕ
  pub total : ℕ
  pub granted : ℕ

abbrev pub fresh : Circuit
fresh = record { item = new_url_item; usual = 0; retries = 0; reports = 0; total = 0; granted = 0 }

-- the counts behind an admission
abbrev counted : Circuit → Admission × UrlItem → Circuit
counted c (as_usual, i) = record c { item = i; usual = c.usual + 1 }
counted c (as_retry, i) = record c { item = i; retries = c.retries + 1; granted = c.granted + 1 }
counted c (refused_closed, i) = record c { item = i }
counted c (refused_retries, i) = record c { item = i }

-- the count of retries begins again where the circuit is set half open
abbrev recounted : Status → Circuit → Circuit
recounted closed c = record c { granted = 0 }
recounted is_open c = c
recounted halfopen c = c

pub data Step : Circuit → Circuit → Type 0 where
  begins : (c : Circuit) → Step c (counted c (admit c.item))
  usual_ends :
      (c : Circuit) (failed : Bool) (n : ℕ)
      → c.usual ≡ suc n
      → Step c (record c { usual = n; item = finish_usual failed c.item })
  retry_ends :
      (c : Circuit) (failed : Bool) (n : ℕ)
      → c.retries ≡ suc n
      → Step c
          (record c { retries = n; reports = c.reports + 1; item = finish_retry failed c.item })
  report_read :
      (c : Circuit) (n : ℕ)
      → c.reports ≡ suc n
      → Step c (record c {
        reports = n;
        total = (exceed_retry_handle c.total c.item).0;
        item = (exceed_retry_handle c.total c.item).1;
      })
  ticks : (c : Circuit) → Step c (record (recounted c.item.status c) { item = check_status c.item })

pub data Reachable : Circuit → Type 0 where
  initial : Reachable fresh
  next : {c d : Circuit} → Reachable c → Step c d → Reachable d

abbrev pub IsBelow : ℤ → ℕ → Type 0
IsBelow (pos n) t = n < t
IsBelow (negsuc n) t = Unit

-- The invariant.
pub record IsSound (c : Circuit) : Type 0 where
  pub limits : (c.item.threshold ≡ 10) × (c.item.max_retry_time ≡ 3)
  pub few_failures : c.item.status ≡ is_open → IsBelow c.item.fail_num c.item.threshold
  pub few_retries : c.granted ≤ c.item.max_retry_time
  pub counted_retries : c.item.status ≡ halfopen → c.granted ≤ c.item.retry_time

-- A circuit that was opened again by the reports of its retries keeps their total: the next time it
-- is half open, the first report decides, while other retries may be under way.
pub exceed_retry_handle_early :
    (total : ℕ) (i later : UrlItem)
    → i.status ≡ halfopen
    → (exceed_retry_handle total i).1.status ≡ is_open
    → later.max_retry_time ≡ i.max_retry_time
    → later.status ≡ halfopen
    → (exceed_retry_handle (exceed_retry_handle total i).0 later).1.status ≢ halfopen
unfolding exceed_retry_handle set_open set_close
exceed_retry_handle_early total i later half opened same again = ground arith
