-- ===== src/Terms/Tests.antt =====
-- The sample terms under the validator.
use garage_pass.Base.{◌≡◌, ◌↔◌, In, ◌+◌}
use garage_pass.Result.{ok}
use garage_pass.Terms.Defs.{check_terms, days_that_occur}
use garage_pass.Terms.Days.{Occurs, days_that_occur-Occurs}
use garage_pass.Terms.Spec.{IsConsistent}
use garage_pass.Terms.Check.{check_terms-IsConsistent}
use garage_pass.Sample.{terms, monday}

check_terms-IsConsistent_example : (check_terms terms ≡ ok tt) ↔ IsConsistent terms
check_terms-IsConsistent_example = check_terms-IsConsistent terms

days_that_occur-Occurs_example :
    In 3 (days_that_occur monday (monday + 2)) ↔ Occurs monday (monday + 2) 3
days_that_occur-Occurs_example = days_that_occur-Occurs monday (monday + 2) 3
