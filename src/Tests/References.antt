-- ===== src/Tests/References.antt =====
-- A compare-and-set of a reference that another thread changes first.
use cereggii.Common.{ℕ, ◌==◌, if◌then◌else◌, arith}
use cereggii.AtomicRef.{Shared, Progress, IsCounted}
use cereggii.AtomicRef.Owned.{Finishes, Finishes-alone}

-- The reference is to 1, of which others own one reference more; others own two to 2.
abbrev before : Shared
before = record { reference = 1; count = λ o. if o == 1 then 2 else if o == 2 then 2 else 0 }

abbrev others_own : ℕ → ℕ
others_own o = if o == 1 then 1 else if o == 2 then 2 else 0

-- Another thread stores 3.
abbrev changed : Shared
changed = record {
  reference = 3;
  count = λ o. if o == 1 then 1 else if o == 2 then 3 else if o == 3 then 1 else 0;
}

changed-IsCounted : IsCounted (Progress.swapping 1 2) changed
changed-IsCounted = (others_own, λ o. ground arith)

Finishes-alone_example : Finishes (Progress.swapping 1 2) changed
Finishes-alone_example = Finishes-alone (Progress.swapping 1 2) changed changed-IsCounted
