-- ===== src/Cidr/Options/Kept.antt =====
-- Which ranges the options of ClusterCidr take away.
use kt_connect.Common.{◌≡◌, true, List, [], ◌∷◌, ◌⊎◌, Text}
use kt_connect.Common.Outcome.{Outcome, ok}
use kt_connect.Cidr.Ranges.{is_part_of_range}

abbrev pub In : Text → List Text → Type 0
In r [] = ⊥
In r (s ∷ ss) = (r ≡ s) ⊎ In r ss

-- The excluded range equals the other or holds it.
abbrev pub Covers : Text → Text → Type 0
Covers e r = (r ≡ e) ⊎ (is_part_of_range e r ≡ ok true)
