-- ===== src/Cidr/Options/Tests.antt =====
-- A range that is excluded.
use kt_connect.Common.{[], ◌∷◌, List, Text, codes}

abbrev excluded : List Text
excluded = codes "10.1.0.0/16" ∷ []

abbrev ranges : List Text
ranges = codes "10.1.0.0/16" ∷ codes "172.17.0.0/16" ∷ []
