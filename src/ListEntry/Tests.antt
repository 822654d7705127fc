-- ===== src/ListEntry/Tests.antt =====
-- The theorems on list.h at a concrete ring.
use nku_os_lab.Base.{refl, [], ◌∷◌, arith, update}
use nku_os_lab.ListEntry.{Links, list_del}
use nku_os_lab.ListEntry.Ring.{IsRing}
use nku_os_lab.ListEntry.Delete.{list_del-IsRing}

-- Head 0, entries 3 and 7.
abbrev links : Links
links = record { prev = update (update (λ _. 0) 7 3) 0 7; next = update (update (λ _. 0) 0 3) 3 7 }

links-IsRing : IsRing links 0 (3 ∷ 7 ∷ [])
links-IsRing = record { linked = (refl, refl, (refl, refl, (refl, refl))); distinct = omega arith }

list_del-IsRing_example : IsRing (list_del 3 links) 0 (7 ∷ [])
list_del-IsRing_example = list_del-IsRing [] (7 ∷ []) 3 links-IsRing
