-- ===== src/Vma/Sorted.antt =====
-- The list of areas: in the order of their addresses, and apart.
use nku_os_lab.Base.{
  ℕ, ◌≤◌, ◌<◌, ◌≡◌, refl, sym, ◌∙◌, ap, subst, ◌⊎◌, inl, inr, true, false, Option, none, some, List,
  ◌∷◌, [], if◌then◌else◌, length, arith, Bool-cases,
}
use nku_os_lab.Vma.{Vma, Mm, contains, is_cached, scan_vma, find_vma}

abbrev pub Member : Vma → List Vma → Type 0
Member v [] = ⊥
Member v (u ∷ us) = (v ≡ u) ⊎ Member v us

-- The areas from `lo` on, none of them empty.
abbrev pub IsSorted : ℕ → List Vma → Type 0
IsSorted lo [] = Unit
IsSorted lo (v ∷ vs) = (lo ≤ v.vm_start) × (v.vm_start < v.vm_end) × IsSorted v.vm_end vs

abbrev pub IsCached : Option Vma → List Vma → Type 0
IsCached none vs = Unit
IsCached (some v) vs = Member v vs

-- The address space between two calls: the areas are in order and apart, their number is kept, and
-- the cache holds one of them.
pub record IsMm (mm : Mm) : Type 0 where
  pub sorted : IsSorted 0 mm.mmap_list
  pub counted : mm.map_count ≡ length mm.mmap_list
  pub cached : IsCached mm.mmap_cache mm.mmap_list

abbrev pub Covers : ℕ → Vma → Type 0
Covers addr v = (v.vm_start ≤ addr) × (addr < v.vm_end)

pub contains-true : (addr : ℕ) (v : Vma) → contains addr v ≡ true → Covers addr v
contains-true addr v h = ground (arith, h)

pub Covers-contains : (addr : ℕ) (v : Vma) → Covers addr v → contains addr v ≡ true
Covers-contains addr v h = ground (arith, h)

contains-below : (addr : ℕ) (v : Vma) → addr < v.vm_start → contains addr v ≡ false
contains-below addr v h = ground (arith, h)

pub IsSorted-weaken : (lo lo' : ℕ) (vs : List Vma) → lo' ≤ lo → IsSorted lo vs → IsSorted lo' vs
IsSorted-weaken lo lo' [] h s = tt
IsSorted-weaken lo lo' (v ∷ vs) h s = (omega (arith, s.0), s.1, s.2)

-- A member of a sorted list lies above its bound.
pub Member-above :
    (lo : ℕ) (v : Vma) (vs : List Vma)
    → IsSorted lo vs
    → Member v vs
    → (lo ≤ v.vm_start) × (v.vm_start < v.vm_end)
Member-above lo v [] s m = elim m [ ]
Member-above lo v (u ∷ us) s (inl e) = rw e (s.0, s.1)
Member-above lo v (u ∷ us) s (inr m) =
    let (a, b) = Member-above u.vm_end v us s.2 m in (omega (arith, a, s.0, s.1), b)

scan_vma-Member :
    (addr lo : ℕ) (v : Vma) (vs : List Vma)
    → IsSorted lo vs
    → Member v vs
    → Covers addr v
    → scan_vma addr vs ≡ some v
unfolding scan_vma
scan_vma-Member addr lo v [] s m c = elim m [ ]
scan_vma-Member addr lo v (u ∷ us) s (inl e) c =
    rw (Covers-contains addr u (subst (Covers addr) e c)) (ap some (sym e))
scan_vma-Member addr lo v (u ∷ us) s (inr m) c =
    let above = Member-above u.vm_end v us s.2 m in
    elim (Bool-cases (contains addr u)) [
      | inl e ↦ absurd (omega (arith, contains-true addr u e, above.0, c.0))
      | inr e ↦ rw e (scan_vma-Member addr u.vm_end v us s.2 m c)
    ]

-- Only one area of a sorted list holds an address.
pub Covers-unique :
    (addr lo : ℕ) (u v : Vma) (vs : List Vma)
    → IsSorted lo vs
    → Member u vs
    → Member v vs
    → Covers addr u
    → Covers addr v
    → u ≡ v
Covers-unique addr lo u v vs s m n c d =
    cc (scan_vma-Member addr lo u vs s m c, scan_vma-Member addr lo v vs s n d)

-- What a search finds: an area of the list that holds the address, or that there is none.
abbrev pub Finds : ℕ → List Vma → Option Vma → Type 0
Finds addr vs none = (v : Vma) → Member v vs → ¬ Covers addr v
Finds addr vs (some v) = Member v vs × Covers addr v

scan_vma-Finds : (addr : ℕ) (vs : List Vma) → Finds addr vs (scan_vma addr vs)
unfolding scan_vma
scan_vma-Finds addr [] = λ v m. elim m [ ]
scan_vma-Finds addr (u ∷ us) = elim (Bool-cases (contains addr u)) [
  | inl e ↦ rw e (inl refl, contains-true addr u e)
  | inr e ↦ rw e (further (scan_vma addr us) e (scan_vma-Finds addr us))
]
  where
    further : (o : Option Vma) → contains addr u ≡ false → Finds addr us o → Finds addr (u ∷ us) o
    further (some v) e (m, c) = (inr m, c)
    further none e f = λ v m c. elim m [
      | inl q ↦ cc (Covers-contains addr u (subst (Covers addr) q c), e)
      | inr k ↦ f v k c
    ]

-- The state of the address space after a search; only the cache changes.
pub record Searched (mm mm' : Mm) : Type 0 where
  pub valid : IsMm mm'
  pub list : mm'.mmap_list ≡ mm.mmap_list
  pub key : mm'.key ≡ mm.key
  pub count : mm'.map_count ≡ mm.map_count

-- The cache does not show in the result.
find_vma-scan : (addr : ℕ) (mm : Mm) → IsMm mm → (find_vma addr mm).0 ≡ scan_vma addr mm.mmap_list
unfolding find_vma
find_vma-scan addr mm h = go mm.mmap_cache refl h.cached
  where
    go :
        (o : Option Vma)
        → mm.mmap_cache ≡ o
        → IsCached o mm.mmap_list
        → (if is_cached addr mm.mmap_cache then mm.mmap_cache else scan_vma addr mm.mmap_list)
          ≡ scan_vma addr mm.mmap_list
    go none e c = rw e refl
    go (some v) e c = elim (Bool-cases (contains addr v)) [
      | inr f ↦ rw (e, f) refl
      | inl t ↦
          rw (e, t)
            (sym (scan_vma-Member addr 0 v mm.mmap_list h.sorted c (contains-true addr v t)))
    ]

cached_mm :
    (mm : Mm) (o : Option Vma)
    → IsMm mm
    → IsCached o mm.mmap_list
    → Searched mm (elim o [ none ↦ mm | some v ↦ record mm { mmap_cache = some v } ])
cached_mm mm none h c = record { valid = h; list = refl; key = refl; count = refl }
cached_mm mm (some v) h c = record {
  valid = record { sorted = h.sorted; counted = h.counted; cached = c };
  list = refl;
  key = refl;
  count = refl;
}

Finds-IsCached : (addr : ℕ) (vs : List Vma) (o : Option Vma) → Finds addr vs o → IsCached o vs
Finds-IsCached addr vs none f = tt
Finds-IsCached addr vs (some v) f = f.0

pub find_vma-Finds :
    (addr : ℕ) (mm : Mm)
    → IsMm mm
    → Finds addr mm.mmap_list (find_vma addr mm).0
      × Searched mm (find_vma addr mm).1
      × ((o : Option Vma)
          → IsCached o mm.mmap_list
          → (find_vma addr (record mm { mmap_cache = o })).0 ≡ (find_vma addr mm).0)
unfolding find_vma
find_vma-Finds addr mm h =
    let found =
      subst (Finds addr mm.mmap_list) (sym (find_vma-scan addr mm h))
        (scan_vma-Finds addr mm.mmap_list) in
    (
      found,
      cached_mm mm (find_vma addr mm).0 h
          (Finds-IsCached addr mm.mmap_list (find_vma addr mm).0 found),
      λ o c.
          find_vma-scan addr (record mm { mmap_cache = o })
            record { sorted = h.sorted; counted = h.counted; cached = c }
          ∙ sym (find_vma-scan addr mm h),
    )
