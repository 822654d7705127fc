-- ===== src/ListEntry/Delete.antt =====
-- Removal from a ring of list.h.
use nku_os_lab.Base.{
  ℕ, ◌≡◌, ◌≢◌, sym, ◌∙◌, List, [], ◌∷◌, ◌++◌, All-append_left, All-append_right, update_self,
  update_ne,
}
use nku_os_lab.ListEntry.{Links, list_del_between, list_del}
use nku_os_lab.ListEntry.Ring.{
  Fresh, Distinct, Chain, IsRing, last, first, All-last, All-first, Chain-frame, update-Fresh,
}

-- Closing the links over an entry right behind `a`.
Chain-list_del_nil :
    (l : Links) (x a : ℕ) (ys : List ℕ) (b : ℕ)
    → Distinct (a ∷ x ∷ ys)
    → Fresh b ys
    → Chain l a (x ∷ ys) b
    → Chain (list_del_between a (first ys b) l) a ys b
unfolding list_del_between
Chain-list_del_nil l x a [] b d fb c = (update_self l.next a b, update_self l.prev b a)
Chain-list_del_nil l x a (y ∷ ys) b d fb c = (
  update_self l.next a y,
  update_self l.prev y a,
  Chain-frame l (list_del_between a y l) y ys b (update_ne l.next a y y (λ e. d.0.1.0 (sym e)))
      (update-Fresh l.next a y ys d.0.1.1) (update-Fresh l.prev y a ys d.1.1.0)
      (update_ne l.prev y a b fb.0) c.2.2,
)

pub Chain-list_del_between :
    (l : Links) (x a : ℕ) (xs ys : List ℕ) (b : ℕ)
    → Distinct (a ∷ (xs ++ (x ∷ ys)))
    → Fresh b (xs ++ (x ∷ ys))
    → Chain l a (xs ++ (x ∷ ys)) b
    → Chain (list_del_between (last a xs) (first ys b) l) a (xs ++ ys) b
unfolding list_del_between
Chain-list_del_between l x a [] ys b d fb c = Chain-list_del_nil l x a ys b d fb.1 c
Chain-list_del_between l x a (z ∷ xs) ys b d fb c = (
  update_ne l.next (last z xs) (first ys b) a
        (All-last (λ y. y ≢ a) z xs d.0.0 (All-append_left (λ y. y ≢ a) xs (x ∷ ys) d.0.1))
      ∙ c.0,
  update_ne l.prev (first ys b) (last z xs) z (
        All-first (λ y. y ≢ z) ys b (All-append_right (λ y. y ≢ z) xs (x ∷ ys) d.1.0).1
          (λ q. fb.0 (sym q)))
      ∙ c.1,
  Chain-list_del_between l x z xs ys b d.1 fb.1 c.2,
)

Fresh-remove : (w x : ℕ) (xs ys : List ℕ) → Fresh w (xs ++ (x ∷ ys)) → Fresh w (xs ++ ys)
Fresh-remove w x [] ys f = f.1
Fresh-remove w x (z ∷ xs) ys f = (f.0, Fresh-remove w x xs ys f.1)

pub Distinct-remove : (x : ℕ) (xs ys : List ℕ) → Distinct (xs ++ (x ∷ ys)) → Distinct (xs ++ ys)
Distinct-remove x [] ys d = d.1
Distinct-remove x (z ∷ xs) ys d = (Fresh-remove z x xs ys d.0, Distinct-remove x xs ys d.1)

-- In a ring the entry `x` lies between the ends of the cut at `x`.
pub list_del_ends :
    (l : Links) (x a : ℕ) (xs ys : List ℕ) (b : ℕ)
    → Chain l a (xs ++ (x ∷ ys)) b
    → (l.prev x ≡ last a xs) × (l.next x ≡ first ys b)
list_del_ends l x a [] [] b c = (c.1, c.2.0)
list_del_ends l x a [] (y ∷ ys) b c = (c.1, c.2.0)
list_del_ends l x a (z ∷ xs) ys b c = list_del_ends l x z xs ys b c.2

-- `list_del` takes exactly its entry out of the ring, wherever it stands.
pub list_del-IsRing :
    {l : Links} {h : ℕ} (xs ys : List ℕ) (x : ℕ)
    → IsRing l h (xs ++ (x ∷ ys))
    → IsRing (list_del x l) h (xs ++ ys)
unfolding list_del
list_del-IsRing {l} {h} xs ys x r = record {
  linked =
      let ends = list_del_ends l x h xs ys h r.linked in
      rw (ends.0, ends.1) (Chain-list_del_between l x h xs ys h r.distinct r.distinct.0 r.linked);
  distinct = Distinct-remove x (h ∷ xs) ys r.distinct;
}
